-- ===== src/SloEventProducer/Rule.antt =====
-- The rules of pkg/slo_event_producer/rule.go, with the options of config.go that they are made of.
pub mod Laws
use slo_exporter.Prelude.{
  String, Bool, true, false, not, ◌==◌, Option, none, some, List, [], ◌∷◌, if◌then◌else◌,
}
use slo_exporter.StringMap.{StringMap}
use slo_exporter.Event.{SloClassification, Raw, Slo, event_key, is_classified, success, fail}
use slo_exporter.Runtime.{Float64, TextLibrary}
use slo_exporter.SloEventProducer.Operator.{
  Operator, OperatorOptions, OptionsError, new_operator, evaluate,
}
use slo_exporter.Prelude.Results.{Result, ok, err, ◌>>=◌}

-- sloMatcher of config.go
pub record SloMatcher : Type 0 where
  pub domain_regexp : String
  pub class_regexp : String
  pub app_regexp : String

pub record RuleOptions : Type 0 where
  pub metadata_matcher_conditions_options : List OperatorOptions
  pub slo_matcher : SloMatcher
  pub failure_conditions_options : List OperatorOptions
  pub additional_metadata : StringMap

pub data RuleError : Type 0 where
  invalid_operator : OptionsError → RuleError
  invalid_domain_regexp invalid_class_regexp invalid_app_regexp : RuleError

-- sloClassificationMatcher; a nil regexp is `none`.
pub record SloClassificationMatcher (R : Type 0) : Type 0 where
  pub domain_regexp : Option R
  pub class_regexp : Option R
  pub app_regexp : Option R

pub record EvaluationRule (F R : Type 0) : Type 0 where
  pub slo_matcher : SloClassificationMatcher R
  pub metadata_matcher : List (Operator F R)
  pub failure_conditions : List (Operator F R)
  pub additional_metadata : StringMap

unfoldable pub mark_event_result : {F : Type 0} → Bool → Slo F → Slo F
mark_event_result failed e =
    if failed then record e { result = fail } else record e { result = success }

-- The event that processEvent builds, before it is marked.
unfoldable pub new_slo_event :
    {F R : Type 0} → EvaluationRule F R → Raw F → SloClassification → Slo F
new_slo_event er e c = record {
  key = event_key e;
  result = "";
  domain = c.domain;
  class = c.class;
  app = c.app;
  metadata = er.additional_metadata;
  quantity = e.quantity;
  original_event = e;
}

module _ (fl : Float64) (lib : TextLibrary) where
  open fl use {F}
  open lib use {Regexp}

  -- A test of matchesSloClassification: a regexp that is set does not match the value.
  abbrev pub rejects : Option Regexp → String → Bool
  rejects none value = false
  rejects (some r) value = not (lib.match_string r value)

  unfoldable pub matches_slo_classification :
      SloClassificationMatcher Regexp → SloClassification → Bool
  matches_slo_classification s c =
      if rejects s.domain_regexp c.domain
      then false
      else if rejects s.class_regexp c.class
      then false
      else if rejects s.app_regexp c.app
      then false
      else true

  unfoldable pub get_operators :
      List OperatorOptions → Result OptionsError (List (Operator F Regexp))
  get_operators [] = ok []
  get_operators (o ∷ os) = do
    operator ← new_operator fl lib o
    rest ← get_operators os
    ok (operator ∷ rest)

  -- A block of newEvaluationRule: an empty pattern leaves the regexp nil.
  unfoldable pub compile_matcher : RuleError → String → Result RuleError (Option Regexp)
  compile_matcher error pattern =
      if pattern == ""
      then ok none
      else elim (lib.compile pattern) [ none ↦ err error | some r ↦ ok (some r) ]

  abbrev pub operators_of : List OperatorOptions → Result RuleError (List (Operator F Regexp))
  operators_of os = elim (get_operators os) [ ok ops ↦ ok ops | err e ↦ err (invalid_operator e) ]

  unfoldable pub new_evaluation_rule : RuleOptions → Result RuleError (EvaluationRule F Regexp)
  unfolding compile_matcher
  new_evaluation_rule opts = do
    matcher_conditions ← operators_of opts.metadata_matcher_conditions_options
    failure_conditions ← operators_of opts.failure_conditions_options
    domain_regexp ← compile_matcher invalid_domain_regexp opts.slo_matcher.domain_regexp
    class_regexp ← compile_matcher invalid_class_regexp opts.slo_matcher.class_regexp
    app_regexp ← compile_matcher invalid_app_regexp opts.slo_matcher.app_regexp
    ok (record {
      slo_matcher = record {
        domain_regexp = domain_regexp;
        class_regexp = class_regexp;
        app_regexp = app_regexp;
      };
      metadata_matcher = matcher_conditions;
      failure_conditions = failure_conditions;
      additional_metadata = opts.additional_metadata;
    })

  -- The loop of evaluateEvent: an error is logged, and the result stands.
  unfoldable pub any_condition : List (Operator F Regexp) → Raw F → Bool
  any_condition [] e = false
  any_condition (op ∷ ops) e =
      let rest = any_condition ops e in
      let (result, error) = evaluate fl lib op e in if result then true else rest

  unfoldable pub evaluate_event : EvaluationRule F Regexp → Raw F → Bool
  evaluate_event er e = any_condition er.failure_conditions e

  -- The loop of processEvent over the metadata matchers: an error or a mismatch ends it.
  unfoldable pub all_matchers : List (Operator F Regexp) → Raw F → Bool
  all_matchers [] e = true
  all_matchers (op ∷ ops) e =
      let rest = all_matchers ops e in
      let (matches, error) = evaluate fl lib op e in
      elim error [ some _ ↦ false | none ↦ if not matches then false else rest ]

  unfoldable pub process_event : EvaluationRule F Regexp → Raw F → Option (Slo F)
  unfolding evaluate_event new_slo_event
  process_event er e = if not (is_classified e) then none else elim e.slo_classification [
    | none ↦ none
    | some c ↦
        if not (matches_slo_classification er.slo_matcher c)
        then none
        else if not (all_matchers er.metadata_matcher e)
        then none
        else some (mark_event_result (evaluate_event er e) (new_slo_event er e c))
  ]
