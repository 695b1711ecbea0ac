-- ===== src/SloEventProducer/Operator.antt =====
-- The operators of pkg/slo_event_producer/operator.go. An operator type is a constructor; the name
-- under which the registry knows it is its source name.
pub mod Laws
pub mod Factory
use slo_exporter.Prelude.{
  String, Bool, true, false, not, ◌==◌, Option, none, some, List, [], ◌∷◌, ℤ, gt_ℤ, if◌then◌else◌,
}
use slo_exporter.Prelude.Dict.{Dict, lookup}
use slo_exporter.StringMap.{StringMap}
use slo_exporter.Event.{Raw}
use slo_exporter.Runtime.{Float64, TextLibrary}
use slo_exporter.Prelude.Results.{Result, ok, err, ◌>>=◌}

pub record OperatorOptions : Type 0 where
  pub operator : String
  pub key : String
  pub value : String

-- The errors of LoadOptions and newOperator.
pub data OptionsError : Type 0 where
  unknown_operator : String → OptionsError
  invalid_float invalid_duration invalid_regexp : OptionsError

-- The errors of Evaluate: a metadata value that is not a number, or not a duration.
pub data EvaluateError : Type 0 where
  invalid_metadata_float invalid_metadata_duration : EvaluateError

-- numberComparisonOperator
pub record NumberComparison (F : Type 0) : Type 0 where
  pub name : String
  pub key : String
  pub value : F

pub data Operator (F R : Type 0) : Type 0 where
  is_equal_to is_not_equal_to : String → String → Operator F R
  is_matching_regexp is_not_matching_regexp : String → R → Operator F R
  number_is_equal_to number_is_not_equal_to : NumberComparison F → Operator F R
  number_is_higher_than : NumberComparison F → Operator F R
  number_is_equal_or_higher_than number_is_equal_or_less_than : NumberComparison F → Operator F R
  duration_is_higher_than : String → ℤ → Operator F R

abbrev pub or_err {ℓ} : {E A : Type ℓ} → E → Option A → Result E A
or_err e none = err e
or_err e (some a) = ok a

pub record Metric (F : Type 0) : Type 0 where
  pub labels : StringMap
  pub value : F

module _ (fl : Float64) (lib : TextLibrary) where
  open fl use {F}
  open lib use {Regexp}

  -- (*numberComparisonOperator).LoadOptions, on the operator that a factory made
  unfoldable pub load_number : String → OperatorOptions → Result OptionsError (NumberComparison F)
  load_number name options = do
    threshold ← or_err invalid_float (fl.parse options.value)
    ok (record { name = name; key = options.key; value = threshold })

  -- A factory of the registry, followed by the LoadOptions of what it makes.
  abbrev pub Factory : Type 0
  Factory = OperatorOptions → Result OptionsError (Operator F Regexp)

  unfoldable pub load_regexp : (String → Regexp → Operator F Regexp) → Factory
  load_regexp make options = do
    r ← or_err invalid_regexp (lib.compile options.value)
    ok (make options.key r)

  unfoldable pub load_number_as : String → (NumberComparison F → Operator F Regexp) → Factory
  load_number_as name make options = do n ← load_number name options; ok (make n)

  unfoldable pub load_duration : Factory
  load_duration options = do
    threshold ← or_err invalid_duration (lib.parse_duration options.value)
    ok (duration_is_higher_than options.key threshold)

  -- operatorFactoryRegistry
  unfoldable pub registry : Dict Factory
  registry =
      ("isEqualTo", λ options. ok (is_equal_to options.key options.value))
      ∷ ("isNotEqualTo", λ options. ok (is_not_equal_to options.key options.value))
      ∷ ("isMatchingRegexp", load_regexp is_matching_regexp)
      ∷ ("isNotMatchingRegexp", load_regexp is_not_matching_regexp)
      ∷ ("numberIsEqualTo", load_number_as "numberIsEqualTo" number_is_equal_to)
      ∷ ("numberIsNotEqualTo", load_number_as "numberIsNotEqualTo" number_is_not_equal_to)
      ∷ ("numberIsHigherThan", load_number_as "numberIsHigherThan" number_is_higher_than)
      ∷ (
        "numberIsEqualOrHigherThan",
        load_number_as "numberIsEqualOrHigherThan" number_is_equal_or_higher_than,
      )
      ∷ (
        "numberIsEqualOrLessThan",
        load_number_as "numberIsEqualOrLessThan" number_is_equal_or_less_than,
      )
      ∷ ("durationIsHigherThan", load_duration)
      ∷ []

  unfoldable pub new_operator : OperatorOptions → Result OptionsError (Operator F Regexp)
  new_operator options = elim (lookup options.operator registry) [
    | none ↦ err (unknown_operator options.operator)
    | some make ↦ make options
  ]

  -- getKeyNumber: the number, whether there is one, and the error
  unfoldable pub get_key_number : NumberComparison F → Raw F → F × Bool × Option EvaluateError
  get_key_number n evaluated_event = elim (lookup n.key evaluated_event.metadata) [
    | none ↦ (fl.zero, false, none)
    | some metadata_value ↦ elim (fl.parse metadata_value) [
      | none ↦ (fl.zero, false, some invalid_metadata_float)
      | some tested_value ↦ (tested_value, true, none)
    ]
  ]

  -- The body that the Evaluate methods of the number operators share but for the comparison.
  unfoldable pub evaluate_number :
      (F → F → Bool) → NumberComparison F → Raw F → Bool × Option EvaluateError
  unfolding get_key_number
  evaluate_number test n evaluated_event =
      let (tested_value, found, error) = get_key_number n evaluated_event in
      if not found then (false, error) else (test tested_value n.value, none)

  -- The body that the Evaluate methods of the text operators share but for the test.
  unfoldable pub evaluate_text : (String → Bool) → String → Raw F → Bool × Option EvaluateError
  evaluate_text test key evaluated_event = elim (lookup key evaluated_event.metadata) [
    | none ↦ (false, none)
    | some tested_value ↦ (test tested_value, none)
  ]

  unfoldable pub evaluate_duration : String → ℤ → Raw F → Bool × Option EvaluateError
  evaluate_duration key threshold evaluated_event = elim (lookup key evaluated_event.metadata) [
    | none ↦ (false, none)
    | some metadata_value ↦ elim (lib.parse_duration metadata_value) [
      | none ↦ (false, some invalid_metadata_duration)
      | some tested_duration ↦ (gt_ℤ tested_duration threshold, none)
    ]
  ]

  -- Evaluate, for every operator type
  unfoldable pub evaluate : Operator F Regexp → Raw F → Bool × Option EvaluateError
  unfolding evaluate_number evaluate_text evaluate_duration
  evaluate (is_equal_to key value) e = evaluate_text (λ tested. value == tested) key e
  evaluate (is_not_equal_to key value) e = evaluate_text (λ tested. not (value == tested)) key e
  evaluate (is_matching_regexp key r) e = evaluate_text (λ tested. lib.match_string r tested) key e
  evaluate (is_not_matching_regexp key r) e =
      evaluate_text (λ tested. not (lib.match_string r tested)) key e
  evaluate (number_is_equal_to n) e = evaluate_number (λ tested value. fl.eq tested value) n e
  evaluate (number_is_not_equal_to n) e =
      evaluate_number (λ tested value. not (fl.eq tested value)) n e
  evaluate (number_is_higher_than n) e = evaluate_number (λ tested value. fl.lt value tested) n e
  evaluate (number_is_equal_or_higher_than n) e =
      evaluate_number (λ tested value. fl.le value tested) n e
  evaluate (number_is_equal_or_less_than n) e =
      evaluate_number (λ tested value. fl.le tested value) n e
  evaluate (duration_is_higher_than key threshold) e = evaluate_duration key threshold e

  -- AsMetric of the number operators
  unfoldable pub number_as_metric : NumberComparison F → Metric F
  number_as_metric n = record { labels = ("operator", n.name) ∷ []; value = n.value }

  -- The conversion to exposableOperator: the number operators have AsMetric, by embedding.
  unfoldable pub as_metric : Operator F Regexp → Option (Metric F)
  unfolding number_as_metric
  as_metric (number_is_equal_to n) = some (number_as_metric n)
  as_metric (number_is_not_equal_to n) = some (number_as_metric n)
  as_metric (number_is_higher_than n) = some (number_as_metric n)
  as_metric (number_is_equal_or_higher_than n) = some (number_as_metric n)
  as_metric (number_is_equal_or_less_than n) = some (number_as_metric n)
  as_metric _ = none

  -- The conversion to labelsExposableOperator, and its Labels
  unfoldable pub operator_labels : Operator F Regexp → Option StringMap
  operator_labels (is_equal_to key value) = some ((key, value) ∷ [])
  operator_labels (number_is_equal_to n) = some ((n.key, fl.format n.value) ∷ [])
  operator_labels _ = none
