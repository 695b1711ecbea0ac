-- ===== src/SloEventProducer/Rule/Laws.antt =====
-- What a rule of pkg/slo_event_producer/rule.go accepts, and the SLO event that it makes.
use slo_exporter.Prelude.{
  String, ◌≡◌, refl, ◌↔◌, inl, inr, true, Option, none, some, List, [], ◌∷◌, arith, All, Bool-cases,
  Option-cases, if◌then◌else◌, eq_iff,
}
use slo_exporter.Event.{SloClassification, Raw, Slo, event_key, is_classified, success, fail}
use slo_exporter.Runtime.{Float64, TextLibrary}
use slo_exporter.SloEventProducer.Operator.{Operator, evaluate}
use slo_exporter.SloEventProducer.Operator.Laws.{evaluate_error}
use slo_exporter.SloEventProducer.Rule.{
  SloClassificationMatcher, EvaluationRule, matches_slo_classification, any_condition, all_matchers,
  evaluate_event, process_event, mark_event_result, new_slo_event,
}

module _ (fl : Float64) (lib : TextLibrary) where
  open fl use {F}
  open lib use {Regexp}

  -- An operator of the list evaluates to true.
  pub data AnyTrue (e : Raw F) : List (Operator F Regexp) → Type 0 where
    here :
        {op : Operator F Regexp} {ops : List (Operator F Regexp)}
        → (evaluate fl lib op e).0 ≡ true
        → AnyTrue e (op ∷ ops)
    there :
        {op : Operator F Regexp} {ops : List (Operator F Regexp)}
        → AnyTrue e ops
        → AnyTrue e (op ∷ ops)

  any_condition_complete :
      (ops : List (Operator F Regexp)) (e : Raw F)
      → AnyTrue e ops
      → any_condition fl lib ops e ≡ true
  unfolding any_condition
  any_condition_complete [] e h = elim h [ ]
  any_condition_complete (op ∷ ops) e (here h) = ground arith
  any_condition_complete (op ∷ ops) e (there h) = ground (arith, any_condition_complete ops e h)

  any_condition_sound :
      (ops : List (Operator F Regexp)) (e : Raw F)
      → any_condition fl lib ops e ≡ true
      → AnyTrue e ops
  unfolding any_condition
  any_condition_sound [] e h = absurd (ground arith)
  any_condition_sound (op ∷ ops) e h = elim (Bool-cases (evaluate fl lib op e).0) [
    | inl holds ↦ here holds
    | inr fails ↦ there (any_condition_sound ops e (ground arith))
  ]

  -- Every operator of the list evaluates to true.
  abbrev pub AllTrue : Raw F → List (Operator F Regexp) → Type 0
  AllTrue e ops = All (λ op. (evaluate fl lib op e).0 ≡ true) ops

  all_matchers_sound :
      (ops : List (Operator F Regexp)) (e : Raw F)
      → all_matchers fl lib ops e ≡ true
      → AllTrue e ops
  unfolding all_matchers
  all_matchers_sound [] e h = tt
  all_matchers_sound (op ∷ ops) e h = (ground arith, all_matchers_sound ops e (ground arith))

  -- An operator that is true reports no error.
  no_error :
      (op : Operator F Regexp) (e : Raw F)
      → (evaluate fl lib op e).0 ≡ true
      → (evaluate fl lib op e).1 ≡ none
  no_error op e h = elim (Option-cases (evaluate fl lib op e).1) [
    | inl fine ↦ fine
    | inr (error, bad) ↦ absurd (cc (evaluate_error fl lib op e (λ p. cc)))
  ]

  all_matchers_complete :
      (ops : List (Operator F Regexp)) (e : Raw F)
      → AllTrue e ops
      → all_matchers fl lib ops e ≡ true
  unfolding all_matchers
  all_matchers_complete [] e h = refl
  all_matchers_complete (op ∷ ops) e h =
      ground (arith, no_error op e h.0, all_matchers_complete ops e h.1)

  -- A regexp that is set matches the value.
  abbrev pub Matches : Option Regexp → String → Type 0
  Matches none value = Unit
  Matches (some r) value = lib.match_string r value ≡ true

  matches_slo_classification_iff :
      (s : SloClassificationMatcher Regexp) (c : SloClassification)
      → (matches_slo_classification fl lib s c ≡ true) ↔ (
          Matches s.domain_regexp c.domain
          × Matches s.class_regexp c.class
          × Matches s.app_regexp c.app)
  unfolding matches_slo_classification
  matches_slo_classification_iff s c = ((λ e. ground arith), (λ h. ground arith))

  -- What a rule requires of an event: it is completely classified, the regexps that are set match
  -- the classification, and every metadata matcher evaluates to true.
  pub record Accepts (er : EvaluationRule F Regexp) (e : Raw F) (c : SloClassification)
      : Type 0 where
    pub classified : e.slo_classification ≡ some c
    pub complete : is_classified e ≡ true
    pub domain_matches : Matches er.slo_matcher.domain_regexp c.domain
    pub class_matches : Matches er.slo_matcher.class_regexp c.class
    pub app_matches : Matches er.slo_matcher.app_regexp c.app
    pub matchers : AllTrue e er.metadata_matcher

  process_event_sound :
      (er : EvaluationRule F Regexp) (e : Raw F) (s : Slo F)
      → process_event fl lib er e ≡ some s
      → (c : SloClassification) × Accepts er e c
        × (s ≡ mark_event_result (evaluate_event fl lib er e) (new_slo_event er e c))
  unfolding process_event
  process_event_sound er e s h = elim (Option-cases e.slo_classification) [
    | inl missing ↦ absurd (ground arith)
    | inr (c, found) ↦
        let matched = (matches_slo_classification_iff er.slo_matcher c).0 (ground arith) in
        (
          c,
          record {
            classified = found;
            complete = ground arith;
            domain_matches = matched.0;
            class_matches = matched.1;
            app_matches = matched.2;
            matchers = all_matchers_sound er.metadata_matcher e (ground arith);
          },
          ground arith,
        )
  ]

  process_event_complete :
      (er : EvaluationRule F Regexp) (e : Raw F) (c : SloClassification)
      → Accepts er e c
      → process_event fl lib er e
        ≡ some (mark_event_result (evaluate_event fl lib er e) (new_slo_event er e c))
  unfolding process_event
  process_event_complete er e c a = ground (
    arith,
    a.classified,
    a.complete,
    (matches_slo_classification_iff er.slo_matcher c).1
        (a.domain_matches, a.class_matches, a.app_matches),
    all_matchers_complete er.metadata_matcher e a.matchers,
  )

  -- A rule makes an SLO event of an event exactly when it accepts it: the event is completely
  -- classified, the regexps that are set match its classification, and every metadata matcher
  -- evaluates to true.
  pub process_event_iff :
      (er : EvaluationRule F Regexp) (e : Raw F)
      → ((s : Slo F) × (process_event fl lib er e ≡ some s))
        ↔ ((c : SloClassification) × Accepts er e c)
  process_event_iff er e = (
    (λ found. let (c, accepts, _) = process_event_sound er e found.0 found.1 in (c, accepts)),
    (λ accepted. (_, process_event_complete er e accepted.0 accepted.1)),
  )

  pub result_of :
      (er : EvaluationRule F Regexp) (e : Raw F) (s : Slo F)
      → process_event fl lib er e ≡ some s
      → s.result ≡ (if any_condition fl lib er.failure_conditions e then fail else success)
  unfolding mark_event_result evaluate_event new_slo_event
  result_of er e s h = let (c, _, same) = process_event_sound er e s h in ground (arith, same)

  -- The SLO event of a rule is failed exactly when a failure condition evaluates to true, and it is
  -- a success exactly when none does.
  pub process_event_result :
      (er : EvaluationRule F Regexp) (e : Raw F) (s : Slo F)
      → process_event fl lib er e ≡ some s
      → ((s.result ≡ fail) ↔ AnyTrue e er.failure_conditions)
        × ((s.result ≡ success) ↔ (¬ AnyTrue e er.failure_conditions))
  process_event_result er e s h =
      let marked = result_of er e s h in
      let differ : fail ≡ success → ⊥ = λ p. cc ((eq_iff fail success).1 p) in
      elim (Bool-cases (any_condition fl lib er.failure_conditions e)) [
        | inl failed ↦
            let bad = any_condition_sound er.failure_conditions e failed in
            (
              ((λ p. bad), (λ p. ground arith)),
              ((λ p. absurd (differ (ground arith))), (λ p. absurd (p bad))),
            )
        | inr passed ↦
            let good : ¬ AnyTrue e er.failure_conditions =
              λ bad. cc (any_condition_complete er.failure_conditions e bad) in
            (
              ((λ p. absurd (differ (ground arith))), (λ p. absurd (good p))),
              ((λ p. good), (λ p. ground arith)),
            )
      ]

  -- The SLO event of a rule has the key, the classification and the quantity of its event, carries
  -- the event itself, and has the metadata of the rule.
  pub process_event_copies :
      (er : EvaluationRule F Regexp) (e : Raw F) (s : Slo F)
      → process_event fl lib er e ≡ some s
      → (s.key ≡ event_key e)
        × (e.slo_classification ≡ some (record { domain = s.domain; app = s.app; class = s.class }))
        × (s.metadata ≡ er.additional_metadata)
        × (s.quantity ≡ e.quantity)
        × (s.original_event ≡ e)
  unfolding mark_event_result new_slo_event
  process_event_copies er e s h =
      let (c, accepts, same) = process_event_sound er e s h in
      let found = accepts.classified in
      elim (Bool-cases (evaluate_event fl lib er e)) [
        | inl failed ↦ (ground arith, ground arith, ground arith, ground arith, ground arith)
        | inr passed ↦ (ground arith, ground arith, ground arith, ground arith, ground arith)
      ]
