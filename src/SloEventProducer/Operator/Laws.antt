-- ===== src/SloEventProducer/Operator/Laws.antt =====
-- What the operators of pkg/slo_event_producer/operator.go decide.
use slo_exporter.Prelude.{
  String, ◌≡◌, ◌≢◌, ◌↔◌, inl, inr, eq_iff, Bool, true, false, not, ℤ, gt_ℤ, none, some, arith,
  Option-cases,
}
use slo_exporter.Prelude.Dict.{lookup}
use slo_exporter.Event.{Raw}
use slo_exporter.Runtime.{Float64, TextLibrary}
use slo_exporter.SloEventProducer.Operator.{
  Operator, NumberComparison, evaluate, evaluate_number, evaluate_duration, is_equal_to,
  is_not_equal_to, is_matching_regexp, is_not_matching_regexp, number_is_equal_to,
  number_is_not_equal_to, number_is_higher_than, number_is_equal_or_higher_than,
  number_is_equal_or_less_than, duration_is_higher_than,
}

module _ (fl : Float64) (lib : TextLibrary) where
  open fl use {F}
  open lib use {Regexp}

  -- The key whose metadata an operator reads.
  abbrev pub key_of : Operator F Regexp → String
  key_of (is_equal_to key _) = key
  key_of (is_not_equal_to key _) = key
  key_of (is_matching_regexp key _) = key
  key_of (is_not_matching_regexp key _) = key
  key_of (number_is_equal_to n) = n.key
  key_of (number_is_not_equal_to n) = n.key
  key_of (number_is_higher_than n) = n.key
  key_of (number_is_equal_or_higher_than n) = n.key
  key_of (number_is_equal_or_less_than n) = n.key
  key_of (duration_is_higher_than key _) = key

  -- A metadata value is a number with the property, or a duration with it.
  abbrev pub Number : (F → Bool) → String → Type 0
  Number test v = (x : F) × (fl.parse v ≡ some x) × (test x ≡ true)

  -- What an operator is named for, of a metadata value.
  abbrev pub Holds : Operator F Regexp → String → Type 0
  Holds (is_equal_to _ value) v = value ≡ v
  Holds (is_not_equal_to _ value) v = value ≢ v
  Holds (is_matching_regexp _ r) v = lib.match_string r v ≡ true
  Holds (is_not_matching_regexp _ r) v = lib.match_string r v ≡ false
  Holds (number_is_equal_to n) v = Number (λ x. fl.eq x n.value) v
  Holds (number_is_not_equal_to n) v = Number (λ x. not (fl.eq x n.value)) v
  Holds (number_is_higher_than n) v = Number (λ x. fl.lt n.value x) v
  Holds (number_is_equal_or_higher_than n) v = Number (λ x. fl.le n.value x) v
  Holds (number_is_equal_or_less_than n) v = Number (λ x. fl.le x n.value) v
  Holds (duration_is_higher_than _ threshold) v =
      (d : ℤ) × (lib.parse_duration v ≡ some d) × (gt_ℤ d threshold ≡ true)

  comparison_outcome :
      (test : F → F → Bool) (n : NumberComparison F) (e : Raw F) (v : String)
      → lookup n.key e.metadata ≡ some v
      → ((evaluate_number fl lib test n e).0 ≡ true) ↔ Number (λ x. test x n.value) v
  unfolding evaluate_number
  comparison_outcome test n e v h = elim (Option-cases (fl.parse v)) [
    | inl bad ↦ ((λ t. absurd (ground arith)), (λ w. absurd (ground arith)))
    | inr (x, good) ↦ ((λ t. (x, good, ground arith)), (λ w. ground arith))
  ]

  duration_at :
      (key : String) (threshold : ℤ) (e : Raw F) (v : String)
      → lookup key e.metadata ≡ some v
      → ((evaluate_duration fl lib key threshold e).0 ≡ true)
        ↔ ((d : ℤ) × (lib.parse_duration v ≡ some d) × (gt_ℤ d threshold ≡ true))
  unfolding evaluate_duration
  duration_at key threshold e v h = elim (Option-cases (lib.parse_duration v)) [
    | inl bad ↦ ((λ t. absurd (ground arith)), (λ w. absurd (ground arith)))
    | inr (d, good) ↦ ((λ t. (d, good, ground arith)), (λ w. ground arith))
  ]

  -- With no metadata at its key an operator is false, and that is no error.
  evaluate_missing :
      (op : Operator F Regexp) (e : Raw F)
      → lookup (key_of op) e.metadata ≡ none
      → evaluate fl lib op e ≡ (false, none)
  unfolding evaluate
  evaluate_missing (is_equal_to key value) e h = ground arith
  evaluate_missing _ e h = ground arith

  present_outcome :
      (op : Operator F Regexp) (e : Raw F) (v : String)
      → lookup (key_of op) e.metadata ≡ some v
      → ((evaluate fl lib op e).0 ≡ true) ↔ Holds op v
  unfolding evaluate
  present_outcome (is_equal_to key value) e v h = ground (arith, eq_iff value v)
  present_outcome (is_not_equal_to key value) e v h = ground (arith, eq_iff value v)
  present_outcome (is_matching_regexp key r) e v h = ground arith
  present_outcome (is_not_matching_regexp key r) e v h = ground arith
  present_outcome (number_is_equal_to n) e v h = comparison_outcome (λ x y. fl.eq x y) n e v h
  present_outcome (number_is_not_equal_to n) e v h =
      comparison_outcome (λ x y. not (fl.eq x y)) n e v h
  present_outcome (number_is_higher_than n) e v h = comparison_outcome (λ x y. fl.lt y x) n e v h
  present_outcome (number_is_equal_or_higher_than n) e v h =
      comparison_outcome (λ x y. fl.le y x) n e v h
  present_outcome (number_is_equal_or_less_than n) e v h =
      comparison_outcome (λ x y. fl.le x y) n e v h
  present_outcome (duration_is_higher_than key threshold) e v h = duration_at key threshold e v h

  -- An operator evaluates to true exactly when the event has metadata at its key, and what the
  -- operator is named for holds of the value.
  pub evaluate_iff :
      (op : Operator F Regexp) (e : Raw F)
      → ((evaluate fl lib op e).0 ≡ true)
        ↔ ((v : String) × (lookup (key_of op) e.metadata ≡ some v) × Holds op v)
  evaluate_iff op e = elim (Option-cases (lookup (key_of op) e.metadata)) [
    | inl missing ↦ (
      (λ h. absurd (ground (arith, evaluate_missing op e missing))),
      (λ w. absurd (ground arith)),
    )
    | inr (v, found) ↦ (
      (λ h. (v, found, (present_outcome op e v found).0 h)),
      (λ w. (present_outcome op e w.0 w.1).1 w.2),
    )
  ]

  -- An operator that reports an error is false.
  pub evaluate_error :
      (op : Operator F Regexp) (e : Raw F)
      → (evaluate fl lib op e).1 ≢ none
      → (evaluate fl lib op e).0 ≡ false
  unfolding evaluate
  evaluate_error (is_equal_to key value) e h = ground arith
  evaluate_error _ e h = ground arith
