-- ===== src/RulesGenerator/Validation/Laws.antt =====
-- The domains without errors in tools/slo-rules-generator.
use slo_exporter.Prelude.{
  String, ◌≡◌, refl, true, false, List, [], ◌∷◌, map, arith, ◌↔◌, All, contains,
}
use slo_exporter.Prelude.Dict.{Dict, IsMap}
use slo_exporter.Runtime.{Float64}
use slo_exporter.RulesGenerator.Conditions.{
  BurnRateThreshold, SloType, Class, Domain, validate_references,
}
use slo_exporter.RulesGenerator.Conditions.References.{
  IsReferenced, append_empty, validate_references_iff,
}
use slo_exporter.RulesGenerator.Validation.{
  alerting_failed, class_failed, reference_failed, default_timerange_thresholds, append_error,
  unless_empty, elements, found_in, time_range_is_valid, condition_is_valid, threshold_is_valid,
  alerting_is_valid, slo_type_is_valid, class_is_valid, classes_are_valid, domain_is_valid,
}

abbrev pub time_ranges : List String
time_ranges = "1h" ∷ "6h" ∷ "1d" ∷ "3d" ∷ []

found_in-contains :
    {F : Type 0} (range : String) (thresholds : List (BurnRateThreshold F))
    → found_in range thresholds
      ≡ contains range (map (λ (t : BurnRateThreshold F). t.condition.time_range) thresholds)
unfolding found_in
found_in-contains range [] = refl
found_in-contains range (t ∷ thresholds) = ground (arith, found_in-contains range thresholds)

map_empty : {A B : Type 0} (f : A → B) (xs : List A) → (map f xs ≡ []) ↔ (xs ≡ [])
map_empty f [] = ((λ e. refl), (λ e. refl))
map_empty f (x ∷ xs) = ((λ e. absurd (ground arith)), (λ e. absurd (ground arith)))

append_error-unless_empty :
    {A B : Type 0} (failed : List A → B) (xs : List A) (rest : List B)
    → (append_error (unless_empty failed xs) rest ≡ []) ↔ ((xs ≡ []) × (rest ≡ []))
append_error-unless_empty failed [] rest = ((λ e. (refl, e)), (λ h. h.1))
append_error-unless_empty failed (x ∷ xs) rest =
    ((λ e. absurd (ground arith)), (λ h. absurd (ground (arith, h.0))))

-- Two lists of errors are empty where each of them is exactly under its condition.
both_iff : {P Q R S T : Type 0} → T ↔ (P × Q) → P ↔ R → Q ↔ S → T ↔ (R × S)
both_iff split first later = (
  (λ e. (first.0 (split.0 e).0, later.0 (split.0 e).1)),
  (λ h. split.1 (first.1 h.0, later.1 h.1)),
)

module _ (fl : Float64) (of_1h of_6h of_1d : fl.F) where
  open fl use {F}

  -- A threshold is not at most 0, and its time range is one of the default thresholds'.
  abbrev pub IsThreshold : BurnRateThreshold F → Type 0
  IsThreshold t =
      (fl.le t.value fl.zero ≡ false) × (contains t.condition.time_range time_ranges ≡ true)

  -- The value of a type is neither below 0 nor above 1.
  abbrev pub IsRatio : String × SloType F → Type 0
  IsRatio (name, t) = (fl.lt t.value fl.zero ≡ false) × (fl.lt fl.one t.value ≡ false)

  abbrev pub AreRatios : String × Class F → Type 0
  AreRatios (name, class) = All IsRatio class

  abbrev pub IsDomain : Domain F → Type 0
  IsDomain d =
      All IsThreshold (elements d.alerting.burn_rate_thresholds)
      × All AreRatios d.classes
      × All (λ t. IsReferenced d.classes t.condition) (elements d.alerting.burn_rate_thresholds)

  threshold_is_valid_iff :
      (t : BurnRateThreshold F) → (threshold_is_valid fl of_1h of_6h of_1d t ≡ []) ↔ IsThreshold t
  unfolding threshold_is_valid condition_is_valid time_range_is_valid
  threshold_is_valid_iff t =
      let known =
        found_in-contains t.condition.time_range
          (default_timerange_thresholds fl of_1h of_6h of_1d) in
      ((λ e. ground (arith, known)), (λ h. ground (arith, known)))

  alerting_is_valid_iff :
      (thresholds : List (BurnRateThreshold F))
      → (alerting_is_valid fl of_1h of_6h of_1d thresholds ≡ []) ↔ All IsThreshold thresholds
  unfolding alerting_is_valid
  alerting_is_valid_iff [] = ((λ e. tt), (λ h. refl))
  alerting_is_valid_iff (t ∷ thresholds) =
      both_iff
        (append_empty (threshold_is_valid fl of_1h of_6h of_1d t)
          (alerting_is_valid fl of_1h of_6h of_1d thresholds))
        (threshold_is_valid_iff t) (alerting_is_valid_iff thresholds)

  class_is_valid_iff :
      (class : Class F) → (class_is_valid fl of_1h of_6h of_1d class ≡ []) ↔ All IsRatio class
  unfolding class_is_valid slo_type_is_valid
  class_is_valid_iff [] = ((λ e. tt), (λ h. refl))
  class_is_valid_iff ((name, t) ∷ class) =
      let later = class_is_valid_iff class in
      ((λ e. ground (arith, later)), (λ h. ground (arith, later)))

  classes_are_valid_iff :
      (classes : Dict (Class F))
      → (classes_are_valid fl of_1h of_6h of_1d classes ≡ []) ↔ All AreRatios classes
  unfolding classes_are_valid
  classes_are_valid_iff [] = ((λ e. tt), (λ h. refl))
  classes_are_valid_iff ((name, class) ∷ classes) =
      both_iff
        (append_error-unless_empty (class_failed name) (class_is_valid fl of_1h of_6h of_1d class)
          (classes_are_valid fl of_1h of_6h of_1d classes))
        (class_is_valid_iff class) (classes_are_valid_iff classes)

  -- Where the classes of a domain have each name once: its validation finds no error exactly when no
  -- threshold is at most 0 and each has one of the time ranges 1h, 6h, 1d and 3d, the value of no type
  -- is below 0 or above 1, and what each condition names is defined: its class, and for its type a
  -- class that has it and that the condition matches.
  pub domain_is_valid_iff :
      (d : Domain F) → IsMap d.classes → (domain_is_valid fl of_1h of_6h of_1d d ≡ []) ↔ IsDomain d
  unfolding domain_is_valid
  domain_is_valid_iff d distinct =
      let thresholds = elements d.alerting.burn_rate_thresholds in
      let found = validate_references d.classes thresholds in
      let of_thresholds = alerting_is_valid fl of_1h of_6h of_1d thresholds in
      let of_classes = classes_are_valid fl of_1h of_6h of_1d d.classes in
      let refs = validate_references_iff d.classes thresholds distinct in
      let mapped = map_empty (λ e. reference_failed e) found in
      let parts =
        append_empty (append_error (unless_empty (λ e. alerting_failed e) of_thresholds) of_classes)
          (map (λ e. reference_failed e) found) in
      let front =
        both_iff (append_error-unless_empty (λ e. alerting_failed e) of_thresholds of_classes)
          (alerting_is_valid_iff thresholds) (classes_are_valid_iff d.classes) in
      (
        (λ e.
            let both = front.0 (parts.0 e).0 in (both.0, both.1, refs.0 (mapped.0 (parts.0 e).1))),
        (λ h. parts.1 (front.1 (h.0, h.1), mapped.1 (refs.1 h.2))),
      )
