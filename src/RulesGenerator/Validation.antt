-- ===== src/RulesGenerator/Validation.antt =====
-- The validation of a domain in tools/slo-rules-generator: the IsValid of alerting.go, class.go and
-- domain.go. Errors are values in place of texts. The classes of a domain and the types of a class
-- come in the order of their lists, where Go's maps have any order.
pub mod Laws
use slo_exporter.Prelude.{
  String, Bool, true, false, not, ◌||◌, ◌==◌, Option, none, some, List, [], ◌∷◌, ◌++◌, map,
  if◌then◌else◌,
}
use slo_exporter.Prelude.Dict.{Dict}
use slo_exporter.Runtime.{Float64}
use slo_exporter.RulesGenerator.Conditions.{
  Condition, BurnRateThreshold, SloType, Class, Domain, ReferenceError, validate_references,
}

pub data ThresholdError : Type 0 where
  not_above_zero : ThresholdError
  invalid_time_range : String → ThresholdError

-- The name of a type and its value
pub data SloTypeError (F : Type 0) : Type 0 where
  not_a_ratio : String → F → SloTypeError F

pub data DomainError (F : Type 0) : Type 0 where
  alerting_failed : List ThresholdError → DomainError F
  class_failed : String → List (SloTypeError F) → DomainError F
  reference_failed : ReferenceError → DomainError F

-- Where the list is nil, a loop over it has no step.
abbrev pub elements : {A : Type 0} → Option (List A) → List A
elements none = []
elements (some xs) = xs

-- The errors that a step appends.
abbrev pub append_error : {A : Type 0} → Option A → List A → List A
append_error none rest = rest
append_error (some e) rest = e ∷ rest

-- An error is made of a list of errors that is not empty.
abbrev pub unless_empty : {A B : Type 0} → (List A → B) → List A → Option B
unless_empty failed [] = none
unless_empty failed (e ∷ errs) = some (failed (e ∷ errs))

-- defaultTimerangeThresholds, with the numbers 13.44, 5.6 and 2.8
abbrev pub default_timerange_thresholds :
    (fl : Float64) → fl.F → fl.F → fl.F → List (BurnRateThreshold fl.F)
default_timerange_thresholds fl of_1h of_6h of_1d =
    record { condition = record { class = ""; slo_type = ""; time_range = "1h" }; value = of_1h }
    ∷ record { condition = record { class = ""; slo_type = ""; time_range = "6h" }; value = of_6h }
    ∷ record { condition = record { class = ""; slo_type = ""; time_range = "1d" }; value = of_1d }
    ∷ record { condition = record { class = ""; slo_type = ""; time_range = "3d" }; value = fl.one }
    ∷ []

-- The loop of (BurnRateTimeRange).IsValid
unfoldable pub found_in : {F : Type 0} → String → List (BurnRateThreshold F) → Bool
found_in range [] = false
found_in range (t ∷ thresholds) =
    let rest = found_in range thresholds in if t.condition.time_range == range then true else rest

module _ (fl : Float64) (of_1h of_6h of_1d : fl.F) where
  open fl use {F}

  -- (BurnRateTimeRange).IsValid
  unfoldable pub time_range_is_valid : String → Option ThresholdError
  time_range_is_valid range =
      let found = found_in range (default_timerange_thresholds fl of_1h of_6h of_1d) in
      if not found then some (invalid_time_range range) else none

  -- (Condition).IsValid
  unfoldable pub condition_is_valid : Condition → Option ThresholdError
  condition_is_valid c = time_range_is_valid c.time_range

  -- (BurnRateThreshold).IsValid
  unfoldable pub threshold_is_valid : BurnRateThreshold F → List ThresholdError
  threshold_is_valid t =
      let of_condition = append_error (condition_is_valid t.condition) [] in
      if fl.le t.value fl.zero then not_above_zero ∷ of_condition else of_condition

  -- (Alerting).IsValid
  unfoldable pub alerting_is_valid : List (BurnRateThreshold F) → List ThresholdError
  alerting_is_valid [] = []
  alerting_is_valid (t ∷ thresholds) = threshold_is_valid t ++ alerting_is_valid thresholds

  -- (SloType).IsValid
  unfoldable pub slo_type_is_valid : String → SloType F → Option (SloTypeError F)
  slo_type_is_valid name t =
      if fl.lt t.value fl.zero || fl.lt fl.one t.value
      then some (not_a_ratio name t.value)
      else none

  -- (Class).IsValid
  unfoldable pub class_is_valid : Class F → List (SloTypeError F)
  class_is_valid [] = []
  class_is_valid ((name, t) ∷ class) =
      append_error (slo_type_is_valid name t) (class_is_valid class)

  -- The loop over the classes in (Domain).IsValid
  unfoldable pub classes_are_valid : Dict (Class F) → List (DomainError F)
  classes_are_valid [] = []
  classes_are_valid ((name, class) ∷ classes) =
      append_error (unless_empty (class_failed name) (class_is_valid class))
        (classes_are_valid classes)

  -- (Domain).IsValid
  unfoldable pub domain_is_valid : Domain F → List (DomainError F)
  domain_is_valid d =
      let thresholds = elements d.alerting.burn_rate_thresholds in
      append_error (unless_empty alerting_failed (alerting_is_valid thresholds))
        (classes_are_valid d.classes)
      ++ map reference_failed (validate_references d.classes thresholds)
