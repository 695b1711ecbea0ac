-- ===== src/RulesGenerator/Conditions.antt =====
-- The configuration of a domain in tools/slo-rules-generator, and the conditions of its thresholds:
-- alerting.go, the types of class.go, and the validation of references in domain.go. Numbers are
-- float32.
pub mod References
use slo_exporter.Prelude.{
  String, ℤ, Bool, true, false, not, ◌&&◌, ◌||◌, ◌==◌, Option, none, some, List, [], ◌∷◌, ◌++◌,
  is_some, if◌then◌else◌,
}
use slo_exporter.Prelude.Dict.{Dict, lookup}
use slo_exporter.StringMap.{StringMap}

pub record Condition : Type 0 where
  pub class : String
  pub slo_type : String
  pub time_range : String

pub record BurnRateThreshold (F : Type 0) : Type 0 where
  pub condition : Condition
  pub value : F

pub record SloType (F : Type 0) : Type 0 where
  pub value : F
  pub metadata : StringMap

-- By the name of the type.
abbrev pub Class : Type 0 → Type 0
Class F = Dict (SloType F)

-- `burn_rate_thresholds` is `none` where the configuration has none.
pub record Alerting (F : Type 0) : Type 0 where
  pub team : String
  pub escalate : String
  pub burn_rate_thresholds : Option (List (BurnRateThreshold F))

pub record Domain (F : Type 0) : Type 0 where
  pub namespace : String
  pub enabled : Bool
  pub version : ℤ
  pub alerting : Alerting F
  pub classes : Dict (Class F)

pub data ReferenceError : Type 0 where
  undefined_class : String → ReferenceError
  undefined_type_of_class : String → String → ReferenceError
  undefined_type : String → ReferenceError

-- (Condition).Matches
unfoldable pub condition_matches : Condition → String → String → Bool
condition_matches c class slo_type =
    ((c.class == "") || (c.class == class)) && ((c.slo_type == "") || (c.slo_type == slo_type))

module _ {F : Type 0} where
  unfoldable pub get_matching_subset :
      List (BurnRateThreshold F) → String → String → List (BurnRateThreshold F)
  get_matching_subset [] class_name slo_type = []
  get_matching_subset (t ∷ thresholds) class_name slo_type =
      let rest = get_matching_subset thresholds class_name slo_type in
      if condition_matches t.condition class_name slo_type then t ∷ rest else rest

  -- Whether some class has a type, the inner loop of validateReferences.
  unfoldable pub type_found : String → Dict (Class F) → Bool
  type_found slo_type [] = false
  type_found slo_type ((name, class) ∷ classes) =
      let rest = type_found slo_type classes in
      if is_some (lookup slo_type class) then true else rest

  -- d.Classes[class], the nil map where the class is missing
  abbrev pub class_named : Dict (Class F) → String → Class F
  class_named classes name = elim (lookup name classes) [ none ↦ [] | some class ↦ class ]

  -- The errors of the class that a condition refers to, in validateReferences.
  unfoldable pub class_errors : Dict (Class F) → String → List ReferenceError
  class_errors classes class =
      if not (class == "")
      then if not (is_some (lookup class classes)) then undefined_class class ∷ [] else []
      else []

  -- The errors of the type.
  unfoldable pub type_errors : Dict (Class F) → String → String → List ReferenceError
  type_errors classes class slo_type =
      if not (slo_type == "")
      then if not (class == "")
        then if not (is_some (lookup slo_type (class_named classes class)))
          then undefined_type_of_class slo_type class ∷ []
          else []
        else if not (type_found slo_type classes)
        then undefined_type slo_type ∷ []
        else []
      else []

  unfoldable pub validate_references :
      Dict (Class F) → List (BurnRateThreshold F) → List ReferenceError
  validate_references classes [] = []
  validate_references classes (t ∷ thresholds) =
      class_errors classes t.condition.class
      ++ (type_errors classes t.condition.class t.condition.slo_type
          ++ validate_references classes thresholds)
