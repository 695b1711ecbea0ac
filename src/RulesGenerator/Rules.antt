-- ===== src/RulesGenerator/Rules.antt =====
-- The rules of a domain in tools/slo-rules-generator: class.go, domain.go and the labels of
-- slo-rules-generator.go. The printing of numbers by fmt.Sprint is given with the
-- numbers, and the thresholds by default are a parameter.
use slo_exporter.Prelude.{
  String, ℤ, not, ◌==◌, Option, none, some, List, [], ◌∷◌, ◌++◌, concat, if◌then◌else◌,
}
use slo_exporter.Prelude.Dict.{Dict, lookup}
use slo_exporter.StringMap.{StringMap, insert_all, sort_strings}
use slo_exporter.Runtime.{Float64}
use slo_exporter.RulesGenerator.Conditions.{
  BurnRateThreshold, SloType, Class, Domain, get_matching_subset, class_named,
}

-- rulefmt.RuleNode
pub record RuleNode : Type 0 where
  pub rule_record : String
  pub expr : String
  pub labels : StringMap

-- rulefmt.RuleGroup, apart from its interval
pub record RuleGroup : Type 0 where
  pub name : String
  pub rules : List RuleNode

-- (Labels).Merge
unfoldable pub merge_labels : StringMap → StringMap → StringMap
merge_labels l with = insert_all (insert_all [] l) with

-- Names of classes and of the types of a class, sorted
unfoldable pub names_of : {V : Type 0} → Dict V → List String
names_of [] = []
names_of ((name, v) ∷ m) = name ∷ names_of m

unfoldable pub sorted_names : {V : Type 0} → Dict V → List String
sorted_names m = sort_strings (names_of m)

module _ (fl : Float64) (default_thresholds : List (BurnRateThreshold fl.F)) where
  open fl use {F}

  unfoldable pub violation_ratio_threshold_rule : SloType F → StringMap → RuleNode
  violation_ratio_threshold_rule t common_labels = record {
    rule_record = "slo:violation_ratio_threshold";
    expr = fl.format t.value;
    labels = merge_labels common_labels t.metadata;
  }

  unfoldable pub burn_rate_threshold_rules : StringMap → List (BurnRateThreshold F) → List RuleNode
  burn_rate_threshold_rules common_labels [] = []
  burn_rate_threshold_rules common_labels (t ∷ thresholds) =
      record {
        rule_record = "slo:burn_rate_threshold";
        expr = fl.format t.value;
        labels = merge_labels common_labels (("slo_time_range", t.condition.time_range) ∷ []);
      }
      ∷ burn_rate_threshold_rules common_labels thresholds

  -- (SloType).AsRules
  unfoldable pub slo_type_as_rules :
      SloType F → String → StringMap → List (BurnRateThreshold F) → List RuleNode
  slo_type_as_rules t slo_type_name common_labels thresholds =
      let labels = merge_labels common_labels (("slo_type", slo_type_name) ∷ []) in
      burn_rate_threshold_rules labels thresholds ++ violation_ratio_threshold_rule t labels ∷ []

  abbrev pub thresholds_or_default :
      Option (List (BurnRateThreshold F)) → List (BurnRateThreshold F)
  thresholds_or_default none = default_thresholds
  thresholds_or_default (some thresholds) = thresholds

  -- c[sloTypeName], the zero value where the type is missing
  abbrev pub slo_type_named : Class F → String → SloType F
  slo_type_named class name = elim (lookup name class) [
    | none ↦ record { value = fl.zero; metadata = [] }
    | some t ↦ t
  ]

  -- The loop of (Class).AsRules over the names.
  unfoldable pub types_as_rules :
      Class F → String → StringMap → List (BurnRateThreshold F) → List String → List RuleNode
  types_as_rules class class_name labels thresholds [] = []
  types_as_rules class class_name labels thresholds (name ∷ names) =
      let rest = types_as_rules class class_name labels thresholds names in
      slo_type_as_rules (slo_type_named class name) name labels
        (get_matching_subset thresholds class_name name)
      ++ rest

  -- (Class).AsRules
  unfoldable pub class_as_rules :
      Class F → String → StringMap → Option (List (BurnRateThreshold F)) → List RuleNode
  class_as_rules class class_name common_labels thresholds =
      types_as_rules class class_name (merge_labels common_labels (("slo_class", class_name) ∷ []))
        (thresholds_or_default thresholds) (sorted_names class)

module _ (fl : Float64) (default_thresholds : List (BurnRateThreshold fl.F))
    (print_int : ℤ → String) where
  open fl use {F}

  unfoldable pub common_labels : Domain F → String → StringMap
  common_labels d domain_name =
      ("slo_domain", domain_name)
      ∷ ("slo_version", print_int d.version)
      ∷ ("namespace", d.namespace)
      ∷ []

  unfoldable pub stable_version_rule : Domain F → String → RuleNode
  stable_version_rule d domain_name =
      let labels : StringMap =
        ("team", d.alerting.team) ∷ ("enabled", if d.enabled then "true" else "false") ∷ [] in
      record {
        rule_record = "slo:stable_version";
        expr = "1";
        labels = merge_labels (common_labels d domain_name) (
            if not (d.alerting.escalate == "")
            then labels ++ ("escalate", d.alerting.escalate) ∷ []
            else labels);
      }

  abbrev pub group_name : Domain F → String → String
  group_name d domain_name =
      concat "slo_v" (concat (print_int d.version) (concat "_slo_exporter_" domain_name))

  -- The loop of AsRuleGroups over the names of the classes.
  unfoldable pub class_groups : Domain F → String → List String → List RuleGroup
  class_groups d domain_name [] = []
  class_groups d domain_name (name ∷ names) =
      record {
        name = concat (group_name d domain_name) (concat "_" name);
        rules =
            class_as_rules fl default_thresholds (class_named d.classes name) name
              (common_labels d domain_name) d.alerting.burn_rate_thresholds;
      }
      ∷ class_groups d domain_name names

  unfoldable pub as_rule_groups : Domain F → String → List RuleGroup
  as_rule_groups d domain_name =
      record { name = group_name d domain_name; rules = stable_version_rule d domain_name ∷ [] }
      ∷ class_groups d domain_name (sorted_names d.classes)
