-- ===== src/SloEventProducer/Metrics.antt =====
-- The thresholds of the rules as metrics: ruleOptionsToMetrics and registerMetrics of
-- pkg/slo_event_producer/event_evaluator.go. The Prometheus registry is outside the repository; what
-- the code hands to it is modelled.
pub mod Laws
use slo_exporter.Prelude.{String, Option, none, some, List, [], ◌∷◌, ◌++◌}
use slo_exporter.StringMap.{StringMap, merge, keys, add_keys}
use slo_exporter.Runtime.{Float64, TextLibrary}
use slo_exporter.SloEventProducer.Operator.{Operator, Metric, as_metric, operator_labels}
use slo_exporter.SloEventProducer.Rule.{EvaluationRule}

module _ (fl : Float64) (lib : TextLibrary) where
  open fl use {F}
  open lib use {Regexp}

  -- The loop over the metadata matchers.
  unfoldable pub merge_matcher_labels : StringMap → List (Operator F Regexp) → StringMap
  merge_matcher_labels labels [] = labels
  merge_matcher_labels labels (op ∷ ops) =
      merge_matcher_labels
        (elim (operator_labels fl lib op) [ none ↦ labels | some l ↦ merge labels l ]) ops

  -- The body of the loop over the failure conditions; `none` is its `continue`.
  unfoldable pub condition_metric : EvaluationRule F Regexp → Operator F Regexp → Option (Metric F)
  condition_metric rule condition = elim (as_metric fl lib condition) [
    | none ↦ none
    | some m ↦ some (record m {
      labels =
          merge_matcher_labels (merge (merge m.labels m.labels) rule.additional_metadata)
            rule.metadata_matcher;
    })
  ]

  abbrev pub Collected : Type 0
  Collected = List (Metric F) × StringMap

  unfoldable pub collect : Collected → Option (Metric F) → Collected
  collect acc none = acc
  collect acc (some m) = (acc.0 ++ m ∷ [], add_keys acc.1 (keys m.labels))

  unfoldable pub collect_conditions :
      EvaluationRule F Regexp → Collected → List (Operator F Regexp) → Collected
  collect_conditions rule acc [] = acc
  collect_conditions rule acc (c ∷ cs) =
      collect_conditions rule (collect acc (condition_metric rule c)) cs

  unfoldable pub collect_rules : Collected → List (EvaluationRule F Regexp) → Collected
  collect_rules acc [] = acc
  collect_rules acc (rule ∷ rules) =
      collect_rules (collect_conditions rule acc rule.failure_conditions) rules

  -- ruleOptionsToMetrics: the metrics, and the possible labels
  unfoldable pub rule_options_to_metrics :
      List (EvaluationRule F Regexp) → List (Metric F) × List String
  rule_options_to_metrics rules =
      let (metrics, possible_labels) = collect_rules ([], []) rules in
      (metrics, keys possible_labels)

  -- The label set that registerMetrics asks the gauge vector for.
  unfoldable pub registered_labels : List String → Metric F → StringMap
  registered_labels possible_labels m = merge (add_keys [] possible_labels) m.labels
