-- ===== src/SloEventProducer/Metrics/Laws.antt =====
-- The label sets of the threshold metrics of pkg/slo_event_producer/event_evaluator.go fit the gauge
-- vector that is declared for them.
use mathlib.Core.List.{Memᴰ}
use slo_exporter.Prelude.{
  String, ◌≡◌, true, some, List, [], ◌∷◌, ◌++◌, arith, All, is_some, contains, inl, inr,
  Option-cases,
}
use slo_exporter.Prelude.Dict.{lookup, insert, IsMap, insert-IsMap}
use slo_exporter.StringMap.{StringMap, merge, keys, add_keys}
use slo_exporter.StringMap.Laws.{lookup-merge, merge-IsMap, lookup-add_keys}
use slo_exporter.StringMap.Sorted.{contains-keys}
use slo_exporter.Runtime.{Float64, TextLibrary}
use slo_exporter.SloEventProducer.Operator.{Operator, Metric, as_metric, operator_labels}
use slo_exporter.SloEventProducer.Rule.{EvaluationRule}
use slo_exporter.SloEventProducer.Metrics.{
  merge_matcher_labels, condition_metric, Collected, collect, collect_conditions, collect_rules,
  rule_options_to_metrics, registered_labels,
}

add_keys-IsMap : (m : StringMap) (ks : List String) → IsMap m → IsMap (add_keys m ks)
unfolding add_keys
add_keys-IsMap m [] h = h
add_keys-IsMap m (k ∷ ks) h = add_keys-IsMap (insert k "" m) ks (insert-IsMap k "" m h)

module _ (fl : Float64) (lib : TextLibrary) where
  open fl use {F}
  open lib use {Regexp}

  -- Every label of the metric is among the possible ones.
  pub record Fits (possible : StringMap) (m : Metric F) : Type 0 where
    pub is_map : IsMap m.labels
    pub within :
        (j : String) → is_some (lookup j m.labels) ≡ true → is_some (lookup j possible) ≡ true

  merge_matcher_labels-IsMap :
      (labels : StringMap) (ops : List (Operator F Regexp))
      → IsMap labels
      → IsMap (merge_matcher_labels fl lib labels ops)
  unfolding merge_matcher_labels
  merge_matcher_labels-IsMap labels [] h = h
  merge_matcher_labels-IsMap labels (op ∷ ops) h = elim (Option-cases (operator_labels fl lib op)) [
    | inl e ↦ rw (e, merge_matcher_labels) (merge_matcher_labels-IsMap labels ops h)
    | inr (l, e) ↦
        rw (e, merge_matcher_labels)
          (merge_matcher_labels-IsMap (merge labels l) ops (merge-IsMap labels l))
  ]

  condition_metric-IsMap :
      (rule : EvaluationRule F Regexp) (c : Operator F Regexp) (m : Metric F)
      → condition_metric fl lib rule c ≡ some m
      → IsMap m.labels
  unfolding condition_metric
  condition_metric-IsMap rule c m h = elim (Option-cases (as_metric fl lib c)) [
    | inl e ↦ absurd (ground arith)
    | inr (n, e) ↦
        let start = merge (merge n.labels n.labels) rule.additional_metadata in
        let same : merge_matcher_labels fl lib start rule.metadata_matcher ≡ m.labels =
          ground arith in
        rw (← same) (merge_matcher_labels-IsMap start rule.metadata_matcher (merge-IsMap _ _))
  ]

  Fits-add_keys :
      (possible : StringMap) (ks : List String) (m : Metric F)
      → Fits possible m
      → Fits (add_keys possible ks) m
  Fits-add_keys possible ks m f = record {
    is_map = f.is_map;
    within = λ j h. ground (arith, lookup-add_keys j possible ks, f.within j h);
  }

  Fits-own :
      (possible : StringMap) (m : Metric F)
      → IsMap m.labels
      → Fits (add_keys possible (keys m.labels)) m
  Fits-own possible m d = record {
    is_map = d;
    within =
        λ j h. ground (arith, lookup-add_keys j possible (keys m.labels), contains-keys j m.labels);
  }

  All-add_keys :
      (possible : StringMap) (ks : List String) (ms : List (Metric F))
      → All (Fits possible) ms
      → All (Fits (add_keys possible ks)) ms
  All-add_keys possible ks [] h = tt
  All-add_keys possible ks (m ∷ ms) h =
      (Fits-add_keys possible ks m h.0, All-add_keys possible ks ms h.1)

  All-concat :
      (possible : StringMap) (ms : List (Metric F)) (m : Metric F)
      → All (Fits possible) ms
      → Fits possible m
      → All (Fits possible) (ms ++ m ∷ [])
  All-concat possible [] m h f = (f, tt)
  All-concat possible (n ∷ ms) m h f = (h.0, All-concat possible ms m h.1 f)

  collect_conditions-All :
      (rule : EvaluationRule F Regexp) (acc : Collected fl lib) (cs : List (Operator F Regexp))
      → All (Fits acc.1) acc.0
      → All
          (Fits (collect_conditions fl lib rule acc cs).1)
          (collect_conditions fl lib rule acc cs).0
  unfolding collect_conditions collect
  collect_conditions-All rule acc [] h = h
  collect_conditions-All rule acc (c ∷ cs) h =
      elim (Option-cases (condition_metric fl lib rule c)) [
        | inl e ↦ rw (e, collect_conditions, collect) (collect_conditions-All rule acc cs h)
        | inr (m, e) ↦
            rw (e, collect_conditions, collect)
              (collect_conditions-All rule (acc.0 ++ m ∷ [], add_keys acc.1 (keys m.labels)) cs
                (All-concat _ acc.0 m (All-add_keys acc.1 _ acc.0 h)
                  (Fits-own acc.1 m (condition_metric-IsMap rule c m e))))
      ]

  collect_rules-All :
      (acc : Collected fl lib) (rules : List (EvaluationRule F Regexp))
      → All (Fits acc.1) acc.0
      → All (Fits (collect_rules fl lib acc rules).1) (collect_rules fl lib acc rules).0
  unfolding collect_rules
  collect_rules-All acc [] h = h
  collect_rules-All acc (rule ∷ rules) h =
      collect_rules-All (collect_conditions fl lib rule acc rule.failure_conditions) rules
        (collect_conditions-All rule acc rule.failure_conditions h)

  member_Fits :
      (possible : StringMap) (ms : List (Metric F)) (m : Metric F)
      → All (Fits possible) ms
      → Memᴰ m ms
      → Fits possible m
  member_Fits possible [] m h i = elim i [ ]
  member_Fits possible (n ∷ ms) m h (Memᴰ.head same) = rw same h.0
  member_Fits possible (n ∷ ms) m h (Memᴰ.tail i) = member_Fits possible ms m h.1 i

  -- The label set with which each threshold metric is registered has exactly the label names that
  -- the gauge vector is declared with, so that the registry refuses none of them.
  pub registered_labels-keys :
      (rules : List (EvaluationRule F Regexp)) (m : Metric F) (j : String)
      → Memᴰ m (rule_options_to_metrics fl lib rules).0
      → contains j (keys (registered_labels fl lib (rule_options_to_metrics fl lib rules).1 m))
        ≡ contains j (rule_options_to_metrics fl lib rules).1
  unfolding rule_options_to_metrics registered_labels lookup
  registered_labels-keys rules m j i =
      let possible = (collect_rules fl lib ([], []) rules).1 in
      let fits : Fits possible m =
        member_Fits possible (collect_rules fl lib ([], []) rules).0 m
          (collect_rules-All ([], []) rules tt) i in
      let names = keys possible in
      unfold registered_labels in
      ground (
        arith,
        contains-keys j (registered_labels fl lib names m),
        contains-keys j possible,
        lookup-merge j (add_keys [] names) m.labels (add_keys-IsMap [] names tt) fits.is_map,
        lookup-add_keys j [] names,
        fits.within j,
      )
