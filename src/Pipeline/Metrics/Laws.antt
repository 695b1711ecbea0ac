-- ===== src/Pipeline/Metrics/Laws.antt =====
-- Registration succeeds exactly when no name is there twice.
use slo_exporter.Prelude.{
  String, ◌≡◌, ◌↔◌, refl, Bool, true, false, ◌&&◌, eq_iff, Option, none, some, List, [], ◌∷◌, ◌++◌,
  contains, is_some, arith, if◌then◌else◌, Option-cases, Bool-cases, inl, inr,
}
use slo_exporter.Pipeline.{PipelineItem}
use slo_exporter.Pipeline.Metrics.{
  Registry, ModuleMetrics, register_metrics, wrapped, register_modules, register_prometheus_metrics,
}

module _ (reg : Registry) where
  open reg use {R, has, register, register_none, register_some}

  -- None of the names is in the registry, and none of them is there twice.
  abbrev pub IsFresh : R → List String → Type 0
  IsFresh r [] = Unit
  IsFresh r (n ∷ ns) = (has r n ≡ false) × (contains n ns ≡ false) × IsFresh r ns

  -- With a name more in the registry.
  IsFresh-after :
      (r r' : R) (n : String) (ns : List String)
      → register r n ≡ some r'
      → (contains n ns ≡ false × IsFresh r ns) ↔ IsFresh r' ns
  IsFresh-after r r' n [] e = ((λ h. tt), (λ h. (refl, tt)))
  IsFresh-after r r' n (m ∷ ms) e =
      let step = register_some r r' n m e in
      let rest = IsFresh-after r r' n ms e in
      (
        (λ h. ground (arith, step, eq_iff m n, eq_iff n m, rest.0)),
        (λ h. ground (arith, step, eq_iff m n, eq_iff n m, rest.1)),
      )

  register_metrics_iff :
      (names : List String) (r : R)
      → (is_some (register_metrics reg r names) ≡ true) ↔ IsFresh r names
  unfolding register_metrics
  register_metrics_iff [] r = ((λ h. tt), (λ h. refl))
  register_metrics_iff (n ∷ ns) r = elim (Option-cases (register r n)) [
    | inl there ↦
        let taken = (register_none r n).0 there in
        ((λ h. absurd (ground arith)), (λ h. absurd (ground arith)))
    | inr (r', e) ↦
        let rest = register_metrics_iff ns r' in
        let names = IsFresh-after r r' n ns e in
        let absent : has r n ≡ false = elim (Bool-cases (has r n)) [
          | inl there ↦ absurd (let gone = (register_none r n).1 there in cc)
          | inr absent ↦ absent
        ] in
        (
          (λ h. let after = names.1 (rest.0 (ground arith)) in (absent, after.0, after.1)),
          (λ h. rw (e, register_metrics) (rest.1 (names.0 (h.1, h.2)))),
        )
  ]

  register_metrics-append :
      (xs ys : List String) (r : R)
      → register_metrics reg r (xs ++ ys)
        ≡ (elim (register_metrics reg r xs) [ none ↦ none | some r' ↦ register_metrics reg r' ys ])
  unfolding register_metrics
  register_metrics-append [] ys r = refl
  register_metrics-append (x ∷ xs) ys r = elim (Option-cases (register r x)) [
    | inl there ↦ rw (there, register_metrics) refl
    | inr (r', e) ↦ rw (e, register_metrics) (register_metrics-append xs ys r')
  ]

  module _ (to_snake : String → String) (metrics_of : PipelineItem → Option ModuleMetrics) where
    -- The full names of all metrics of a pipeline, in the order of its modules.
    abbrev pub names_of : String → List PipelineItem → List String
    names_of prefix [] = []
    names_of prefix (item ∷ items) = elim (metrics_of item) [
      | none ↦ names_of prefix items
      | some metrics ↦
          wrapped reg to_snake metrics_of prefix item.name metrics.names ++ names_of prefix items
    ]

    -- No module has another error.
    abbrev pub is_complete : List PipelineItem → Bool
    is_complete [] = true
    is_complete (item ∷ items) = elim (metrics_of item) [
      | none ↦ is_complete items
      | some metrics ↦ metrics.complete && is_complete items
    ]

    register_modules_lem :
        (prefix : String) (items : List PipelineItem) (r : R)
        → register_modules reg to_snake metrics_of prefix r items
          ≡ (if is_complete items then register_metrics reg r (names_of prefix items) else none)
    unfolding register_modules register_metrics
    register_modules_lem prefix [] r = refl
    register_modules_lem prefix (item ∷ items) r = elim (Option-cases (metrics_of item)) [
      | inl without ↦
          rw (without, register_modules, names_of, is_complete)
            (register_modules_lem prefix items r)
      | inr (metrics, e) ↦
          let full = wrapped reg to_snake metrics_of prefix item.name metrics.names in
          let split = register_metrics-append full (names_of prefix items) r in
          elim (Option-cases (register_metrics reg r full)) [
            | inl refused ↦ ground (arith, split)
            | inr (r', taken) ↦ ground (arith, split, register_modules_lem prefix items r')
          ]
    ]

    register_prometheus_metrics_lem :
        (prefix : String) (items : List PipelineItem) (r : R)
        → register_prometheus_metrics reg to_snake metrics_of prefix r items ≡ (
            if is_complete items
            then register_metrics reg r
                ("event_processing_duration_seconds" ∷ names_of prefix items)
            else none)
    unfolding register_prometheus_metrics register_metrics
    register_prometheus_metrics_lem prefix items r =
        elim (Option-cases (register r "event_processing_duration_seconds")) [
          | inl there ↦ ground arith
          | inr (r', e) ↦ ground (arith, register_modules_lem prefix items r')
        ]

    -- The metrics of a pipeline are registered without an error exactly when no module has an error of
    -- its own, and the names of the processing durations and of the metrics of all modules, each with
    -- its prefixes, are not in the registry and none of them is there twice.
    pub register_prometheus_metrics_iff :
        (prefix : String) (items : List PipelineItem) (r : R)
        → (is_some (register_prometheus_metrics reg to_snake metrics_of prefix r items) ≡ true) ↔ (
            (is_complete items ≡ true)
            × IsFresh r ("event_processing_duration_seconds" ∷ names_of prefix items))
    register_prometheus_metrics_iff prefix items r =
        let names = "event_processing_duration_seconds" ∷ names_of prefix items in
        let whole = register_metrics_iff names r in
        let same = register_prometheus_metrics_lem prefix items r in
        elim (Bool-cases (is_complete items)) [
          | inl complete ↦
              let same' : register_prometheus_metrics reg to_snake metrics_of prefix r items
                  ≡ register_metrics reg r names =
                ground (arith, same) in
              rw same' ((λ h. (complete, whole.0 h)), (λ h. whole.1 h.1))
          | inr broken ↦
              let same' : register_prometheus_metrics reg to_snake metrics_of prefix r items
                  ≡ none =
                ground (arith, same) in
              rw same' ((λ h. cc), (λ h. let all = h.0 in cc))
        ]
