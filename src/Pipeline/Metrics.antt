-- ===== src/Pipeline/Metrics.antt =====
-- The registration of metrics in pkg/pipeline/manager.go: RegisterPrometheusMetrics with the
-- RegisterMetrics of the modules. The registry of Prometheus is a parameter.
pub mod Laws
use slo_exporter.Prelude.{
  ℕ, String, ◌≡◌, ◌↔◌, Bool, true, false, ◌||◌, ◌==◌, Option, none, some, List, [], ◌∷◌, ◌++◌,
  concat, map,
}
use slo_exporter.Pipeline.{PipelineItem}

-- prometheus.Registerer, for collectors with one descriptor: its state, the names that it has, and
-- Register, which is an error exactly when the name is there already. A collector without a descriptor
-- is always taken, and is left out.
pub record Registry : Type 1 where
  pub R : Type 0
  pub has : R → String → Bool
  pub register : R → String → Option R
  pub register_none : (r : R) (name : String) → (register r name ≡ none) ↔ (has r name ≡ true)
  pub register_some :
      (r r' : R) (name other : String)
      → register r name ≡ some r'
      → has r' other ≡ (name == other || has r other)

-- What RegisterMetrics of a module does: the collectors that it registers, by their names, and whether
-- it gets past them without another error. The SLO event producer makes its last collector of the
-- rules, and stops before it where a rule has no metric.
pub record ModuleMetrics : Type 0 where
  pub names : List String
  pub complete : Bool

module _ (reg : Registry) where
  open reg use {R, register}

  -- RegisterMetrics of a module: the loop over its collectors, by their full names.
  unfoldable pub register_metrics : R → List String → Option R
  register_metrics r [] = some r
  register_metrics r (name ∷ names) = elim (register r name) [
    | none ↦ none
    | some r' ↦ register_metrics r' names
  ]

  module _ (to_snake : String → String) (metrics_of : PipelineItem → Option ModuleMetrics) where
    -- What WrapRegistererWithPrefix makes of the names, within the prefix of the program.
    unfoldable pub wrapped : String → String → List String → List String
    wrapped prefix name names =
        map (λ (n : String). concat prefix (concat (to_snake name) (concat "_" n))) names

    -- The loop of RegisterPrometheusMetrics: `none` of `metrics_of` is a module without metrics.
    unfoldable pub register_modules : String → R → List PipelineItem → Option R
    register_modules prefix r [] = some r
    register_modules prefix r (item ∷ items) = elim (metrics_of item) [
      | none ↦ register_modules prefix r items
      | some metrics ↦ elim (register_metrics r (wrapped prefix item.name metrics.names)) [
        | none ↦ none
        | some r' ↦ elim (metrics.complete) [
          | false ↦ none
          | true ↦ register_modules prefix r' items
        ]
      ]
    ]

    unfoldable pub register_prometheus_metrics : String → R → List PipelineItem → Option R
    register_prometheus_metrics prefix r items =
        elim (register r "event_processing_duration_seconds") [
          | none ↦ none
          | some r' ↦ register_modules prefix r' items
        ]
