-- ===== src/PrometheusExporter/Aggregation.antt =====
-- The cascade of counter vectors of pkg/prometheus_exporter/aggregating_counter.go: a vector for each
-- prefix of the aggregation labels, which drops the labels behind it.
pub mod Laws
pub mod Collect
use slo_exporter.Prelude.{ℕ, zero, suc, ◌+◌, String, List, [], ◌∷◌, concat, length, take, drop}
use slo_exporter.StringMap.{StringMap, without, join}
use slo_exporter.Runtime.{Float64}
use slo_exporter.PrometheusExporter.Counter.{
  CounterVector, Addition, new_counter_vector, add_with_exemplar,
}

unfoldable pub aggregated_metric_name : String → List String → String
aggregated_metric_name metric_name aggregated_labels =
    concat (join "_" aggregated_labels) (concat ":" metric_name)

pub record AggregatedCounterVector (F T : Type 0) : Type 0 where
  pub vector : CounterVector F T
  pub labels_to_drop : List String

-- The loop of newAggregatedCounterVectorSet: `i` goes up, and `n` rounds are left.
unfoldable pub new_vectors :
    {F T : Type 0} → String → String → List String → ℕ → ℕ → List (AggregatedCounterVector F T)
new_vectors metric_name metric_help labels i zero = []
new_vectors metric_name metric_help labels i (suc n) =
    record {
      vector = new_counter_vector (aggregated_metric_name metric_name (take i labels)) metric_help;
      labels_to_drop = drop i labels;
    }
    ∷ new_vectors metric_name metric_help labels (i + 1) n

unfoldable pub new_aggregated_counter_vector_set :
    {F T : Type 0} → String → String → List String → List (AggregatedCounterVector F T)
unfolding new_vectors
new_aggregated_counter_vector_set metric_name metric_help labels =
    new_vectors metric_name metric_help labels 1 (length labels)

module _ (fl : Float64) (max_runes : ℕ) {T : Type 0} where
  open fl use {F}

  -- (*aggregatedCounterVector).addWithExemplar
  unfoldable pub aggregated_add :
      AggregatedCounterVector F T → Addition F T → AggregatedCounterVector F T
  aggregated_add v a = record v {
    vector =
        add_with_exemplar fl max_runes v.vector
          (record a { labels = without a.labels v.labels_to_drop });
  }

  -- (*aggregatedCounterVectorSet).addWithExemplar
  unfoldable pub set_add :
      List (AggregatedCounterVector F T) → Addition F T → List (AggregatedCounterVector F T)
  unfolding aggregated_add
  set_add [] a = []
  set_add (v ∷ vs) a = aggregated_add v a ∷ set_add vs a

  -- A run of addWithExemplar calls on the set.
  unfoldable pub set_add_all :
      List (AggregatedCounterVector F T) → List (Addition F T) → List (AggregatedCounterVector F T)
  set_add_all vs [] = vs
  set_add_all vs (a ∷ more) = set_add_all (set_add vs a) more
