-- ===== src/Tests/Ingester.antt =====
-- The query executor of pkg/prometheus_ingester at a concrete result.
use slo_exporter.Prelude.{ℕ, String, ◌≡◌, refl, none, some, List, [], ◌∷◌, or_else}
use slo_exporter.Prelude.Dict.{Dict, lookup, IsMap}
use slo_exporter.PrometheusIngester.{QueryResult, SampleStream, process_matrix_result_as_increase}
use slo_exporter.PrometheusIngester.Laws.{fresh_only, latest, process_matrix-remembers}
use slo_exporter.Tests.Samples.{numbers}

-- The app label stands for the fingerprint.
abbrev app_of : Dict String → String
app_of m = elim (lookup "app" m) [ none ↦ "" | some v ↦ v ]

abbrev before : QueryResult ℕ
before = record {
  timestamp = 10;
  metrics =
      ("shop", record { timestamp = 10; value = 4 })
      ∷ ("old", record { timestamp = 1; value = 1 })
      ∷ [];
}

abbrev matrix : List (SampleStream ℕ)
matrix =
    record {
      metric = ("app", "shop") ∷ [];
      first_value = record { timestamp = 15; value = 6 };
      more_values = record { timestamp = 20; value = 2 } ∷ [];
    }
    ∷ []

before-IsMap : IsMap before.metrics
unfolding lookup
before-IsMap = (refl, (refl, tt))

process_matrix-remembers_example :
    lookup "old" (process_matrix_result_as_increase numbers app_of 12 before matrix 20).1.metrics
    ≡ or_else
        (latest numbers app_of "old" none matrix)
        (fresh_only 12 20 (lookup "old" before.metrics))
process_matrix-remembers_example =
    process_matrix-remembers numbers app_of 12 before matrix 20 "old" before-IsMap
