-- ===== src/Tests/Exporter.antt =====
-- The exporter of pkg/prometheus_exporter and what feeds it, at concrete events.
use slo_exporter.Prelude.{map, none, All, ℕ, ◌≡◌, ◌↔◌, refl, true, false, [], ◌∷◌, is_some, arith}
use slo_exporter.Prelude.Dict.{lookup}
use slo_exporter.PrometheusExporter.Exporter.{run, Exporter, new, is_cardinality_exceeded}
use slo_exporter.PrometheusExporter.Exporter.Cardinality.{
  IsWithinLimit, is_cardinality_exceeded-IsWithinLimit,
}
use slo_exporter.PrometheusExporter.Aggregation.Collect.{shape, Exports}
use slo_exporter.PrometheusExporter.Exporter.Processing.{history}
use slo_exporter.PrometheusExporter.Exporter.Scrape.{levels_of, run-scrape}
use slo_exporter.Tests.Samples.{numbers, failed_event, config, config}

abbrev start : Exporter ℕ ℕ
start = new config

start-IsWithinLimit : IsWithinLimit start
unfolding new
start-IsWithinLimit = record { limited = refl; is_map = tt; within = omega arith; gauge = refl }

is_cardinality_exceeded-IsWithinLimit_example :
    IsWithinLimit (is_cardinality_exceeded start "buy").1
    × (((is_cardinality_exceeded start "buy").0 ≡ false)
        ↔ (is_some (lookup "buy" (is_cardinality_exceeded start "buy").1.event_key_cache) ≡ true))
is_cardinality_exceeded-IsWithinLimit_example =
    is_cardinality_exceeded-IsWithinLimit start "buy" start-IsWithinLimit

run-scrape_example :
    let levels = (run numbers 128 start ((failed_event, none) ∷ [])).aggregated_metrics_set in
    (map (shape numbers 128 ℕ) levels ≡ levels_of config)
    × All (Exports numbers 128 ℕ (history numbers 128 start ((failed_event, none) ∷ []))) levels
run-scrape_example = run-scrape numbers 128 config ((failed_event, none) ∷ [])
