-- ===== src/Tests/Queries.antt =====
-- The configuration, the histograms and the loop of pkg/prometheus_ingester at concrete inputs.
use mathlib.Core.List.{Perm}
use slo_exporter.Prelude.{
  ℕ, ℤ, pos, concat, ◌+◌, ◌-◌, ◌≤◌, ◌<◌, ◌≡◌, ◌↔◌, refl, String, true, false, none, some, List, [],
  ◌∷◌, map, inr, arith,
}
use slo_exporter.Prelude.Dict.{Dict, lookup}
use Prim.Native.Nat.{◌*◌}
use slo_exporter.PrometheusIngester.{
  QueryResult, SampleStream, MetricIncrease, QueryOptions, process_matrix_result_as_increase,
}
use slo_exporter.PrometheusIngester.Config.{
  ConfiguredQuery, QueryExecutor, executor_of, default_staleness,
}
use slo_exporter.PrometheusIngester.Histogram.{
  Buckets, missing_le, invalid_le, bucket_errors, sorted_bounds, report_buckets,
  process_histogram_increase,
}
use slo_exporter.PrometheusIngester.Histogram.Laws.{
  process_histogram-errors, IsAscending, AreCumulative, adjacent, bound_errors, event_between,
  somes, report_buckets-sorted,
}
use slo_exporter.PrometheusIngester.Executor.{matrix, Seen, ticked, executed_query}
use slo_exporter.PrometheusIngester.Executor.Ranges.{failing, seen_after, selected_range-run}
use slo_exporter.Tests.Samples.{numbers}

abbrev labels_text : Dict String → String
labels_text m = elim (lookup "app" m) [ none ↦ "" | some v ↦ v ]

abbrev print : ℕ → String
print n = "60"

abbrev print_int : ℤ → String
print_int n = "2"

abbrev counter_query : ConfiguredQuery
counter_query = record {
  query = "requests_total";
  interval = pos 60;
  drop_labels = [];
  additional_labels = [];
  query_type = "counter_increase";
  result_as_quantity = none;
}

abbrev counter_executor : QueryExecutor
counter_executor = executor_of 10 default_staleness counter_query

abbrev unbounded : List (SampleStream ℕ)
unbounded =
    record {
      metric = ("app", "shop") ∷ [];
      first_value = record { timestamp = 15; value = 6 };
      more_values = record { timestamp = 20; value = 9 } ∷ [];
    }
    ∷ record {
      metric = ("app", "stock") ∷ ("le", "many") ∷ [];
      first_value = record { timestamp = 15; value = 1 };
      more_values = record { timestamp = 20; value = 2 } ∷ [];
    }
    ∷ []

abbrev nothing_seen : QueryResult ℕ
nothing_seen = record { timestamp = 0; metrics = [] }

abbrev options : QueryOptions
options = record { result_as_quantity = true; drop_labels = []; additional_labels = [] }

unbounded_errors :
    bound_errors numbers 0 (
      map
        (λ (i : MetricIncrease ℕ). lookup "le" i.metric)
        (process_matrix_result_as_increase numbers labels_text 300 nothing_seen unbounded 20).0)
    ≡ missing_le ∷ invalid_le ∷ []
unfolding process_matrix_result_as_increase slo_exporter.PrometheusIngester.matrix_increases lookup
    slo_exporter.Prelude.Dict.insert
unbounded_errors = refl

process_histogram-errors_example :
    process_histogram_increase numbers 0 print options 20 labels_text 300 nothing_seen unbounded ≡ (
      ([], some (bucket_errors missing_le (invalid_le ∷ []))),
      (process_matrix_result_as_increase numbers labels_text 300 nothing_seen unbounded 20).1,
    )
process_histogram-errors_example =
    process_histogram-errors numbers 0 print options 20 labels_text 300 nothing_seen unbounded
      missing_le (invalid_le ∷ []) unbounded_errors

-- The upper bounds 500 and 200, with 3 and 2 events up to them; 0 stands for -Inf.
abbrev buckets : Buckets numbers 0
buckets =
    (500, record { occurred = 20; value = 3; metric = ("le", "500") ∷ [] })
    ∷ (200, record { occurred = 20; value = 2; metric = ("le", "200") ∷ [] })
    ∷ []

lt_asymmetric : (a b : ℕ) → numbers.lt a b ≡ true → numbers.lt b a ≡ false
lt_asymmetric a b h = ground arith

report_buckets-sorted_example :
    let keys = sorted_bounds numbers 0 buckets in
    let reported = report_buckets numbers 0 print options 20 buckets 0 keys in
    IsAscending numbers 0 keys
    × Perm keys (map (λ b. b.0) buckets)
    × (reported.1 ≡ false ↔ AreCumulative numbers 0 buckets 0 keys)
    × (AreCumulative numbers 0 buckets 0 keys
        → reported.0
          ≡ somes numbers 0
              (map (event_between numbers 0 print options 20 buckets) (adjacent numbers 0 0 keys)))
report_buckets-sorted_example =
    report_buckets-sorted numbers 0 print options 20 buckets lt_asymmetric

abbrev first_seen : Seen ℕ
first_seen = record { previous_result = nothing_seen; query_fails = 0; unsupported = 0 }

selected_range-run_example :
    let signals =
      ticked 20 (λ query. some (matrix unbounded))
      ∷ failing numbers labels_text 0 print print_int (80 ∷ []) in
    (seconds : ℕ) × (executed_query print_int counter_executor
        (seen_after numbers labels_text 0 print print_int counter_executor first_seen
          signals).previous_result
        2000000020
      ≡ some (concat "requests_total" (concat "[" (concat (print_int (pos seconds)) "s]"))))
    × (seconds * 1000000000 ≤ (2000000020 - 20) + 500000000)
    × ((2000000020 - 20) < seconds * 1000000000 + 500000000)
selected_range-run_example =
    selected_range-run numbers labels_text 0 print print_int counter_executor first_seen unbounded
      20 2000000020 (80 ∷ []) (inr refl) (omega arith)
