-- ===== src/PrometheusIngester/Executor.antt =====
-- The loop of the query executor of pkg/prometheus_ingester/query_executor.go, from a tick to what is
-- sent. The Prometheus API is a parameter: what it answers to queries at a time comes with the tick.
-- Times and durations are in nanoseconds, and `print` prints an integer.
pub mod Ranges
use slo_exporter.Prelude.{
  ℕ, ℤ, pos, negsuc, opposite, zero, suc, ◌+◌, ◌-◌, ◌≡◌, ap, ◌∙◌, refl, String, Bool, true, false,
  ◌||◌, ◌==◌, Option, none, some, List, [], ◌∷◌, ◌++◌, concat, length, nat_eq, arith, if◌then◌else◌,
  Option-cases, inl, inr,
}
use Prim.Native.Nat.{◌/◌}
use slo_exporter.Prelude.Dict.{Dict}
use slo_exporter.Event.{Raw}
use slo_exporter.Runtime.{Float64}
use slo_exporter.PrometheusIngester.{
  SamplePair, QueryResult, SampleStream, Sample, MetricIncrease, process_matrix_result_as_increase,
  counters_increase, process_matrix_result, process_vector_result, process_scalar_result,
}
use slo_exporter.PrometheusIngester.Config.{
  QueryExecutor, simple_query_type, counter_query_type, histogram_query_type,
}
use slo_exporter.PrometheusIngester.Histogram.{HistogramError, process_histogram_increase}

-- model.Value
pub data Value (F : Type 0) : Type 0 where
  matrix : List (SampleStream F) → Value F
  vector : List (Sample F) → Value F
  scalar : SamplePair F → Value F
  -- a text
  text_value : Value F

pub data ResultError : Type 0 where
  histogram_error : HistogramError → ResultError
  unsupported_value_type : ResultError
  unknown_type : ResultError

-- What changes: the previous result, and the counters of failed queries and of unsupported results.
pub record Seen (F : Type 0) : Type 0 where
  pub previous_result : QueryResult F
  pub query_fails : ℕ
  pub unsupported : ℕ

-- What the select of run receives: a tick with its time and the API's answers, `none` for an error,
-- or the end of the context.
pub data Signal (F : Type 0) : Type 0 where
  ticked : ℕ → (String → Option (Value F)) → Signal F
  cancelled : Signal F

-- Round to seconds, halves away from zero, and the number of them.
abbrev pub rounded_seconds : ℤ → ℤ
rounded_seconds (pos duration) = pos ((duration + 500000000) / 1000000000)
rounded_seconds (negsuc duration) = opposite ((suc duration + 500000000) / 1000000000)

-- The duration of withRangeSelector; `ts` is not before the previous result.
abbrev pub selected_range : {F : Type 0} → QueryExecutor → QueryResult F → ℕ → ℤ
selected_range q previous ts =
    if nat_eq (length previous.metrics) 0 then q.interval else pos (ts - previous.timestamp)

unfoldable pub with_range_selector :
    {F : Type 0} → (ℤ → String) → QueryExecutor → QueryResult F → ℕ → String
with_range_selector print q previous ts =
    concat q.query
      (concat "[" (concat (print (rounded_seconds (selected_range q previous ts))) "s]"))

-- The query that execute sends, with `none` for an unknown type.
unfoldable pub executed_query :
    {F : Type 0} → (ℤ → String) → QueryExecutor → QueryResult F → ℕ → Option String
executed_query print q previous ts =
    if q.query_type == histogram_query_type
    then some (with_range_selector print q previous ts)
    else if q.query_type == counter_query_type
    then some (with_range_selector print q previous ts)
    else if q.query_type == simple_query_type
    then some q.query
    else none

module _ (fl : Float64) (neg_inf : fl.F) (unix : ℕ → String) (print : ℤ → String)
    (fingerprint : Dict String → String) where
  open fl use {F}

  -- What ProcessResult leaves: the events that it sends, its error, and what is seen.
  pub record Processed : Type 0 where
    pub events : List (Raw F)
    pub error : Option ResultError
    pub seen : Seen F

  abbrev pub unsupported_result : Seen F → Processed
  unsupported_result seen = record {
    events = [];
    error = some unsupported_value_type;
    seen = record seen { unsupported = seen.unsupported + 1 };
  }

  unfoldable pub process_histogram : QueryExecutor → Seen F → Value F → ℕ → Processed
  process_histogram q seen (matrix m) ts =
      let ((events, failure), result) =
        process_histogram_increase fl neg_inf unix q.options ts fingerprint q.staleness
          seen.previous_result m in
      record {
        events = events;
        error = elim failure [ none ↦ none | some e ↦ some (histogram_error e) ];
        seen = record seen { previous_result = result };
      }
  process_histogram q seen (vector v) ts = unsupported_result seen
  process_histogram q seen (scalar s) ts = unsupported_result seen
  process_histogram q seen text_value ts = unsupported_result seen

  unfoldable pub process_counters : QueryExecutor → Seen F → Value F → ℕ → Processed
  process_counters q seen (matrix m) ts =
      let (increases, result) =
        process_matrix_result_as_increase fl fingerprint q.staleness seen.previous_result m ts in
      record {
        events = counters_increase fl unix q.options increases;
        error = none;
        seen = record seen { previous_result = result };
      }
  process_counters q seen (vector v) ts = unsupported_result seen
  process_counters q seen (scalar s) ts = unsupported_result seen
  process_counters q seen text_value ts = unsupported_result seen

  abbrev pub sent_only : Seen F → List (Raw F) → Processed
  sent_only seen events = record { events = events; error = none; seen = seen }

  unfoldable pub process_simple : QueryExecutor → Seen F → Value F → Processed
  process_simple q seen (matrix m) = sent_only seen (process_matrix_result fl unix q.options m)
  process_simple q seen (vector v) = sent_only seen (process_vector_result fl unix q.options v)
  process_simple q seen (scalar s) = sent_only seen (process_scalar_result fl unix q.options s)
  process_simple q seen text_value = unsupported_result seen

  unfoldable pub process_result : QueryExecutor → Seen F → Value F → ℕ → Processed
  process_result q seen result ts =
      if q.query_type == histogram_query_type
      then process_histogram q seen result ts
      else if q.query_type == counter_query_type
      then process_counters q seen result ts
      else if q.query_type == simple_query_type
      then process_simple q seen result
      else record { events = []; error = some unknown_type; seen = seen }

  -- execute
  abbrev pub execute : QueryExecutor → Seen F → ℕ → (String → Option (Value F)) → Option (Value F)
  execute q seen ts api = elim (executed_query print q seen.previous_result ts) [
    | none ↦ none
    | some query ↦ api query
  ]

  -- A tick whose query is answered.
  unfoldable pub on_answer : QueryExecutor → Seen F → ℕ → Option (Value F) → List (Raw F) × Seen F
  on_answer q seen ts none = ([], record seen { query_fails = seen.query_fails + 1 })
  on_answer q seen ts (some result) =
      let processed = process_result q seen result ts in (processed.events, processed.seen)

  -- The loop of run: a failed query is counted, an error of ProcessResult is logged only. A query is
  -- executed within its tick, so none is in progress at the next one.
  unfoldable pub run : QueryExecutor → Seen F → List (Signal F) → List (Raw F) × Seen F
  run q seen [] = ([], seen)
  run q seen (cancelled ∷ rest) = ([], seen)
  run q seen (ticked ts api ∷ rest) =
      let now = on_answer q seen ts (execute q seen ts api) in
      let later = run q now.1 rest in (now.0 ++ later.0, later.1)
