-- ===== src/PrometheusIngester.antt =====
-- The query executor of pkg/prometheus_ingester/query_executor.go: what a result is made of, and the
-- results of counters and of simple queries. Times and durations are numbers of one unit; `fingerprint` is that of the Prometheus
-- model, as text, and `unix` is a time's seconds, printed. A channel is the list of what it carries.
pub mod Laws
pub mod Config
pub mod Histogram
pub mod Executor
pub mod Shutdown
use slo_exporter.Prelude.{
  ℕ, ◌+◌, String, Bool, true, false, Option, none, some, List, [], ◌∷◌, ◌++◌, ltb, if◌then◌else◌,
}
use slo_exporter.Prelude.Dict.{Dict, lookup, insert}
use slo_exporter.StringMap.{StringMap, new_from_metric, merge, without}
use slo_exporter.Event.{Raw}
use slo_exporter.Runtime.{Float64}

pub record SamplePair (F : Type 0) : Type 0 where
  pub timestamp : ℕ
  pub value : F

pub record QueryResult (F : Type 0) : Type 0 where
  pub timestamp : ℕ
  pub metrics : Dict (SamplePair F)

-- model.SampleStream; the first of its values is apart, since a stream that Prometheus returns has
-- one at least.
pub record SampleStream (F : Type 0) : Type 0 where
  pub metric : Dict String
  pub first_value : SamplePair F
  pub more_values : List (SamplePair F)

pub record Sample (F : Type 0) : Type 0 where
  pub metric : Dict String
  pub sample : SamplePair F

-- The options of a query that its result is processed by.
pub record QueryOptions : Type 0 where
  pub result_as_quantity : Bool
  pub drop_labels : List String
  pub additional_labels : StringMap

pub record MetricIncrease (F : Type 0) : Type 0 where
  pub occurred : ℕ
  pub value : F
  pub metric : Dict String

-- dropStaleResults: moment - timestamp > staleness, on durations that are not negative
unfoldable pub drop_stale_metrics : {F : Type 0} → ℕ → ℕ → Dict (SamplePair F) → Dict (SamplePair F)
drop_stale_metrics staleness moment [] = []
drop_stale_metrics staleness moment ((m, s) ∷ metrics) =
    let rest = drop_stale_metrics staleness moment metrics in
    if ltb (s.timestamp + staleness) moment then rest else (m, s) ∷ rest

-- The loop of update.
unfoldable pub update_metrics :
    {F : Type 0} → Dict (SamplePair F) → Dict (SamplePair F) → Dict (SamplePair F)
update_metrics metrics [] = metrics
update_metrics metrics ((m, s) ∷ new) = update_metrics (insert m s metrics) new

unfoldable pub update : {F : Type 0} → QueryResult F → QueryResult F → QueryResult F
update r new = record { timestamp = new.timestamp; metrics = update_metrics r.metrics new.metrics }

module _ (fl : Float64) where
  open fl use {F}

  unfoldable pub increase_between_samples : SamplePair F → SamplePair F → F
  increase_between_samples previous_sample sample =
      if fl.lt sample.value previous_sample.value
      then sample.value
      else fl.sub sample.value previous_sample.value

  -- The loop over the samples of a stream: the increase, and the last sample.
  unfoldable pub stream_increase : F → SamplePair F → List (SamplePair F) → F × SamplePair F
  stream_increase increase previous_sample [] = (increase, previous_sample)
  stream_increase increase previous_sample (sample ∷ samples) =
      stream_increase (fl.add increase (increase_between_samples previous_sample sample)) sample
        samples

  -- The event that emitEvent builds.
  abbrev pub event_of : (ℕ → String) → QueryOptions → ℕ → F → StringMap → Raw F
  event_of unix q ts result metadata = record {
    metadata =
        merge
          (without
            (merge metadata
              (("prometheusQueryResult", fl.format result) ∷ ("unixTimestamp", unix ts) ∷ []))
            q.drop_labels)
          q.additional_labels;
    slo_classification = none;
    quantity = if q.result_as_quantity then result else fl.one;
  }

  -- emitEvent: what is sent to the channel of events
  unfoldable pub emit_event : (ℕ → String) → QueryOptions → ℕ → F → StringMap → Option (Raw F)
  emit_event unix q ts result metadata =
      let event = event_of unix q ts result metadata in
      let nonzero = if fl.eq event.quantity fl.zero then none else some event in
      if q.result_as_quantity then if fl.lt result fl.zero then none else nonzero else nonzero

  module _ (fingerprint : Dict String → String) where
    -- The body of the loop over the streams, on the sample that is known from the last result.
    unfoldable pub increase_of : Option (SamplePair F) → SampleStream F → F × SamplePair F
    increase_of none s = stream_increase fl.zero s.first_value (s.first_value ∷ s.more_values)
    increase_of (some previous_sample) s =
        stream_increase fl.zero previous_sample (s.first_value ∷ s.more_values)

    -- The loop over the streams: the increases, and the metrics of the current result.
    unfoldable pub matrix_increases :
        Dict (SamplePair F)
        → ℕ
        → Dict (SamplePair F)
        → List (SampleStream F)
        → List (MetricIncrease F) × Dict (SamplePair F)
    matrix_increases previous ts current [] = ([], current)
    matrix_increases previous ts current (s ∷ matrix) =
        let metric_key = fingerprint s.metric in
        let (increase, sample) = increase_of (lookup metric_key previous) s in
        let (rest, current') =
          matrix_increases previous ts (insert metric_key sample current) matrix in
        (record { occurred = ts; value = increase; metric = s.metric } ∷ rest, current')

    unfoldable pub process_matrix_result_as_increase :
        ℕ → QueryResult F → List (SampleStream F) → ℕ → List (MetricIncrease F) × QueryResult F
    process_matrix_result_as_increase staleness previous_result matrix ts =
        let fresh = drop_stale_metrics staleness ts previous_result.metrics in
        let (increases, metrics) = matrix_increases fresh ts [] matrix in
        (
          increases,
          update (record previous_result { metrics = fresh })
              (record { timestamp = ts; metrics = metrics }),
        )

  -- What is sent, without the events that emitEvent refuses.
  abbrev pub sent : Option (Raw F) → List (Raw F) → List (Raw F)
  sent none events = events
  sent (some e) events = e ∷ events

  module _ (unix : ℕ → String) (q : QueryOptions) where
    -- processCountersIncrease
    unfoldable pub counters_increase : List (MetricIncrease F) → List (Raw F)
    counters_increase [] = []
    counters_increase (i ∷ increases) =
        sent (emit_event unix q i.occurred i.value (new_from_metric i.metric))
          (counters_increase increases)

    -- The inner loop of processMatrixResult.
    unfoldable pub stream_events : Dict String → List (SamplePair F) → List (Raw F)
    stream_events metric [] = []
    stream_events metric (s ∷ samples) =
        sent (emit_event unix q s.timestamp s.value (new_from_metric metric))
          (stream_events metric samples)

    unfoldable pub process_matrix_result : List (SampleStream F) → List (Raw F)
    process_matrix_result [] = []
    process_matrix_result (s ∷ matrix) =
        stream_events s.metric (s.first_value ∷ s.more_values) ++ process_matrix_result matrix

    unfoldable pub process_vector_result : List (Sample F) → List (Raw F)
    process_vector_result [] = []
    process_vector_result (s ∷ vector) =
        sent (emit_event unix q s.sample.timestamp s.sample.value (new_from_metric s.metric))
          (process_vector_result vector)

    unfoldable pub process_scalar_result : SamplePair F → List (Raw F)
    process_scalar_result s = sent (emit_event unix q s.timestamp s.value []) []
