-- ===== src/PrometheusIngester/Histogram.antt =====
-- The histograms of pkg/prometheus_ingester/query_executor.go: the increases of the buckets of each
-- histogram, sorted by their upper bounds, become events of the differences.
pub mod Laws
use slo_exporter.Prelude.{
  ℕ, String, Bool, true, false, Option, none, some, List, [], ◌∷◌, ◌++◌, if◌then◌else◌,
}
use slo_exporter.Prelude.Dict.{Dict, lookup, insert}
use slo_exporter.Prelude.Results.{Result, ok, err}
use slo_exporter.StringMap.{StringMap, new_from_metric, merge, without, to_string}
use slo_exporter.Event.{Raw}
use slo_exporter.Runtime.{Float64}
use slo_exporter.PrometheusIngester.{
  SampleStream, QueryResult, QueryOptions, MetricIncrease, emit_event,
  process_matrix_result_as_increase, sent,
}

pub data BucketError : Type 0 where
  missing_le : BucketError
  invalid_le : BucketError

-- What processHistogramIncrease returns: the errors of all increases, or the first inconsistent pair.
pub data HistogramError : Type 0 where
  bucket_errors : BucketError → List BucketError → HistogramError
  inconsistent_buckets : HistogramError

module _ (fl : Float64) (neg_inf : fl.F) where
  open fl use {F}

  -- map[float64]metricIncrease
  abbrev pub Buckets : Type 0
  Buckets = List (F × MetricIncrease F)

  unfoldable pub find_bucket : F → Buckets → Option (MetricIncrease F)
  find_bucket key [] = none
  find_bucket key ((k, i) ∷ rest) =
      let later = find_bucket key rest in if fl.eq k key then some i else later

  unfoldable pub set_bucket : F → MetricIncrease F → Buckets → Buckets
  set_bucket key i [] = (key, i) ∷ []
  set_bucket key i ((k, j) ∷ rest) =
      let later = set_bucket key i rest in if fl.eq k key then (k, i) ∷ rest else (k, j) ∷ later

  -- metric[key].value, which is 0 where the key is missing
  abbrev pub value_of : F → Buckets → F
  value_of key buckets = elim (find_bucket key buckets) [ none ↦ fl.zero | some i ↦ i.value ]

  -- The upper bound of the bucket that an increase belongs to.
  unfoldable pub bucket_value : MetricIncrease F → Result BucketError F
  bucket_value i = elim (lookup "le" i.metric) [
    | none ↦ err missing_le
    | some bucket ↦ elim (fl.parse bucket) [ none ↦ err invalid_le | some value ↦ ok value ]
  ]

  -- metricLabels
  abbrev pub metric_labels : MetricIncrease F → String
  metric_labels i = to_string (without (new_from_metric i.metric) ("le" ∷ []))

  abbrev pub group_of : String → Dict Buckets → Buckets
  group_of labels groups = elim (lookup labels groups) [ none ↦ [] | some buckets ↦ buckets ]

  -- The loop over the increases, with the errors in their order.
  unfoldable pub collect_buckets :
      Dict Buckets → List (MetricIncrease F) → Dict Buckets × List BucketError
  collect_buckets groups [] = (groups, [])
  collect_buckets groups (i ∷ increases) = elim (bucket_value i) [
    | err e ↦ let (groups', errors) = collect_buckets groups increases in (groups', e ∷ errors)
    | ok value ↦
        let labels = metric_labels i in
        collect_buckets (insert labels (set_bucket value i (group_of labels groups)) groups)
          increases
  ]

  -- sort.Float64s, by insertion
  unfoldable pub insert_bound : F → List F → List F
  insert_bound key [] = key ∷ []
  insert_bound key (x ∷ xs) =
      let rest = insert_bound key xs in if fl.lt x key then x ∷ rest else key ∷ x ∷ xs

  unfoldable pub sorted_bounds : Buckets → List F
  sorted_bounds [] = []
  sorted_bounds ((k, i) ∷ rest) = insert_bound k (sorted_bounds rest)

  -- The labels that are added to those of a bucket.
  abbrev pub bounds_of : F → F → StringMap
  bounds_of min_value max_value =
      ("prometheusHistogramMinValue", fl.format min_value)
      ∷ ("prometheusHistogramMaxValue", fl.format max_value)
      ∷ []

  -- metric[key].metric, the nil map where the key is missing
  abbrev pub metric_of : F → Buckets → Dict String
  metric_of key buckets = elim (find_bucket key buckets) [ none ↦ [] | some i ↦ i.metric ]

  module _ (unix : ℕ → String) (q : QueryOptions) (ts : ℕ) where
    -- The event of a bucket, given the bucket before it.
    abbrev pub bucket_event : Buckets → F → F → Option (Raw F)
    bucket_event buckets previous key =
        emit_event fl unix q ts (fl.sub (value_of key buckets) (value_of previous buckets))
          (merge (new_from_metric (metric_of key buckets)) (bounds_of previous key))

    -- The loop over the buckets of a histogram: what is sent, and whether it ends with an error.
    unfoldable pub report_buckets : Buckets → F → List F → List (Raw F) × Bool
    report_buckets buckets previous [] = ([], false)
    report_buckets buckets previous (key ∷ keys) =
        let (rest, failed) = report_buckets buckets key keys in
        if fl.lt (fl.sub (value_of key buckets) (value_of previous buckets)) fl.zero
        then ([], true)
        else (sent fl (bucket_event buckets previous key) rest, failed)

    -- The loop over the histograms, which the first error ends.
    unfoldable pub report_histograms : Dict Buckets → List (Raw F) × Bool
    report_histograms [] = ([], false)
    report_histograms ((labels, buckets) ∷ groups) =
        let (events, failed) = report_buckets buckets neg_inf (sorted_bounds buckets) in
        let (rest, later) = report_histograms groups in
        if failed then (events, true) else (events ++ rest, later)

    -- What processHistogramIncrease does with the increases.
    unfoldable pub report : Dict Buckets × List BucketError → List (Raw F) × Option HistogramError
    report (groups, e ∷ errors) = ([], some (bucket_errors e errors))
    report (groups, []) =
        let (events, failed) = report_histograms groups in
        (events, if failed then some inconsistent_buckets else none)

    unfoldable pub process_histogram_increase :
        (Dict String → String)
        → ℕ
        → QueryResult F
        → List (SampleStream F)
        → (List (Raw F) × Option HistogramError) × QueryResult F
    process_histogram_increase fingerprint staleness previous_result matrix =
        let (increases, result) =
          process_matrix_result_as_increase fl fingerprint staleness previous_result matrix ts in
        (report (collect_buckets [] increases), result)
