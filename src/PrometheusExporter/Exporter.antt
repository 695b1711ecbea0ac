-- ===== src/PrometheusExporter/Exporter.antt =====
-- The exporter of pkg/prometheus_exporter/prometheus_exporter.go. Logs and timing are not modelled.
pub mod Cardinality
pub mod Processing
pub mod Scrape
use slo_exporter.Prelude.{
  ℕ, ◌+◌, String, Bool, true, false, not, ◌==◌, Option, none, some, List, [], ◌∷◌, length, ltb, ℤ,
  pos, negsuc, exceeds, nat_eq, if◌then◌else◌,
}
use slo_exporter.Prelude.Dict.{Dict, lookup, insert}
use slo_exporter.StringMap.{StringMap, merge, select}
use slo_exporter.Event.{Raw, Slo, success, fail, possible_results}
use slo_exporter.Runtime.{Float64}
use slo_exporter.PrometheusExporter.Counter.{Addition}
use slo_exporter.PrometheusExporter.Aggregation.{
  AggregatedCounterVector, new_aggregated_counter_vector_set, set_add,
}

pub record LabelsNamesConfig : Type 0 where
  pub result : String
  pub slo_domain : String
  pub slo_class : String
  pub slo_app : String
  pub event_key : String

pub record PrometheusExporterConfig : Type 0 where
  pub metric_name : String
  pub label_names : LabelsNamesConfig
  pub maximum_unique_event_keys : ℤ
  pub exceeded_key_limit_placeholder : String
  pub exemplar_metadata_keys : List String

-- PrometheusSloEventExporter, with the gauge `event_keys` and the counters of `errors_total`.
pub record Exporter (F T : Type 0) : Type 0 where
  pub aggregated_metrics_set : List (AggregatedCounterVector F T)
  pub label_names : LabelsNamesConfig
  pub event_key_limit : ℤ
  pub exceeded_key_limit_placeholder : String
  pub exemplar_metadata_keys : List String
  pub event_key_cache : Dict ℕ
  pub event_keys : ℕ
  pub invalid_results : ℕ

-- InvalidSloEventResult
pub data ProcessError : Type 0 where
  invalid_slo_event_result : String → ProcessError

abbrev pub metric_help : String
metric_help = "Total number of SLO events exported with it's result and metadata."

unfoldable pub new : {F T : Type 0} → PrometheusExporterConfig → Exporter F T
new config =
    let names = config.label_names in
    record {
      aggregated_metrics_set =
          new_aggregated_counter_vector_set config.metric_name metric_help
            (names.slo_domain ∷ names.slo_class ∷ names.slo_app ∷ names.event_key ∷ []);
      label_names = names;
      event_key_limit = config.maximum_unique_event_keys;
      exceeded_key_limit_placeholder = config.exceeded_key_limit_placeholder;
      exemplar_metadata_keys = config.exemplar_metadata_keys;
      event_key_cache = [];
      event_keys = 0;
      invalid_results = 0;
    }

abbrev pub is_unlimited : ℤ → Bool
is_unlimited (pos n) = nat_eq n 0
is_unlimited (negsuc _) = false

-- m[k]++
abbrev pub incremented : Option ℕ → ℕ
incremented none = 1
incremented (some n) = n + 1

-- The loop of isValidResult.
unfoldable pub is_one_of : String → List String → Bool
is_one_of result [] = false
is_one_of result (valid ∷ rest) =
    let later = is_one_of result rest in if valid == result then true else later

module _ {F T : Type 0} where
  -- isCardinalityExceeded
  unfoldable pub is_cardinality_exceeded : Exporter F T → String → Bool × Exporter F T
  is_cardinality_exceeded e key =
      let known = lookup key e.event_key_cache in
      let cache = insert key (incremented known) e.event_key_cache in
      let admitted = record e { event_key_cache = cache; event_keys = length cache } in
      if is_unlimited e.event_key_limit then (false, e) else elim known [
        | some _ ↦ (false, admitted)
        | none ↦
            if exceeds (length e.event_key_cache + 1) e.event_key_limit
            then (true, e)
            else (false, admitted)
      ]

  unfoldable pub labels_from_event : Exporter F T → Slo F → StringMap
  labels_from_event e s =
      merge
        (insert e.label_names.event_key s.key (
          insert e.label_names.slo_app s.app (
            insert e.label_names.slo_class s.class (
              insert e.label_names.slo_domain s.domain (insert e.label_names.result s.result [])))))
        s.metadata

-- errorsTotal.WithLabelValues(InvalidResult).Inc()
abbrev pub count_error : {F T : Type 0} → Option ProcessError × Exporter F T → Exporter F T
count_error (none, e) = e
count_error (some _, e) = record e { invalid_results = e.invalid_results + 1 }

module _ (fl : Float64) (max_runes : ℕ) {T : Type 0} where
  open fl use {F}

  -- (*aggregatedCounterVectorSet).add
  unfoldable pub plain : F → StringMap → Addition F T
  plain value labels = record { value = value; labels = labels; exemplar_labels = []; now = none }

  -- initializeMetricForGivenMetadata writes the result label into the map that it is given: the map
  -- comes back with the last result.
  unfoldable pub initialize_metric :
      Exporter F T → StringMap → List String → Exporter F T × StringMap
  unfolding plain
  initialize_metric e metadata [] = (e, metadata)
  initialize_metric e metadata (result ∷ rest) =
      let metadata' = insert e.label_names.result result metadata in
      initialize_metric
        (record e {
          aggregated_metrics_set =
              set_add fl max_runes e.aggregated_metrics_set (plain fl.zero metadata');
        })
        metadata' rest

  -- The last step of processEvent, on the labels with the event's result.
  unfoldable pub add_quantity : Exporter F T → Slo F → StringMap → Option T → Exporter F T
  unfolding plain
  add_quantity e s labels now = record e {
    aggregated_metrics_set = set_add fl max_runes e.aggregated_metrics_set (
        if ltb 0 (length e.exemplar_metadata_keys)
        then record {
          value = s.quantity;
          labels = labels;
          exemplar_labels = select s.original_event.metadata e.exemplar_metadata_keys;
          now = now;
        }
        else plain s.quantity labels);
  }

  unfoldable pub process_event :
      Exporter F T → Slo F → Option T → Option ProcessError × Exporter F T
  unfolding add_quantity initialize_metric
  process_event e s now =
      if not (is_one_of s.result possible_results)
      then (some (invalid_slo_event_result s.result), e)
      else let (exceeded, e') = is_cardinality_exceeded e s.key in
        let labels = labels_from_event e s in
        let masked =
          if exceeded
          then insert e.label_names.event_key e.exceeded_key_limit_placeholder labels
          else labels in
        let (e'', initialized) = initialize_metric e' masked possible_results in
        let final = insert e.label_names.result s.result initialized in
        (none, add_quantity e'' s final now)

  -- The body of Run's loop: an error is counted by its type.
  abbrev pub step : Exporter F T → Slo F → Option T → Exporter F T
  step e s now = count_error (process_event e s now)

  -- Run: the loop goes on after an error.
  unfoldable pub run : Exporter F T → List (Slo F × Option T) → Exporter F T
  run e [] = e
  run e ((s, now) ∷ rest) = run (step e s now) rest
