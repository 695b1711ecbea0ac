-- ===== src/Command/Metrics.antt =====
-- RegisterMetrics of the program's modules: the names of the collectors that each registers, in their
-- order. What is registered without a descriptor (the counters of SLO events) or with its error ignored
-- (the metrics of the gRPC library) is left out.
pub mod Laws
use slo_exporter.Prelude.{String, Bool, true, Option, none, some, List, [], ◌∷◌, ◌++◌}
use slo_exporter.Pipeline.{PipelineItem}
use slo_exporter.Pipeline.Metrics.{ModuleMetrics}
use slo_exporter.Command.{
  ModuleKind, tailer, prometheus_ingester, kafka_ingester, envoy_access_log_server,
  event_metadata_renamer, relabel, event_key_generator, metadata_classifier, dynamic_classifier,
  statistical_classifier, slo_event_producer, prometheus_exporter, kind_of,
}

abbrev pub tailer_metrics : List String
tailer_metrics =
    "lines_read_total" ∷ "malformed_lines_total" ∷ "file_size_bytes" ∷ "file_offset_bytes" ∷ []

abbrev pub prometheus_ingester_metrics : List String
prometheus_ingester_metrics =
    "unsupported_query_result_type_total" ∷ "query_fails_total" ∷ "query_duration_seconds" ∷ []

abbrev pub kafka_ingester_metrics : List String
kafka_ingester_metrics =
    "kafka_connection_info" ∷ "kafka_messages_read_total" ∷ "malformed_messages_total" ∷ []

abbrev pub envoy_metrics : List String
envoy_metrics = "processed_logentries_total" ∷ "errors_total" ∷ []

abbrev pub renamer_metrics : List String
renamer_metrics = "renaming_collisions_total" ∷ []

abbrev pub relabel_metrics : List String
relabel_metrics = "dropped_events_total" ∷ []

abbrev pub key_generator_metrics : List String
key_generator_metrics = "processed_events_total" ∷ []

abbrev pub metadata_classifier_metrics : List String
metadata_classifier_metrics = "processed_events_total" ∷ []

abbrev pub dynamic_classifier_metrics : List String
dynamic_classifier_metrics =
    "events_processed_total" ∷ "errors_total" ∷ "matcher_operation_duration_seconds" ∷ []

abbrev pub statistical_classifier_metrics : List String
statistical_classifier_metrics =
    "events_processed_total" ∷ "errors_total" ∷ "classification_weight" ∷ []

-- RegisterMetrics of the SLO event producer. `exposed` is whether the metrics of the rules can be made,
-- where they are exposed: if not, their vector is not registered.
abbrev pub producer_metrics : Option Bool → ModuleMetrics
producer_metrics exposed =
    let own : List String =
      "events_not_matching_any_rule_total" ∷ "evaluation_duration_seconds"
      ∷ "unclassified_events_total" ∷ [] in
    elim exposed [
      | none ↦ record { names = own; complete = true }
      | some made ↦ record {
        names = own ++ elim made [ true ↦ "slo_rules_threshold" ∷ [] | _ ↦ [] ];
        complete = made;
      }
    ]

abbrev pub exporter_metrics : List String
exporter_metrics = "event_keys_limit" ∷ "errors_total" ∷ "event_keys" ∷ []

abbrev pub registering : List String → ModuleMetrics
registering names = record { names = names; complete = true }

unfoldable pub metrics_of_kind : Option Bool → ModuleKind → ModuleMetrics
metrics_of_kind exposed tailer = registering tailer_metrics
metrics_of_kind exposed prometheus_ingester = registering prometheus_ingester_metrics
metrics_of_kind exposed kafka_ingester = registering kafka_ingester_metrics
metrics_of_kind exposed envoy_access_log_server = registering envoy_metrics
metrics_of_kind exposed event_metadata_renamer = registering renamer_metrics
metrics_of_kind exposed relabel = registering relabel_metrics
metrics_of_kind exposed event_key_generator = registering key_generator_metrics
metrics_of_kind exposed metadata_classifier = registering metadata_classifier_metrics
metrics_of_kind exposed dynamic_classifier = registering dynamic_classifier_metrics
metrics_of_kind exposed statistical_classifier = registering statistical_classifier_metrics
metrics_of_kind exposed slo_event_producer = producer_metrics exposed
metrics_of_kind exposed prometheus_exporter = registering exporter_metrics

-- Every module of the program has metrics.
unfoldable pub metrics_of : Option Bool → PipelineItem → Option ModuleMetrics
metrics_of exposed item = elim (kind_of item.name) [
  | none ↦ none
  | some kind ↦ some (metrics_of_kind exposed kind)
]
