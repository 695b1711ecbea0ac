-- ===== src/Command.antt =====
-- The factory of modules in cmd/slo_exporter.go. Making a module from its configuration is a parameter:
-- the output channel, or `none` for an error.
pub mod Order
pub mod Metrics
pub mod Main
pub mod Waiting
use slo_exporter.Prelude.{ℕ, String, Bool, true, false, ◌==◌, Option, none, some, if◌then◌else◌}
use slo_exporter.Prelude.Results.{Result, ok, err}
use slo_exporter.Pipeline.{EventType, raw, slo, Module}

pub data ModuleKind : Type 0 where
  tailer : ModuleKind
  prometheus_ingester : ModuleKind
  kafka_ingester : ModuleKind
  envoy_access_log_server : ModuleKind
  event_metadata_renamer : ModuleKind
  relabel : ModuleKind
  event_key_generator : ModuleKind
  metadata_classifier : ModuleKind
  dynamic_classifier : ModuleKind
  statistical_classifier : ModuleKind
  slo_event_producer : ModuleKind
  prometheus_exporter : ModuleKind

pub data FactoryError : Type 0 where
  unknown_module : String → FactoryError
  not_configured : FactoryError

-- The switch of moduleFactory.
unfoldable pub kind_of : String → Option ModuleKind
kind_of name =
    if name == "tailer"
    then some tailer
    else if name == "prometheusIngester"
    then some prometheus_ingester
    else if name == "kafkaIngester"
    then some kafka_ingester
    else if name == "envoyAccessLogServer"
    then some envoy_access_log_server
    else if name == "eventMetadataRenamer"
    then some event_metadata_renamer
    else if name == "relabel"
    then some relabel
    else if name == "eventKeyGenerator"
    then some event_key_generator
    else if name == "metadataClassifier"
    then some metadata_classifier
    else if name == "dynamicClassifier"
    then some dynamic_classifier
    else if name == "statisticalClassifier"
    then some statistical_classifier
    else if name == "sloEventProducer"
    then some slo_event_producer
    else if name == "prometheusExporter"
    then some prometheus_exporter
    else none

-- The parameter of SetInputChannel, where a module has it.
unfoldable pub ingests_of : ModuleKind → Option EventType
ingests_of tailer = none
ingests_of prometheus_ingester = none
ingests_of kafka_ingester = none
ingests_of envoy_access_log_server = none
ingests_of event_metadata_renamer = some raw
ingests_of relabel = some raw
ingests_of event_key_generator = some raw
ingests_of metadata_classifier = some raw
ingests_of dynamic_classifier = some raw
ingests_of statistical_classifier = some raw
ingests_of slo_event_producer = some raw
ingests_of prometheus_exporter = some slo

-- The result of OutputChannel, where a module has it.
unfoldable pub produces_of : ModuleKind → Option EventType
produces_of tailer = some raw
produces_of prometheus_ingester = some raw
produces_of kafka_ingester = some raw
produces_of envoy_access_log_server = some raw
produces_of event_metadata_renamer = some raw
produces_of relabel = some raw
produces_of event_key_generator = some raw
produces_of metadata_classifier = some raw
produces_of dynamic_classifier = some raw
produces_of statistical_classifier = some raw
produces_of slo_event_producer = some slo
produces_of prometheus_exporter = none

-- A module as its NewFromViper leaves it.
abbrev pub module_with : ModuleKind → ℕ → Module
module_with kind channel = record {
  ingests = ingests_of kind;
  produces = produces_of kind;
  input_channel = none;
  output_channel = channel;
  running = false;
  stopping = false;
  done = false;
}

unfoldable pub module_factory : (String → Option ℕ) → String → Result FactoryError Module
module_factory configured name = elim (kind_of name) [
  | none ↦ err (unknown_module name)
  | some kind ↦ elim (configured name) [
    | none ↦ err not_configured
    | some channel ↦ ok (module_with kind channel)
  ]
]
