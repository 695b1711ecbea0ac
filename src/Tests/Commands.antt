-- ===== src/Tests/Commands.antt =====
-- The pipeline of examples/all_in_one/slo-exporter/conf/slo_exporter.yaml, made of the program's
-- modules, and main up to its loop.
use slo_exporter.Prelude.{
  ℕ, String, ◌≡◌, ◌↔◌, refl, Bool, true, false, ◌||◌, ◌==◌, Option, none, some, List, [], ◌∷◌, map,
  All, contains, is_some, arith, if◌then◌else◌,
}
use slo_exporter.Prelude.Results.{ok, err}
use slo_exporter.Pipeline.{PipelineItem, set_input_channel, new_manager, run_item}
use slo_exporter.Pipeline.Metrics.{Registry, register_prometheus_metrics}
use slo_exporter.Pipeline.Metrics.Laws.{
  IsFresh, names_of, is_complete, register_prometheus_metrics_iff,
}
use slo_exporter.Prober.{registered, already_registered, handle_func}
use slo_exporter.Command.{
  ModuleKind, tailer, relabel, event_key_generator, dynamic_classifier, slo_event_producer,
  prometheus_exporter, kind_of, module_with,
}
use slo_exporter.Command.Order.{IsFlow}
use slo_exporter.Command.Metrics.{metrics_of}
use slo_exporter.Command.Metrics.Laws.{AreDistinct}
use slo_exporter.Command.Main.{Config, Viper, Flags, Exit, exit_code, Running, configure, launch}
use slo_exporter.Command.Main.Laws.{IsValid, configure_iff}
use slo_exporter.Command.Main.Started.{main-started}

abbrev names : List String
names =
    "tailer" ∷ "relabel" ∷ "eventKeyGenerator" ∷ "dynamicClassifier" ∷ "sloEventProducer"
    ∷ "prometheusExporter" ∷ []

-- An item that is linked to the one before it.
abbrev behind : String → ModuleKind → PipelineItem
behind name kind = record { name = name; module_of = set_input_channel (module_with kind 7) 7 }

abbrev all_in_one : List PipelineItem
all_in_one =
    record { name = "tailer"; module_of = module_with tailer 7 }
    ∷ behind "relabel" relabel
    ∷ behind "eventKeyGenerator" event_key_generator
    ∷ behind "dynamicClassifier" dynamic_classifier
    ∷ behind "sloEventProducer" slo_event_producer
    ∷ behind "prometheusExporter" prometheus_exporter
    ∷ []

abbrev config : Config
config = record {
  pipeline = names;
  web_server_listen_address = "0.0.0.0:8080";
  maximum_graceful_shutdown_duration = 20000000000;
  after_pipeline_shutdown_delay = 0;
}

abbrev viper : Viper (Unit {0})
viper = record { opened = true; read = true; unmarshalled = some config; sub = λ k. some tt }

abbrev flags : Flags
flags = record {
  version = false;
  config_file = "slo_exporter.yaml";
  log_level = "info";
  check_config = false;
}

abbrev new_from : String → Unit {0} → Option ℕ
new_from name conf = some 7

abbrev is_level : String → Bool
is_level level = level == "info"

configured_all : configure flags none is_level viper new_from ≡ ok (config, all_in_one)
unfolding configure new_manager slo_exporter.Pipeline.build slo_exporter.Pipeline.new_pipeline_item
    slo_exporter.Command.module_factory kind_of slo_exporter.Pipeline.add_module_to_pipeline_end
    slo_exporter.Pipeline.link_module_with_pipeline_end slo_exporter.Pipeline.last_pipeline_item
    slo_exporter.Pipeline.is_ingester slo_exporter.Command.ingests_of
    slo_exporter.Pipeline.link_modules slo_exporter.Pipeline.is_producer
    slo_exporter.Command.produces_of slo_exporter.Command.Main.load_from_file
    slo_exporter.Command.Main.create_module slo_exporter.Command.Main.module_config
configured_all = refl

configure_iff_example :
    ((c : Config) (pipeline : List PipelineItem)
      → (configure flags none is_level viper new_from ≡ ok (c, pipeline)) ↔ (
          (flags.version ≡ false)
          × (flags.check_config ≡ false)
          × IsValid flags none is_level viper new_from c pipeline))
    × (flags.version ≡ false
        → flags.check_config ≡ true
        → (e : Exit) × (configure flags none is_level viper new_from ≡ err e)
          × ((exit_code e ≡ 0) ↔ (
              (c : Config) × (pipeline : List PipelineItem) × IsValid flags none is_level viper
                new_from c pipeline)))
configure_iff_example = configure_iff flags none is_level viper new_from

-- A registry that is the list of the names in it.
register_name : List String → String → Option (List String)
register_name r name = if contains name r then none else some (name ∷ r)

register_name-none :
    (r : List String) (name : String) → (register_name r name ≡ none) ↔ (contains name r ≡ true)
unfolding register_name
register_name-none r name = ((λ h. ground arith), (λ h. ground arith))

register_name-some :
    (r r' : List String) (name other : String)
    → register_name r name ≡ some r'
    → contains other r' ≡ (name == other || contains other r)
unfolding register_name
register_name-some r r' name other h = let same : name ∷ r ≡ r' = ground arith in rw (← same) refl

abbrev names_registry : Registry
names_registry = record {
  R = List String;
  has = λ r name. contains name r;
  register = register_name;
  register_none = register_name-none;
  register_some = register_name-some;
}

abbrev to_snake : String → String
to_snake name = name

abbrev running : Running String
running = record {
  config = config;
  pipeline = map run_item all_in_one;
  liveness = record { status = none; gauge = none };
  readiness = record { status = none; gauge = some 1 };
}

launched :
    launch names_registry to_snake none registered already_registered "initializing"
      ("probe_status" ∷ [])
      config
      all_in_one
    ≡ ok running
unfolding launch register_name slo_exporter.Prober.new_liveness slo_exporter.Prober.new_prober
    slo_exporter.Prober.new_readiness register_prometheus_metrics
    slo_exporter.Pipeline.Metrics.register_modules metrics_of kind_of
    slo_exporter.Pipeline.Metrics.register_metrics slo_exporter.Pipeline.Metrics.wrapped
    slo_exporter.Command.Metrics.metrics_of_kind slo_exporter.Pipeline.start_pipeline
    slo_exporter.Prober.set_ok slo_exporter.Prober.set_status slo_exporter.Prober.not_ok
launched = refl

main-started_example :
    ((kinds : List ModuleKind) × (map kind_of names ≡ map some kinds) × IsFlow kinds)
    × AreDistinct names
    × (map (λ (i : PipelineItem). i.name) running.pipeline ≡ names)
    × All (λ (i : PipelineItem). i.module_of.running ≡ true) running.pipeline
    × ((handle_func running.liveness).code ≡ 200)
    × ((handle_func running.readiness).code ≡ 200)
main-started_example =
    main-started names_registry to_snake none flags none is_level viper new_from registered
      already_registered "initializing" ("probe_status" ∷ []) config all_in_one running
      configured_all launched

register_prometheus_metrics_iff_example :
    (is_some (
        register_prometheus_metrics names_registry to_snake
          (metrics_of none)
          "slo_exporter_"
          ("probe_status" ∷ [])
          all_in_one)
      ≡ true)
    ↔ ((is_complete names_registry to_snake (metrics_of none) all_in_one ≡ true)
        × IsFresh names_registry ("probe_status" ∷ []) (
            "event_processing_duration_seconds"
            ∷ names_of names_registry to_snake (metrics_of none) "slo_exporter_" all_in_one))
register_prometheus_metrics_iff_example =
    register_prometheus_metrics_iff names_registry to_snake (metrics_of none) "slo_exporter_"
      all_in_one ("probe_status" ∷ [])
