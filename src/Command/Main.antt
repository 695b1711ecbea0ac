-- ===== src/Command/Main.antt =====
-- main of cmd/slo_exporter.go up to its loop, with pkg/config/config.go. The flags are those that
-- kingpin has parsed; viper, the parsing of log levels and the registry are parameters. Fatalf ends the
-- program with the code 1.
pub mod Laws
pub mod Started
use slo_exporter.Prelude.{
  ℕ, String, Bool, true, false, not, ◌==◌, Option, none, some, List, [], ◌∷◌, concat, is_some,
  if◌then◌else◌,
}
use slo_exporter.Prelude.Results.{Result, ok, err, ◌>>=◌, ◌>>◌}
use slo_exporter.Pipeline.{Module, PipelineItem, PipelineError, new_manager, start_pipeline}
use slo_exporter.Pipeline.Metrics.{Registry, register_prometheus_metrics}
use slo_exporter.Prober.{Prober, Registration, new_liveness, new_readiness, set_ok}
use slo_exporter.Command.{FactoryError, module_factory}
use slo_exporter.Command.Metrics.{metrics_of}

-- Config, without what the modules read for themselves; durations in nanoseconds.
pub record Config : Type 0 where
  pub pipeline : List String
  pub web_server_listen_address : String
  pub maximum_graceful_shutdown_duration : ℕ
  pub after_pipeline_shutdown_delay : ℕ

-- What viper and the file system answer: whether the file can be opened and read as YAML, what
-- UnmarshalExact makes of it, and the subtree under a key.
pub record Viper (C : Type 0) : Type 0 where
  pub opened : Bool
  pub read : Bool
  pub unmarshalled : Option Config
  pub sub : String → Option C

pub record Flags : Type 0 where
  pub version : Bool
  pub config_file : String
  pub log_level : String
  pub check_config : Bool

-- Why NewManager has no module.
pub data CreateError : Type 0 where
  missing_configuration : String → CreateError
  factory_error : FactoryError → CreateError

-- How main ends before its loop.
pub data Exit : Type 0 where
  version_shown : Exit
  no_config_file : Exit
  invalid_log_level : Exit
  config_not_loaded : Exit
  pipeline_not_made : PipelineError CreateError → Exit
  config_is_valid : Exit
  liveness_not_made : Exit
  readiness_not_made : Exit
  metrics_not_registered : Exit
  pipeline_not_started : Exit

abbrev pub exit_code : Exit → ℕ
exit_code version_shown = 0
exit_code no_config_file = 1
exit_code invalid_log_level = 1
exit_code config_not_loaded = 1
exit_code (pipeline_not_made e) = 1
exit_code config_is_valid = 0
exit_code liveness_not_made = 1
exit_code readiness_not_made = 1
exit_code metrics_not_registered = 1
exit_code pipeline_not_started = 1

-- What main has when its loop begins.
pub record Running (L : Type 0) : Type 0 where
  pub config : Config
  pub pipeline : List PipelineItem
  pub liveness : Prober L
  pub readiness : Prober L

-- An error where the test fails.
abbrev pub ensure : Bool → Exit → Result Exit (Unit {0})
ensure true e = ok tt
ensure false e = err e

abbrev pub required : {A : Type 0} → Option A → Exit → Result Exit A
required none e = err e
required (some a) e = ok a

-- The log level: that of the environment, where it is set.
abbrev pub log_level_of : Flags → Option String → String
log_level_of flags none = flags.log_level
log_level_of flags (some level) = level

abbrev pub started_pipeline : List PipelineItem → Result Exit (List PipelineItem)
started_pipeline pipeline = elim (start_pipeline {L = CreateError} pipeline) [
  | err e ↦ err pipeline_not_started
  | ok running ↦ ok running
]

module _ {C : Type 0} where
  -- LoadFromFile
  unfoldable pub load_from_file : Viper C → Option Config
  load_from_file viper =
      if not viper.opened then none else if not viper.read then none else viper.unmarshalled

  -- ModuleConfig
  unfoldable pub module_config : Viper C → String → Option C
  module_config viper module_name = viper.sub (concat "modules." module_name)

  -- newPipelineItem's configuration and module; `new_from` is NewFromViper of the named module, with
  -- its output channel.
  unfoldable pub create_module :
      Viper C → (String → C → Option ℕ) → String → Result CreateError Module
  create_module viper new_from name = elim (module_config viper name) [
    | none ↦ err (missing_configuration name)
    | some conf ↦ elim (module_factory (λ n. new_from n conf) name) [
      | err e ↦ err (factory_error e)
      | ok m ↦ ok m
    ]
  ]

  -- NewManager's part of main.
  abbrev pub made_pipeline :
      Viper C → (String → C → Option ℕ) → Config → Result Exit (List PipelineItem)
  made_pipeline viper new_from config =
      elim (new_manager (create_module viper new_from) config.pipeline) [
        | err e ↦ err (pipeline_not_made e)
        | ok pipeline ↦ ok pipeline
      ]

  -- main up to the test of check-config: the configuration and the pipeline.
  unfoldable pub configure :
      Flags
      → Option String
      → (String → Bool)
      → Viper C
      → (String → C → Option ℕ)
      → Result Exit (Config × List PipelineItem)
  configure flags env_log_level is_level viper new_from = do
    ensure (not flags.version) version_shown
    ensure (not (flags.config_file == "")) no_config_file
    ensure (is_level (log_level_of flags env_log_level)) invalid_log_level
    config ← required (load_from_file viper) config_not_loaded
    pipeline ← made_pipeline viper new_from config
    ensure (not flags.check_config) config_is_valid
    ok (config, pipeline)

module _ (reg : Registry) (to_snake : String → String) (exposed : Option Bool) {L : Type 0} where
  open reg use {R}

  -- main from there to its loop. `registered` is the registry behind the registration of the probes,
  -- and `initializing` the error that a new readiness probe has.
  unfoldable pub launch :
      Registration → Registration → L → R → Config → List PipelineItem → Result Exit (Running L)
  launch for_liveness for_readiness initializing registered config pipeline = do
    liveness ← required (new_liveness for_liveness) liveness_not_made
    readiness ← required (new_readiness initializing for_readiness) readiness_not_made
    ensure
        (is_some (
          register_prometheus_metrics reg to_snake (metrics_of exposed) "slo_exporter_" registered
            pipeline))
        metrics_not_registered
    running ← started_pipeline pipeline
    ok (record {
      config = config;
      pipeline = running;
      liveness = liveness;
      readiness = set_ok readiness;
    })
