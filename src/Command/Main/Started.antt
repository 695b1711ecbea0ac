-- ===== src/Command/Main/Started.antt =====
-- What runs when the loop of main begins.
use slo_exporter.Prelude.{
  ℕ, String, ◌≡◌, refl, ap, ◌∙◌, Bool, true, Option, none, some, List, [], ◌∷◌, map, is_some, arith,
  All, inl, inr,
}
use slo_exporter.Prelude.Results.{Result, ok, Result-cases}
use slo_exporter.Pipeline.{
  Module, PipelineItem, link_module_with_pipeline_end, link_modules, add_module_to_pipeline_end,
  new_pipeline_item, build, new_manager, run_item, start_pipeline,
}
use slo_exporter.Pipeline.Laws.{new_manager-IsChain}
use slo_exporter.Pipeline.Metrics.{Registry, register_prometheus_metrics}
use slo_exporter.Prober.{
  Registration, handle_func, is_ok, set_ok, set_status, not_ok, new_prober, new_liveness,
  new_readiness,
}
use slo_exporter.Command.{ModuleKind, FactoryError, kind_of, module_factory}
use slo_exporter.Command.Order.{IsFlow, new_manager-IsFlow}
use slo_exporter.Command.Metrics.{metrics_of}
use slo_exporter.Command.Metrics.Laws.{AreDistinct, IsKnown, registered-AreDistinct}
use slo_exporter.Command.Main.Laws.{configure_ok}
use slo_exporter.Command.Main.{
  Config, Viper, Flags, configure, CreateError, Running, module_config, create_module, launch,
}

-- Linking does not depend on the errors that there may be otherwise.
link_same :
    (K L : Type 0) (pipeline : List PipelineItem) (n m : Module)
    → link_module_with_pipeline_end {L = K} pipeline n ≡ ok m
    → link_module_with_pipeline_end {L = L} pipeline n ≡ ok m
unfolding link_module_with_pipeline_end link_modules
link_same K L pipeline n m e = ground arith

add_same :
    (K L : Type 0) (pipeline : List PipelineItem) (item : PipelineItem) (longer : List PipelineItem)
    → add_module_to_pipeline_end {L = K} pipeline item ≡ ok longer
    → add_module_to_pipeline_end {L = L} pipeline item ≡ ok longer
unfolding add_module_to_pipeline_end
add_same K L pipeline item longer e =
    elim (Result-cases (link_module_with_pipeline_end {L = K} pipeline item.module_of)) [
      | inl (m, linked) ↦ ground (arith, link_same K L pipeline item.module_of m linked)
      | inr (x, refused) ↦ absurd (ground arith)
    ]

build_same :
    (K L : Type 0) (create : String → Result K Module) (create' : String → Result L Module)
    → ((name : String) (m : Module) → create name ≡ ok m → create' name ≡ ok m)
    → (names : List String) (pipeline built : List PipelineItem)
    → build create pipeline names ≡ ok built
    → build create' pipeline names ≡ ok built
unfolding build new_pipeline_item
build_same K L create create' same [] pipeline built e = ground arith
build_same K L create create' same (name ∷ names) pipeline built e =
    elim (Result-cases (create name)) [
      | inr (x, failed) ↦ absurd (ground arith)
      | inl (m, made) ↦
          let item : PipelineItem = record { name = name; module_of = m } in
          elim (Result-cases (add_module_to_pipeline_end {L = K} pipeline item)) [
            | inr (x, refused) ↦ absurd (ground arith)
            | inl (longer, added) ↦ ground (
              arith,
              same name m made,
              add_same K L pipeline item longer added,
              build_same K L create create' same names longer built (ground arith),
            )
          ]
    ]

-- The channel of a module whose configuration is there.
abbrev configured : {C : Type 0} → Viper C → (String → C → Option ℕ) → String → Option ℕ
configured viper new_from name = elim (module_config viper name) [
  | none ↦ none
  | some conf ↦ new_from name conf
]

create_module-factory :
    {C : Type 0} (viper : Viper C) (new_from : String → C → Option ℕ) (name : String) (m : Module)
    → create_module viper new_from name ≡ ok m
    → module_factory (configured viper new_from) name ≡ ok m
unfolding create_module module_factory
create_module-factory viper new_from name m e = ground arith

names_of_run :
    (items : List PipelineItem)
    → map (λ (i : PipelineItem). i.name) (map run_item items)
      ≡ map (λ (i : PipelineItem). i.name) items
names_of_run [] = refl
names_of_run (i ∷ items) = ap (◌∷◌ i.name) (names_of_run items)

All-run : (items : List PipelineItem) → All (λ i. i.module_of.running ≡ true) (map run_item items)
All-run [] = tt
All-run (i ∷ items) = (refl, All-run items)

start_pipeline-ok :
    (items running : List PipelineItem)
    → start_pipeline {L = CreateError} items ≡ ok running
    → running ≡ map run_item items
unfolding start_pipeline
start_pipeline-ok [] running e = cc
start_pipeline-ok (i ∷ items) running e = ground arith

kinds-IsKnown :
    (items : List PipelineItem) (kinds : List ModuleKind)
    → map kind_of (map (λ (i : PipelineItem). i.name) items) ≡ map some kinds
    → All IsKnown items
kinds-IsKnown [] kinds e = tt
kinds-IsKnown (i ∷ items) [] e = cc
kinds-IsKnown (i ∷ items) (k ∷ kinds) e =
    ((k, ground arith), kinds-IsKnown items kinds (ground arith))

module _ (reg : Registry) (to_snake : String → String) (exposed : Option Bool) {L : Type 0} where
  open reg use {R}

  -- What launch has been through.
  launch_ok :
      (for_liveness for_readiness : Registration) (initializing : L) (registered : R)
      (config : Config) (pipeline : List PipelineItem) (main : Running L)
      → launch reg to_snake exposed for_liveness for_readiness initializing registered config
          pipeline
        ≡ ok main
      → (is_some (
            register_prometheus_metrics reg to_snake
              (metrics_of exposed)
              "slo_exporter_"
              registered
              pipeline)
          ≡ true)
        × (main.pipeline ≡ map run_item pipeline)
        × ((handle_func main.liveness).code ≡ 200)
        × ((handle_func main.readiness).code ≡ 200)
  unfolding launch new_liveness new_readiness new_prober handle_func set_ok not_ok set_status is_ok
      start_pipeline
  launch_ok for_liveness for_readiness initializing registered config [] main e =
      absurd (ground arith)
  launch_ok for_liveness for_readiness initializing registered config (i ∷ items) main e =
      ground arith

  -- When the loop of main begins: the first of the configured modules is one of those that read events
  -- from outside and no other one is, nothing stands behind the Prometheus exporter, and a module is
  -- the exporter exactly when the one before it is the SLO event producer; no module is configured
  -- twice; the pipeline has the configured modules in their order, and all of them run; and both
  -- probes answer 200.
  pub main-started :
      {C : Type 0} (flags : Flags) (env_log_level : Option String) (is_level : String → Bool)
      (viper : Viper C) (new_from : String → C → Option ℕ)
      (for_liveness for_readiness : Registration) (initializing : L) (registered : R)
      (config : Config) (pipeline : List PipelineItem) (main : Running L)
      → configure flags env_log_level is_level viper new_from ≡ ok (config, pipeline)
      → launch reg to_snake exposed for_liveness for_readiness initializing registered config
          pipeline
        ≡ ok main
      → ((kinds : List ModuleKind) × (map kind_of config.pipeline ≡ map some kinds) × IsFlow kinds)
        × AreDistinct config.pipeline
        × (map (λ (i : PipelineItem). i.name) main.pipeline ≡ config.pipeline)
        × All (λ i. i.module_of.running ≡ true) main.pipeline
        × ((handle_func main.liveness).code ≡ 200)
        × ((handle_func main.readiness).code ≡ 200)
  unfolding new_manager
  main-started flags env_log_level is_level viper new_from for_liveness for_readiness initializing
        registered config pipeline main configured_so launched =
      let made : new_manager (create_module viper new_from) config.pipeline ≡ ok pipeline =
        ((configure_ok flags env_log_level is_level viper new_from config pipeline).0
          configured_so).2.5 in
      let (metrics, run, live, ready) =
        launch_ok for_liveness for_readiness initializing registered config pipeline main
          launched in
      let same =
        build_same CreateError FactoryError (create_module viper new_from)
          (module_factory (configured viper new_from)) (create_module-factory viper new_from)
          config.pipeline [] pipeline made in
      let flow = new_manager-IsFlow (configured viper new_from) config.pipeline pipeline same in
      let named =
        (new_manager-IsChain CreateError (create_module viper new_from) config.pipeline pipeline
          made).1 in
      let known = kinds-IsKnown pipeline flow.0 (ap (map kind_of) named ∙ flow.1) in
      (
        flow,
        rw named at (
            registered-AreDistinct reg to_snake exposed "slo_exporter_" pipeline registered known
              metrics),
        ap (map (λ (i : PipelineItem). i.name)) run ∙ names_of_run pipeline ∙ named,
        rw run (All-run pipeline),
        live,
        ready,
      )
