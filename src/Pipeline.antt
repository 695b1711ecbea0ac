-- ===== src/Pipeline.antt =====
-- The manager of pkg/pipeline/manager.go with the module interfaces of module.go. What Run, Stop and
-- Done of a module do is the module's own; here they set or read a flag. Logs, web handlers and the
-- registration of metrics are not modelled.
pub mod Laws
pub mod Network
pub mod Metrics
use slo_exporter.Prelude.{
  ℕ, zero, suc, ◌+◌, String, Bool, true, false, not, Option, none, some, List, [], ◌∷◌, ◌++◌, map,
  is_some, nat_eq, length, if◌then◌else◌,
}
use slo_exporter.Prelude.Results.{Result, ok, err}

pub data EventType : Type 0 where
  raw : EventType
  slo : EventType

-- A module with the interfaces that it implements. SetInputChannel has one parameter type, so a
-- module ingests events of one type at most, and OutputChannel one result type. A channel is a number.
pub record Module : Type 0 where
  pub ingests : Option EventType
  pub produces : Option EventType
  pub input_channel : Option ℕ
  pub output_channel : ℕ
  pub running : Bool
  pub stopping : Bool
  pub done : Bool

pub record PipelineItem : Type 0 where
  pub name : String
  pub module_of : Module

pub data PipelineError (L : Type 0) : Type 0 where
  not_created : L → PipelineError L
  ingester_at_beginning : PipelineError L
  not_a_producer : PipelineError L
  not_an_ingester : PipelineError L
  other_event_type : PipelineError L
  empty_pipeline : PipelineError L

unfoldable pub is_producer : Module → Bool
is_producer m = is_some m.produces

unfoldable pub is_ingester : Module → Bool
is_ingester m = is_some m.ingests

abbrev pub same_type : EventType → EventType → Bool
same_type raw raw = true
same_type raw slo = false
same_type slo raw = false
same_type slo slo = true

-- SetInputChannel
abbrev pub set_input_channel : Module → ℕ → Module
set_input_channel m channel = record m { input_channel = some channel }

-- The type switch of linkModules.
abbrev pub link_types :
    {L : Type 0}
    → Module
    → Module
    → Option EventType
    → Option EventType
    → Result (PipelineError L) Module
link_types previous next none i = ok next
link_types previous next (some p) none = err other_event_type
link_types previous next (some p) (some i) =
    if same_type p i
    then ok (set_input_channel next previous.output_channel)
    else err other_event_type

-- linkModules: the next module with its input channel set.
unfoldable pub link_modules : {L : Type 0} → Module → Module → Result (PipelineError L) Module
link_modules previous next =
    if not (is_producer previous)
    then err not_a_producer
    else if not (is_ingester next)
    then err not_an_ingester
    else link_types previous next previous.produces next.ingests

-- lastPipelineItem, with `none` for an empty pipeline
unfoldable pub last_pipeline_item : List PipelineItem → Option PipelineItem
last_pipeline_item [] = none
last_pipeline_item (i ∷ []) = some i
last_pipeline_item (i ∷ j ∷ rest) = last_pipeline_item (j ∷ rest)

unfoldable pub link_module_with_pipeline_end :
    {L : Type 0} → List PipelineItem → Module → Result (PipelineError L) Module
link_module_with_pipeline_end pipeline next = elim (last_pipeline_item pipeline) [
  | none ↦ if is_ingester next then err ingester_at_beginning else ok next
  | some previous ↦ link_modules previous.module_of next
]

unfoldable pub add_module_to_pipeline_end :
    {L : Type 0} → List PipelineItem → PipelineItem → Result (PipelineError L) (List PipelineItem)
add_module_to_pipeline_end pipeline item =
    elim (link_module_with_pipeline_end pipeline item.module_of) [
      | err e ↦ err e
      | ok linked ↦ ok (pipeline ++ record { name = item.name; module_of = linked } ∷ [])
    ]

module _ {L : Type 0} (create : String → Result L Module) where
  -- newPipelineItem, with `create` for the configuration and the factory of a module
  unfoldable pub new_pipeline_item : String → Result (PipelineError L) PipelineItem
  new_pipeline_item name = elim (create name) [
    | err e ↦ err (not_created e)
    | ok m ↦ ok (record { name = name; module_of = m })
  ]

  -- The loop of NewManager.
  unfoldable pub build :
      List PipelineItem → List String → Result (PipelineError L) (List PipelineItem)
  build pipeline [] = ok pipeline
  build pipeline (name ∷ names) = elim (new_pipeline_item name) [
    | err e ↦ err e
    | ok item ↦ elim (add_module_to_pipeline_end pipeline item) [
      | err e ↦ err e
      | ok longer ↦ build longer names
    ]
  ]

  unfoldable pub new_manager : List String → Result (PipelineError L) (List PipelineItem)
  new_manager names = build [] names

-- module.Run()
abbrev pub run_item : PipelineItem → PipelineItem
run_item i = record i { module_of = record (i.module_of) { running = true } }

unfoldable pub start_pipeline :
    {L : Type 0} → List PipelineItem → Result (PipelineError L) (List PipelineItem)
start_pipeline [] = err empty_pipeline
start_pipeline (i ∷ rest) = ok (run_item i ∷ map run_item rest)

-- StopPipeline, up to its loop: `m.pipeline[0]` of an empty pipeline panics.
unfoldable pub stop_pipeline : List PipelineItem → Option (List PipelineItem)
stop_pipeline [] = none
stop_pipeline (i ∷ rest) =
    some (record i { module_of = record (i.module_of) { stopping = true } } ∷ rest)

-- (*Manager).Done
unfoldable pub pipeline_done : List PipelineItem → Bool
pipeline_done [] = true
pipeline_done (i ∷ rest) =
    let later = pipeline_done rest in if not i.module_of.done then false else later
