-- ===== src/Command/Order.antt =====
-- The orders of modules that cmd/slo_exporter.go can run.
use slo_exporter.Prelude.{
  ℕ, String, ◌≡◌, refl, ◌∙◌, ap, sym, Bool, true, false, Option, none, some, List, [], ◌∷◌, ◌++◌,
  map, All, arith, Option-cases, inl, inr,
}
use slo_exporter.Prelude.Results.{ok, Result-cases}
use slo_exporter.Pipeline.{
  EventType, Module, PipelineItem, link_modules, last_pipeline_item, link_module_with_pipeline_end,
  add_module_to_pipeline_end, new_pipeline_item, build, new_manager,
}
use slo_exporter.Pipeline.Laws.{AreJoined, IsChain, link_modules-ok, new_manager-IsChain}
use slo_exporter.Command.{
  ModuleKind, tailer, prometheus_ingester, kafka_ingester, envoy_access_log_server,
  slo_event_producer, prometheus_exporter, kind_of, ingests_of, produces_of, module_factory,
  module_with, FactoryError,
}

-- The modules that read events from outside.
abbrev pub is_source : ModuleKind → Bool
is_source tailer = true
is_source prometheus_ingester = true
is_source kafka_ingester = true
is_source envoy_access_log_server = true
is_source _ = false

abbrev pub is_exporter : ModuleKind → Bool
is_exporter prometheus_exporter = true
is_exporter _ = false

abbrev pub is_slo_producer : ModuleKind → Bool
is_slo_producer slo_event_producer = true
is_slo_producer _ = false

-- No source and nothing behind the exporter, which stands exactly behind the SLO event producer.
abbrev pub Follow : ModuleKind → List ModuleKind → Type 0
Follow k [] = Unit
Follow k (l ∷ rest) =
    (is_source l ≡ false)
    × (is_exporter k ≡ false)
    × (is_exporter l ≡ is_slo_producer k)
    × Follow l rest

abbrev pub IsFlow : List ModuleKind → Type 0
IsFlow [] = Unit
IsFlow (k ∷ rest) = (is_source k ≡ true) × Follow k rest

source_lem : (k : ModuleKind) → ingests_of k ≡ none → is_source k ≡ true
unfolding ingests_of
source_lem k e = ground arith

joined_lem :
    (k l : ModuleKind) (t : EventType)
    → produces_of k ≡ some t
    → ingests_of l ≡ some t
    → (is_source l ≡ false) × (is_exporter k ≡ false) × (is_exporter l ≡ is_slo_producer k)
unfolding ingests_of produces_of
joined_lem k l t p i = ground arith

-- An item with a module that the factory made.
abbrev IsMade : PipelineItem → Type 0
IsMade i =
    (k : ModuleKind) × (kind_of i.name ≡ some k)
    × (i.module_of.ingests ≡ ingests_of k)
    × (i.module_of.produces ≡ produces_of k)

module_factory-IsMade :
    (configured : String → Option ℕ) (name : String) (m : Module)
    → module_factory configured name ≡ ok m
    → IsMade (record { name = name; module_of = m })
unfolding module_factory
module_factory-IsMade configured name m e = elim (Option-cases (kind_of name)) [
  | inl unknown ↦ absurd (ground arith)
  | inr (k, known) ↦ elim (Option-cases (configured name)) [
    | inl failed ↦ absurd (ground arith)
    | inr (channel, made) ↦
        let same : module_with k channel ≡ m = ground arith in
        (k, known, rw (← same) refl, rw (← same) refl)
  ]
]

-- Linking changes the input channel only.
linked_same :
    (L : Type 0) (pipeline : List PipelineItem) (n m : Module)
    → link_module_with_pipeline_end {L = L} pipeline n ≡ ok m
    → (m.ingests ≡ n.ingests) × (m.produces ≡ n.produces)
unfolding link_module_with_pipeline_end
linked_same L pipeline n m e = elim (Option-cases (last_pipeline_item pipeline)) [
  | inl empty ↦ let same : n ≡ m = ground arith in (rw same refl, rw same refl)
  | inr (l, last) ↦
      let linked : link_modules {L = L} l.module_of n ≡ ok m = ground arith in
      let (t, produced, ingested, same) = link_modules-ok L l.module_of n m linked in
      rw same (refl, refl)
]

All-snoc :
    (P : PipelineItem → Type 0) (items : List PipelineItem) (i : PipelineItem)
    → All P items
    → P i
    → All P (items ++ i ∷ [])
All-snoc P [] i h p = (p, tt)
All-snoc P (j ∷ items) i h p = (h.0, All-snoc P items i h.1 p)

add-IsMade :
    (L : Type 0) (pipeline : List PipelineItem) (item : PipelineItem) (longer : List PipelineItem)
    → All IsMade pipeline
    → IsMade item
    → add_module_to_pipeline_end {L = L} pipeline item ≡ ok longer
    → All IsMade longer
unfolding add_module_to_pipeline_end
add-IsMade L pipeline item longer h made e =
    elim (Result-cases (link_module_with_pipeline_end {L = L} pipeline item.module_of)) [
      | inr (x, refused) ↦ absurd (ground arith)
      | inl (m, linked) ↦
          let same_module = linked_same L pipeline item.module_of m linked in
          let last : PipelineItem = record { name = item.name; module_of = m } in
          let same : pipeline ++ last ∷ [] ≡ longer = ground arith in
          let last_made : IsMade last =
            (made.0, made.1, same_module.0 ∙ made.2, same_module.1 ∙ made.3) in
          rw (← same) (All-snoc IsMade pipeline last h last_made)
    ]

build-IsMade :
    (configured : String → Option ℕ) (names : List String) (pipeline built : List PipelineItem)
    → All IsMade pipeline
    → build (module_factory configured) pipeline names ≡ ok built
    → All IsMade built
unfolding build new_pipeline_item
build-IsMade configured [] pipeline built h e =
    let same : pipeline ≡ built = ground arith in rw (← same) h
build-IsMade configured (name ∷ names) pipeline built h e =
    elim (Result-cases (module_factory configured name)) [
      | inr (x, failed) ↦ absurd (ground arith)
      | inl (m, created) ↦
          let item : PipelineItem = record { name = name; module_of = m } in
          elim (Result-cases (add_module_to_pipeline_end {L = FactoryError} pipeline item)) [
            | inr (x, refused) ↦ absurd (ground arith)
            | inl (longer, added) ↦
                let made =
                  add-IsMade FactoryError pipeline item longer h
                    (module_factory-IsMade configured name m created) added in
                let rest : build (module_factory configured) longer names ≡ ok built =
                  ground arith in
                build-IsMade configured names longer built made rest
          ]
    ]

kinds_of : (items : List PipelineItem) → All IsMade items → List ModuleKind
kinds_of [] h = []
kinds_of (i ∷ items) h = h.0.0 ∷ kinds_of items h.1

kinds_of-names :
    (items : List PipelineItem) (h : All IsMade items)
    → map kind_of (map (λ (i : PipelineItem). i.name) items) ≡ map some (kinds_of items h)
unfolding kinds_of
kinds_of-names [] h = refl
kinds_of-names (i ∷ items) h = rw (h.0.1) (ap (◌∷◌ (some h.0.0)) (kinds_of-names items h.1))

kinds_of-Follow :
    (i : PipelineItem) (made : IsMade i) (items : List PipelineItem) (h : All IsMade items)
    → AreJoined i items
    → Follow made.0 (kinds_of items h)
unfolding kinds_of
kinds_of-Follow i made [] h joined = tt
kinds_of-Follow i made (j ∷ items) h joined =
    let link = joined.0 in
    let ends =
      joined_lem made.0 h.0.0 link.event_type (sym made.3 ∙ link.produced)
        (sym h.0.2 ∙ link.ingested) in
    (ends.0, ends.1, ends.2, kinds_of-Follow j h.0 items h.1 joined.1)

kinds_of-IsFlow :
    (items : List PipelineItem) (h : All IsMade items) → IsChain items → IsFlow (kinds_of items h)
unfolding kinds_of
kinds_of-IsFlow [] h chain = tt
kinds_of-IsFlow (i ∷ items) h chain =
    (source_lem h.0.0 (sym h.0.2 ∙ chain.0), kinds_of-Follow i h.0 items h.1 chain.1)

-- A pipeline that the manager makes of the program's modules has known names only. Its first module
-- is one of those that read events from outside, and no other one is; nothing stands behind
-- the Prometheus exporter; and a module is the exporter exactly when the one before it is the SLO
-- event producer.
pub new_manager-IsFlow :
    (configured : String → Option ℕ) (names : List String) (pipeline : List PipelineItem)
    → new_manager (module_factory configured) names ≡ ok pipeline
    → (kinds : List ModuleKind) × (map kind_of names ≡ map some kinds) × IsFlow kinds
unfolding new_manager
new_manager-IsFlow configured names pipeline e =
    let (chain, named) =
      new_manager-IsChain FactoryError (module_factory configured) names pipeline e in
    let made = build-IsMade configured names [] pipeline tt e in
    (
      kinds_of pipeline made,
      ap (map kind_of) (sym named) ∙ kinds_of-names pipeline made,
      kinds_of-IsFlow pipeline made chain,
    )
