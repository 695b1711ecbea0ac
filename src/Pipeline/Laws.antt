-- ===== src/Pipeline/Laws.antt =====
-- The pipelines that the manager of pkg/pipeline/manager.go builds.
use mathlib.Core.List.{map-append, append_assoc, append-nil}
use slo_exporter.Prelude.{
  String, ◌≡◌, ap, ◌∙◌, sym, ◌↔◌, refl, true, Option, none, some, List, [], ◌∷◌, ◌++◌, map, is_some,
  Bool-cases, Option-cases, inl, inr, arith, All,
}
use slo_exporter.Prelude.Results.{Result, ok, err, Result-cases}
use slo_exporter.Pipeline.{
  EventType, raw, slo, Module, PipelineItem, PipelineError, is_producer, is_ingester,
  set_input_channel, link_types, link_modules, last_pipeline_item, link_module_with_pipeline_end,
  add_module_to_pipeline_end, new_pipeline_item, build, new_manager, pipeline_done,
}

-- The next module reads the channel of the previous one, and they agree on the type of events.
pub record IsJoined (previous next : Module) : Type 0 where
  pub event_type : EventType
  pub produced : previous.produces ≡ some event_type
  pub ingested : next.ingests ≡ some event_type
  pub connected : next.input_channel ≡ some previous.output_channel

-- Every item is joined to the one behind it.
abbrev pub AreJoined : PipelineItem → List PipelineItem → Type 0
AreJoined i [] = Unit
AreJoined i (j ∷ rest) = IsJoined i.module_of j.module_of × AreJoined j rest

-- The first module is no ingester, and every other reads from the one before it.
abbrev pub IsChain : List PipelineItem → Type 0
IsChain [] = Unit
IsChain (i ∷ rest) = (i.module_of.ingests ≡ none) × AreJoined i rest

-- What a link of the two types takes: they are the same.
link_types-ok :
    (L : Type 0) (p n : Module) (tp ti : Option EventType) (m : Module)
    → is_some tp ≡ true
    → link_types {L = L} p n tp ti ≡ ok m
    → (t : EventType) × (tp ≡ some t) × (ti ≡ some t) × (m ≡ set_input_channel n p.output_channel)
link_types-ok L p n none ti m h e = absurd (cc h)
link_types-ok L p n (some t) none m h e = absurd (cc e)
link_types-ok L p n (some raw) (some slo) m h e = absurd (cc e)
link_types-ok L p n (some slo) (some raw) m h e = absurd (cc e)
link_types-ok L p n (some raw) (some raw) m h e = (raw, refl, refl, cc)
link_types-ok L p n (some slo) (some slo) m h e = (slo, refl, refl, cc)

pub link_modules-ok :
    (L : Type 0) (p n m : Module)
    → link_modules {L = L} p n ≡ ok m
    → (t : EventType) × (p.produces ≡ some t)
      × (n.ingests ≡ some t)
      × (m ≡ set_input_channel n p.output_channel)
unfolding link_modules is_producer
link_modules-ok L p n m e = elim (Bool-cases (is_some p.produces)) [
  | inr no_producer ↦ absurd (ground arith)
  | inl producer ↦ elim (Bool-cases (is_ingester n)) [
    | inr no_ingester ↦ absurd (ground arith)
    | inl ingester ↦
        let linked : link_types {L = L} p n p.produces n.ingests ≡ ok m = ground arith in
        link_types-ok L p n p.produces n.ingests m producer linked
  ]
]

link_types_same :
    (L : Type 0) (p n : Module) (t : EventType)
    → link_types {L = L} p n (some t) (some t) ≡ ok (set_input_channel n p.output_channel)
link_types_same L p n raw = refl
link_types_same L p n slo = refl

joined-links :
    (L : Type 0) (p n : Module) (t : EventType)
    → p.produces ≡ some t
    → n.ingests ≡ some t
    → link_modules {L = L} p n ≡ ok (set_input_channel n p.output_channel)
unfolding link_modules is_producer is_ingester
joined-links L p n t produced ingested = ground (arith, link_types_same L p n t)

-- Two modules are linked exactly when the first produces and the second ingests events of one type;
-- the link then sets the second one's input channel to the first one's output channel.
pub link_modules_iff :
    (L : Type 0) (p n m : Module)
    → (link_modules {L = L} p n ≡ ok m) ↔ (
        (t : EventType) × (p.produces ≡ some t)
        × (n.ingests ≡ some t)
        × (m ≡ set_input_channel n p.output_channel))
link_modules_iff L p n m =
    (link_modules-ok L p n m, (λ w. joined-links L p n w.0 w.1 w.2 ∙ ap ok (sym w.3)))

link_modules-IsJoined :
    (L : Type 0) (p n m : Module) → link_modules {L = L} p n ≡ ok m → IsJoined p m
link_modules-IsJoined L p n m e =
    let (t, produced, ingested, set) = link_modules-ok L p n m e in
    rw set (record { event_type = t; produced = produced; ingested = ingested; connected = refl })

AreJoined-snoc :
    (i : PipelineItem) (rest : List PipelineItem) (l j : PipelineItem)
    → AreJoined i rest
    → last_pipeline_item (i ∷ rest) ≡ some l
    → IsJoined l.module_of j.module_of
    → AreJoined i (rest ++ j ∷ [])
unfolding last_pipeline_item
AreJoined-snoc i [] l j h last joined = let same : i ≡ l = cc in (rw same joined, tt)
AreJoined-snoc i (k ∷ rest) l j h last joined = (h.0, AreJoined-snoc k rest l j h.1 last joined)

last_of_cons :
    (i : PipelineItem) (rest : List PipelineItem)
    → (l : PipelineItem) × (last_pipeline_item (i ∷ rest) ≡ some l)
unfolding last_pipeline_item
last_of_cons i [] = (i, refl)
last_of_cons i (j ∷ rest) = last_of_cons j rest

link_end-IsChain :
    (L : Type 0) (pipeline : List PipelineItem) (name : String) (n m : Module)
    → IsChain pipeline
    → link_module_with_pipeline_end {L = L} pipeline n ≡ ok m
    → IsChain (pipeline ++ record { name = name; module_of = m } ∷ [])
unfolding link_module_with_pipeline_end is_ingester last_pipeline_item
link_end-IsChain L [] name n m h e = elim (Option-cases n.ingests) [
  | inl no_ingester ↦ let same : n ≡ m = ground arith in (rw (← same) no_ingester, tt)
  | inr (t, ingester) ↦ absurd (ground arith)
]
link_end-IsChain L (i ∷ rest) name n m h e =
    let (l, last) = last_of_cons i rest in
    let linked : link_modules {L = L} l.module_of n ≡ ok m = ground arith in
    (
      h.0,
      AreJoined-snoc i rest l (record { name = name; module_of = m }) h.1 last
          (link_modules-IsJoined L l.module_of n m linked),
    )

names_of : List PipelineItem → List String
names_of pipeline = map (λ (i : PipelineItem). i.name) pipeline

add_module-IsChain :
    (L : Type 0) (pipeline : List PipelineItem) (item : PipelineItem) (longer : List PipelineItem)
    → IsChain pipeline
    → add_module_to_pipeline_end {L = L} pipeline item ≡ ok longer
    → IsChain longer × (names_of longer ≡ names_of pipeline ++ item.name ∷ [])
unfolding add_module_to_pipeline_end names_of
add_module-IsChain L pipeline item longer h e =
    by_outcome (link_module_with_pipeline_end {L = L} pipeline item.module_of) refl e
  where
    by_outcome :
        (r : Result (PipelineError L) Module)
        → link_module_with_pipeline_end {L = L} pipeline item.module_of ≡ r
        → (elim r [
          | err x ↦ err x
          | ok linked ↦ ok (pipeline ++ record { name = item.name; module_of = linked } ∷ [])
        ])
          ≡ ok longer
        → IsChain longer × (names_of longer ≡ names_of pipeline ++ item.name ∷ [])
    by_outcome (err x) linked e = absurd (cc e)
    by_outcome (ok m) linked e =
        let same : pipeline ++ record { name = item.name; module_of = m } ∷ [] ≡ longer = cc in
        rw (← same)
          (link_end-IsChain L pipeline item.name item.module_of m h linked, map-append _ pipeline _)

build-IsChain :
    (L : Type 0) (create : String → Result L Module) (names : List String)
    → (pipeline built : List PipelineItem) → IsChain pipeline
    → build create pipeline names ≡ ok built
    → IsChain built × (names_of built ≡ names_of pipeline ++ names)
unfolding build new_pipeline_item
build-IsChain L create [] pipeline built h e =
    let same : pipeline ≡ built = cc in rw (← same, append-nil) (h, refl)
build-IsChain L create (name ∷ names) pipeline built h e = elim (Result-cases (create name)) [
  | inr (x, failed) ↦ absurd (ground arith)
  | inl (m, created) ↦
      let item : PipelineItem = record { name = name; module_of = m } in
      elim (Result-cases (add_module_to_pipeline_end {L = L} pipeline item)) [
        | inr (x, refused) ↦ absurd (ground arith)
        | inl (longer, added) ↦
            let (chain, named) = add_module-IsChain L pipeline item longer h added in
            let rest : build create longer names ≡ ok built = ground arith in
            let (built_chain, built_named) = build-IsChain L create names longer built chain rest in
            (
              built_chain,
              built_named
                  ∙ ap (λ (l : List String). l ++ names) named
                  ∙ append_assoc (names_of pipeline) (name ∷ []) names,
            )
      ]
]

-- A manager that is made has the configured modules in their order, its first module ingests nothing,
-- and every other module reads the channel that the one before it produces its events on.
pub new_manager-IsChain :
    (L : Type 0) (create : String → Result L Module) (names : List String)
    → (pipeline : List PipelineItem) → new_manager create names ≡ ok pipeline
    → IsChain pipeline × (map (λ (i : PipelineItem). i.name) pipeline ≡ names)
unfolding new_manager names_of
new_manager-IsChain L create names pipeline e = build-IsChain L create names [] pipeline tt e

-- The pipeline is done exactly when all its modules are.
pub pipeline_done_iff :
    (pipeline : List PipelineItem)
    → (pipeline_done pipeline ≡ true) ↔ All (λ (i : PipelineItem). i.module_of.done ≡ true) pipeline
unfolding pipeline_done
pipeline_done_iff [] = ((λ _. tt), (λ _. refl))
pipeline_done_iff (i ∷ rest) = ground (arith, pipeline_done_iff rest)
