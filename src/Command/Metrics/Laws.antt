-- ===== src/Command/Metrics/Laws.antt =====
-- No module can stand in a running pipeline twice.
use slo_exporter.Prelude.{
  String, ◌≡◌, refl, Bool, true, false, ◌||◌, ◌==◌, eq_iff, eq_refl, Option, none, some, List, [],
  ◌∷◌, ◌++◌, map, contains, concat, is_some, arith, All, Bool-cases, inl, inr,
}
use slo_exporter.Pipeline.{PipelineItem}
use slo_exporter.Pipeline.Metrics.{Registry, wrapped, register_prometheus_metrics}
use slo_exporter.Pipeline.Metrics.Laws.{IsFresh, names_of, register_prometheus_metrics_iff}
use slo_exporter.Command.{ModuleKind, tailer, slo_event_producer, kind_of}
use slo_exporter.Command.Metrics.{metrics_of_kind, metrics_of}

-- No text is in the list twice.
abbrev pub AreDistinct : List String → Type 0
AreDistinct [] = Unit
AreDistinct (n ∷ ns) = (contains n ns ≡ false) × AreDistinct ns

-- A module of the program.
abbrev pub IsKnown : PipelineItem → Type 0
IsKnown item = (k : ModuleKind) × (kind_of item.name ≡ some k)

contains-append :
    (k : String) (xs ys : List String) → contains k (xs ++ ys) ≡ (contains k xs || contains k ys)
contains-append k [] ys = refl
contains-append k (x ∷ xs) ys = ground (arith, contains-append k xs ys)

-- The first metric that a module registers.
first_of_kind :
    (exposed : Option Bool) (k : ModuleKind)
    → (n : String) × (rest : List String) × ((metrics_of_kind exposed k).names ≡ n ∷ rest)
unfolding metrics_of_kind
first_of_kind exposed tailer = (_, _, refl)
first_of_kind none slo_event_producer = (_, _, refl)
first_of_kind (some made) slo_event_producer = (_, _, refl)
first_of_kind exposed _ = (_, _, refl)

module _ (reg : Registry) (to_snake : String → String) (exposed : Option Bool)
    (prefix : String) where
  open reg use {R}

  abbrev names : List PipelineItem → List String
  names = names_of reg to_snake (metrics_of exposed) prefix

  abbrev full : String → List String → List String
  full = wrapped reg to_snake (metrics_of exposed) prefix

  IsFresh-right : (xs ys : List String) (r : R) → IsFresh reg r (xs ++ ys) → IsFresh reg r ys
  IsFresh-right [] ys r h = h
  IsFresh-right (x ∷ xs) ys r h = IsFresh-right xs ys r h.2

  abbrev full_name : String → String → String
  full_name name n = concat prefix (concat (to_snake name) (concat "_" n))

  names_step :
      (k : ModuleKind) (item : PipelineItem) (items : List PipelineItem)
      → kind_of item.name ≡ some k
      → names (item ∷ items) ≡ full item.name (metrics_of_kind exposed k).names ++ names items
  unfolding metrics_of
  names_step k item items known = rw (known, names_of, metrics_of) refl

  -- A name among the names of the later modules.
  later_registered :
      (item : PipelineItem) (items : List PipelineItem) (n : String)
      → IsKnown item
      → contains n (names items) ≡ true
      → contains n (names (item ∷ items)) ≡ true
  later_registered item items n (k, known) there =
      let fs = full item.name (metrics_of_kind exposed k).names in
      rw (names_step k item items known) (ground (arith, contains-append n fs (names items)))

  -- A module that stands in the pipeline has its first metric among the names.
  first_registered :
      (k : ModuleKind) (name first : String) (rest : List String) (items : List PipelineItem)
      → kind_of name ≡ some k
      → (metrics_of_kind exposed k).names ≡ first ∷ rest
      → All IsKnown items
      → contains name (map (λ (i : PipelineItem). i.name) items) ≡ true
      → contains (full_name name first) (names items) ≡ true
  unfolding wrapped
  first_registered k name first rest [] known fs h there = cc
  first_registered k name first rest (item ∷ items) known fs h there =
      elim (Bool-cases (item.name == name)) [
        | inl same ↦
            let e : item.name ≡ name = (eq_iff item.name name).0 same in
            rw (names_step k item items (rw e known), fs, e, eq_refl) refl
        | inr other ↦
            later_registered item items (full_name name first) h.0
              (first_registered k name first rest items known fs h.1 (ground arith))
      ]

  fresh-distinct :
      (items : List PipelineItem) (r : R)
      → All IsKnown items
      → IsFresh reg r (names items)
      → AreDistinct (map (λ (i : PipelineItem). i.name) items)
  unfolding wrapped
  fresh-distinct [] r h fresh = tt
  fresh-distinct (item ∷ items) r ((k, known), h) fresh =
      let (first, rest, fs) = first_of_kind exposed k in
      let step = names_step k item items known in
      let fresh' : IsFresh reg r (full item.name (first ∷ rest) ++ names items) =
        rw (step, fs) at fresh in
      let later = IsFresh-right (full item.name (first ∷ rest)) (names items) r fresh' in
      let absent : contains item.name (map (λ (i : PipelineItem). i.name) items) ≡ false =
        elim (Bool-cases (contains item.name (map (λ (i : PipelineItem). i.name) items))) [
          | inr absent ↦ absent
          | inl there ↦ absurd (
              ground (
                arith,
                fresh'.1,
                first_registered k item.name first rest items known fs h there,
                contains-append (full_name item.name first) (full item.name rest) (names items),
              ))
        ] in
      (absent, fresh-distinct items r h later)

  -- A pipeline whose metrics are registered has no module twice.
  pub registered-AreDistinct :
      (items : List PipelineItem) (r : R)
      → All IsKnown items
      → is_some (register_prometheus_metrics reg to_snake (metrics_of exposed) prefix r items)
        ≡ true
      → AreDistinct (map (λ (i : PipelineItem). i.name) items)
  registered-AreDistinct items r h e =
      fresh-distinct items r h
        ((register_prometheus_metrics_iff reg to_snake (metrics_of exposed) prefix items r).0 e).1.2
