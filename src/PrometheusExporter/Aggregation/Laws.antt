-- ===== src/PrometheusExporter/Aggregation/Laws.antt =====
-- Every level of the cascade of pkg/prometheus_exporter/aggregating_counter.go sums up what was added.
use mathlib.Core.List.{map-append, append-nil, append_assoc}
use native.Mathlib.Numerals.{add-one}
use slo_exporter.Prelude.{
  ℕ, zero, suc, ◌+◌, String, ◌≡◌, refl, sym, ap, ◌∙◌, Option, none, List, [], ◌∷◌, map, arith,
  length, drop, All, ◌++◌,
}
use slo_exporter.Prelude.Dict.{lookup}
use slo_exporter.StringMap.{without}
use slo_exporter.Runtime.{Float64}
use slo_exporter.PrometheusExporter.Counter.{Addition, new_counter_vector}
use slo_exporter.PrometheusExporter.Counter.Laws.{shown, total, total-append, shown-add}
use slo_exporter.PrometheusExporter.Aggregation.{
  AggregatedCounterVector, new_vectors, new_aggregated_counter_vector_set, aggregated_add, set_add,
  set_add_all,
}

-- An addition as a level sees it.
abbrev pub at_level : {F T : Type 0} → List String → Addition F T → Addition F T
at_level labels_to_drop a = record a { labels = without a.labels labels_to_drop }

drop_tail :
    (i : ℕ) (labels : List String) (l : String) (rest : List String)
    → drop i labels ≡ l ∷ rest
    → drop (suc i) labels ≡ rest
drop_tail zero [] l rest h = cc
drop_tail zero (x ∷ xs) l rest h = ground arith
drop_tail (suc i) [] l rest h = cc
drop_tail (suc i) (x ∷ xs) l rest h = drop_tail i xs l rest h

module _ (fl : Float64) (max_runes : ℕ) (T : Type 0) where
  open fl use {F}

  -- A level shows, for each label text, the sum of what was added under it once the level's labels
  -- are dropped.
  abbrev pub IsLevel : List (Addition F T) → AggregatedCounterVector F T → Type 0
  IsLevel past v =
      (k : String)
      → shown fl max_runes v.vector.counters k
        ≡ total fl max_runes k none (map (at_level v.labels_to_drop) past)

  aggregated_add-IsLevel :
      (past : List (Addition F T)) (v : AggregatedCounterVector F T) (a : Addition F T)
      → IsLevel past v
      → IsLevel (past ++ a ∷ []) (aggregated_add fl max_runes v a)
  unfolding aggregated_add
  aggregated_add-IsLevel past v a h k =
      let b = at_level v.labels_to_drop a in
      shown-add fl max_runes v.vector b k
      ∙ ap (λ (s : Option F). total fl max_runes k s (b ∷ [])) (h k)
      ∙ sym (total-append fl max_runes (map (at_level v.labels_to_drop) past) (b ∷ []) k none)
      ∙ ap (total fl max_runes k none) (sym (map-append (at_level v.labels_to_drop) past (a ∷ [])))

  set_add-IsLevel :
      (past : List (Addition F T)) (vs : List (AggregatedCounterVector F T)) (a : Addition F T)
      → All (IsLevel past) vs
      → All (IsLevel (past ++ a ∷ [])) (set_add fl max_runes vs a)
  unfolding set_add
  set_add-IsLevel past [] a h = tt
  set_add-IsLevel past (v ∷ vs) a h =
      (aggregated_add-IsLevel past v a h.0, set_add-IsLevel past vs a h.1)

  pub set_add_all-IsLevel :
      (more : List (Addition F T)) (past : List (Addition F T))
      (vs : List (AggregatedCounterVector F T))
      → All (IsLevel past) vs
      → All (IsLevel (past ++ more)) (set_add_all fl max_runes vs more)
  unfolding set_add_all
  set_add_all-IsLevel [] past vs h = rw append-nil h
  set_add_all-IsLevel (a ∷ more) past vs h = rw append_assoc at (
      set_add_all-IsLevel more (past ++ a ∷ []) (set_add fl max_runes vs a)
        (set_add-IsLevel past vs a h))

  new_vectors-IsLevel :
      (metric_name metric_help : String) (labels : List String) (i n : ℕ)
      → All (IsLevel []) (new_vectors metric_name metric_help labels i n)
  unfolding new_vectors new_counter_vector lookup
  new_vectors-IsLevel metric_name metric_help labels i zero = tt
  new_vectors-IsLevel metric_name metric_help labels i (suc n) =
      ((λ k. refl), new_vectors-IsLevel metric_name metric_help labels (i + 1) n)

  pub new_set-IsLevel :
      (metric_name metric_help : String) (labels : List String)
      → All (IsLevel []) (new_aggregated_counter_vector_set metric_name metric_help labels)
  unfolding new_aggregated_counter_vector_set
  new_set-IsLevel metric_name metric_help labels =
      new_vectors-IsLevel metric_name metric_help labels 1 (length labels)

  -- At every level of a new set, after any additions, each label text shows the sum, in order, of the
  -- values whose labels have that text once the labels of finer levels are dropped.
  pub set_add_all-levels :
      (metric_name metric_help : String) (labels : List String) (more : List (Addition F T))
      → All (IsLevel more) (
          set_add_all fl max_runes
            (new_aggregated_counter_vector_set metric_name metric_help labels)
            more)
  set_add_all-levels metric_name metric_help labels more =
      set_add_all-IsLevel more [] _ (new_set-IsLevel metric_name metric_help labels)

-- The tails of a list, the longest first, without the list itself.
abbrev pub proper_tails : List String → List (List String)
proper_tails [] = []
proper_tails (l ∷ ls) = ls ∷ proper_tails ls

tails_from :
    (F T : Type 0) (metric_name metric_help : String) (labels rest : List String) (i : ℕ)
    → drop i labels ≡ rest
    → map
        (λ (v : AggregatedCounterVector F T). v.labels_to_drop)
        (new_vectors metric_name metric_help labels (suc i) (length rest))
      ≡ proper_tails rest
unfolding new_vectors
tails_from F T metric_name metric_help labels [] i h = refl
tails_from F T metric_name metric_help labels (l ∷ rest) i h =
    let next : drop (suc i) labels ≡ rest = drop_tail i labels l rest h in
    rw (next, add-one)
      (ap (◌∷◌ rest) (tails_from F T metric_name metric_help labels rest (suc i) next))

-- Each level of a new set drops the labels behind its own prefix: in order, the levels drop the
-- proper tails of the aggregation labels, and the last one drops none.
pub new_set-labels_to_drop :
    (F T : Type 0) (metric_name metric_help : String) (labels : List String)
    → map
        (λ (v : AggregatedCounterVector F T). v.labels_to_drop)
        (new_aggregated_counter_vector_set metric_name metric_help labels)
      ≡ proper_tails labels
unfolding new_aggregated_counter_vector_set
new_set-labels_to_drop F T metric_name metric_help labels =
    tails_from F T metric_name metric_help labels labels 0 refl
