-- ===== src/PrometheusExporter/Aggregation/Collect.antt =====
-- What a scrape shows of the cascade of pkg/prometheus_exporter/aggregating_counter.go: each of its
-- vectors is registered as a collector of its own.
use slo_exporter.Prelude.{
  ℕ, zero, suc, ◌+◌, String, ◌≡◌, ◌∙◌, refl, ap, none, List, [], ◌∷◌, map, length, All,
}
use slo_exporter.Prelude.Dict.{lookup, IsMap}
use slo_exporter.Runtime.{Float64}
use slo_exporter.PrometheusExporter.Counter.{Addition, add_with_exemplar}
use slo_exporter.PrometheusExporter.Counter.Laws.{total}
use slo_exporter.PrometheusExporter.Counter.Collect.{
  collect, scraped, IsSpelled, new-IsSpelled, add-IsSpelled, scraped-collect,
}
use slo_exporter.PrometheusExporter.Aggregation.{
  AggregatedCounterVector, new_vectors, new_aggregated_counter_vector_set, aggregated_add, set_add,
  set_add_all,
}
use slo_exporter.PrometheusExporter.Aggregation.Laws.{at_level, IsLevel}

new_vectors-IsSpelled :
    (F T : Type 0) (metric_name metric_help : String) (labels : List String) (i n : ℕ)
    → All
        (λ (v : AggregatedCounterVector F T). IsSpelled v.vector)
        (new_vectors metric_name metric_help labels i n)
unfolding new_vectors
new_vectors-IsSpelled F T metric_name metric_help labels i zero = tt
new_vectors-IsSpelled F T metric_name metric_help labels i (suc n) =
    (new-IsSpelled F T _ _, new_vectors-IsSpelled F T metric_name metric_help labels (i + 1) n)

pub new_set-IsSpelled :
    (F T : Type 0) (metric_name metric_help : String) (labels : List String)
    → All
        (λ (v : AggregatedCounterVector F T). IsSpelled v.vector)
        (new_aggregated_counter_vector_set metric_name metric_help labels)
unfolding new_aggregated_counter_vector_set
new_set-IsSpelled F T metric_name metric_help labels =
    new_vectors-IsSpelled F T metric_name metric_help labels 1 (length labels)

module _ (fl : Float64) (max_runes : ℕ) (T : Type 0) where
  open fl use {F}

  set_add-IsSpelled :
      (vs : List (AggregatedCounterVector F T)) (a : Addition F T)
      → All (λ v. IsSpelled v.vector) vs
      → All (λ v. IsSpelled v.vector) (set_add fl max_runes vs a)
  unfolding set_add aggregated_add
  set_add-IsSpelled [] a h = tt
  set_add-IsSpelled (v ∷ vs) a h = (
    add-IsSpelled fl max_runes v.vector (at_level v.labels_to_drop a) h.0,
    set_add-IsSpelled vs a h.1,
  )

  pub set_add_all-IsSpelled :
      (vs : List (AggregatedCounterVector F T)) (more : List (Addition F T))
      → All (λ v. IsSpelled v.vector) vs
      → All (λ v. IsSpelled v.vector) (set_add_all fl max_runes vs more)
  unfolding set_add_all
  set_add_all-IsSpelled vs [] h = h
  set_add_all-IsSpelled vs (a ∷ more) h =
      set_add_all-IsSpelled (set_add fl max_runes vs a) more (set_add-IsSpelled vs a h)

  -- What a vector of the cascade is: its metric, and the labels that it drops.
  abbrev pub shape : AggregatedCounterVector F T → String × List String
  shape v = (v.vector.name, v.labels_to_drop)

  shapes-set_add :
      (vs : List (AggregatedCounterVector F T)) (a : Addition F T)
      → map shape (set_add fl max_runes vs a) ≡ map shape vs
  unfolding set_add aggregated_add add_with_exemplar
  shapes-set_add [] a = refl
  shapes-set_add (v ∷ vs) a = ap (◌∷◌ (shape v)) (shapes-set_add vs a)

  pub shapes-set_add_all :
      (vs : List (AggregatedCounterVector F T)) (more : List (Addition F T))
      → map shape (set_add_all fl max_runes vs more) ≡ map shape vs
  unfolding set_add_all
  shapes-set_add_all vs [] = refl
  shapes-set_add_all vs (a ∷ more) =
      shapes-set_add_all (set_add fl max_runes vs a) more ∙ shapes-set_add vs a

  -- A vector exports each label text once, with the sum of what was added under it once the labels
  -- of finer levels are dropped.
  abbrev pub Exports : List (Addition F T) → AggregatedCounterVector F T → Type 0
  Exports past v =
      IsMap (scraped (collect v.vector))
      × ((k : String)
          → lookup k (scraped (collect v.vector))
            ≡ total fl max_runes k none (map (at_level v.labels_to_drop) past))

  pub levels-Exports :
      (past : List (Addition F T)) (vs : List (AggregatedCounterVector F T))
      → All (IsLevel fl max_runes T past) vs
      → All (λ v. IsSpelled v.vector) vs
      → All (Exports past) vs
  levels-Exports past [] h s = tt
  levels-Exports past (v ∷ vs) h s =
      let seen = scraped-collect fl max_runes v.vector s.0 in
      ((seen.0, (λ k. seen.1 k ∙ h.0 k)), levels-Exports past vs h.1 s.1)
