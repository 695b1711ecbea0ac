-- ===== src/PrometheusExporter/Counter/Laws.antt =====
-- A counter vector of pkg/prometheus_exporter/aggregating_counter.go holds, for each label set, the
-- sum of what was added to it.
use slo_exporter.Prelude.{
  ℕ, String, ◌≡◌, refl, ap, ◌∙◌, ◌==◌, eq_iff, Option, none, some, List, [], ◌∷◌, ◌++◌, length,
  if◌then◌else◌, arith, inl, inr, Option-cases, Bool-cases,
}
use slo_exporter.Prelude.Dict.{Dict, lookup, lookup-insert}
use slo_exporter.StringMap.{StringMap, sorted_keys, to_string}
use slo_exporter.StringMap.Render.{length-values_by_keys}
use slo_exporter.StringMap.Render.Injective.{sorted_keys_present}
use slo_exporter.Runtime.{Float64}
use slo_exporter.PrometheusExporter.Counter.{
  Counter, CounterVector, Addition, counter_add_with_exemplar, counter_for, add_with_exemplar,
  add_all,
}

module _ (fl : Float64) (max_runes : ℕ) {T : Type 0} where
  open fl use {F}

  -- The value that a vector shows for the text of a label set; `none` is no counter.
  abbrev pub shown : Dict (Counter F T) → String → Option F
  shown counters k = elim (lookup k counters) [ none ↦ none | some c ↦ some c.value ]

  -- What the additions to one label set sum up to, in their order, from what it had.
  abbrev pub total : String → Option F → List (Addition F T) → Option F
  total k sum [] = sum
  total k sum (a ∷ more) =
      let before : F = elim sum [ none ↦ fl.zero | some x ↦ x ] in
      total k (if to_string a.labels == k then some (fl.add before a.value) else sum) more

  pub total-append :
      (xs ys : List (Addition F T)) (k : String) (s : Option F)
      → total k s (xs ++ ys) ≡ total k (total k s xs) ys
  total-append [] ys k s = refl
  total-append (x ∷ xs) ys k s = total-append xs ys k (total k s (x ∷ []))

  value-counter_add :
      (c : Counter F T) (x : F) (l : StringMap) (now : Option T)
      → (counter_add_with_exemplar fl max_runes c x l now).value ≡ fl.add c.value x
  unfolding counter_add_with_exemplar
  value-counter_add c x l now = ground arith

  value-counter_for :
      (e : CounterVector F T) (l : StringMap)
      → (counter_for fl max_runes e l).value
        ≡ (elim (shown e.counters (to_string l)) [ none ↦ fl.zero | some x ↦ x ])
  unfolding counter_for
  value-counter_for e l = ground arith

  pub shown-add :
      (e : CounterVector F T) (a : Addition F T) (k : String)
      → shown (add_with_exemplar fl max_runes e a).counters k
        ≡ total k (shown e.counters k) (a ∷ [])
  unfolding add_with_exemplar
  shown-add e a k =
      let c = counter_for fl max_runes e a.labels in
      let c' = counter_add_with_exemplar fl max_runes c a.value a.exemplar_labels a.now in
      let found = lookup-insert (to_string a.labels) k c' e.counters in
      elim (Bool-cases (to_string a.labels == k)) [
        | inl same ↦ ground (
          arith,
          found,
          value-counter_add c a.value a.exemplar_labels a.now,
          value-counter_for e a.labels,
          eq_iff (to_string a.labels) k,
        )
        | inr other ↦ ground (arith, found)
      ]

  -- The vector refines a history of additions: whatever was added, each label text shows the sum
  -- of the values that were added under it, in their order, and one that nothing was added under
  -- has no counter.
  pub shown-add_all :
      (more : List (Addition F T)) (e : CounterVector F T) (k : String)
      → shown (add_all fl max_runes e more).counters k ≡ total k (shown e.counters k) more
  unfolding add_all
  shown-add_all [] e k = refl
  shown-add_all (a ∷ more) e k =
      shown-add_all more (add_with_exemplar fl max_runes e a) k
      ∙ ap (λ (s : Option F). total k s more) (shown-add e a k)

  -- Every counter has a value for each of its label names, so that Collect can make its metric.
  pub record IsLabelled (e : CounterVector F T) : Type 0 where
    pub at_key :
        (k : String) (c : Counter F T)
        → lookup k e.counters ≡ some c
        → length c.label_values ≡ length c.label_names

  counter_for-labels :
      (e : CounterVector F T) (l : StringMap)
      → IsLabelled e
      → length (counter_for fl max_runes e l).label_values
        ≡ length (counter_for fl max_runes e l).label_names
  unfolding counter_for
  counter_for-labels e l v = elim (Option-cases (lookup (to_string l) e.counters)) [
    | inl new ↦
        rw (new, counter_for) (length-values_by_keys l (sorted_keys l) (sorted_keys_present l))
    | inr (c, old) ↦ rw (old, counter_for) (v.at_key (to_string l) c old)
  ]

  counter_add-labels :
      (c : Counter F T) (x : F) (l : StringMap) (now : Option T)
      → (counter_add_with_exemplar fl max_runes c x l now).label_values ≡ c.label_values
  unfolding counter_add_with_exemplar
  counter_add-labels c x l now = ground arith

  counter_add-names :
      (c : Counter F T) (x : F) (l : StringMap) (now : Option T)
      → (counter_add_with_exemplar fl max_runes c x l now).label_names ≡ c.label_names
  unfolding counter_add_with_exemplar
  counter_add-names c x l now = ground arith

  -- If every counter of a vector has as many label values as label names, as the metrics of Collect
  -- require, an addition keeps it so.
  pub add-IsLabelled :
      (e : CounterVector F T) (a : Addition F T)
      → IsLabelled e
      → IsLabelled (add_with_exemplar fl max_runes e a)
  unfolding add_with_exemplar
  add-IsLabelled e a v = record {
    at_key = λ k found h.
        let c = counter_for fl max_runes e a.labels in
        let c' = counter_add_with_exemplar fl max_runes c a.value a.exemplar_labels a.now in
        elim (Bool-cases (to_string a.labels == k)) [
          | inl same ↦ ground (
            arith,
            lookup-insert (to_string a.labels) k c' e.counters,
            counter_for-labels e a.labels v,
            counter_add-labels c a.value a.exemplar_labels a.now,
            counter_add-names c a.value a.exemplar_labels a.now,
          )
          | inr other ↦
              v.at_key k found (ground (arith, lookup-insert (to_string a.labels) k c' e.counters))
        ];
  }
