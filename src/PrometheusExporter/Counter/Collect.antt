-- ===== src/PrometheusExporter/Counter/Collect.antt =====
-- Collect of a counter vector of pkg/prometheus_exporter/aggregating_counter.go, with the metric of
-- exemplars.go. NewConstCounterWithExemplar returns no error, so every counter gives a metric. The
-- metric keeps its label names and values as they are given to MakeLabelPairs, which pairs them.
use slo_exporter.Prelude.{
  ℕ, String, ◌≡◌, refl, ap, ◌∙◌, ◌==◌, eq_iff, true, Option, none, some, List, [], ◌∷◌, map,
  is_some, arith, inl, inr, Option-cases, Bool-cases, All,
}
use slo_exporter.Prelude.Dict.{Dict, lookup, insert, IsMap, insert-IsMap}
use slo_exporter.StringMap.{StringMap, sorted_keys, values_by_keys, to_string, item, items, join}
use slo_exporter.StringMap.Render.Injective.{sorted_keys_present}
use slo_exporter.Runtime.{Float64}
use slo_exporter.PrometheusExporter.Counter.{
  Exemplar, Counter, CounterVector, Addition, counter_add_with_exemplar, counter_for,
  add_with_exemplar, new_counter_vector,
}
use slo_exporter.PrometheusExporter.Counter.Laws.{shown}

-- constCounterWithExemplar, with the name and the help of its descriptor.
pub record ConstCounter (F T : Type 0) : Type 0 where
  pub name : String
  pub help : String
  pub label_names : List String
  pub label_values : List String
  pub val : F
  pub exemplar : Option (Exemplar F T)

-- NewConstCounterWithExemplar
unfoldable pub new_const_counter_with_exemplar :
    {F T : Type 0} → String → String → List String → F → List String → ConstCounter F T
new_const_counter_with_exemplar name help label_names value label_values = record {
  name = name;
  help = help;
  label_names = label_names;
  label_values = label_values;
  val = value;
  exemplar = none;
}

-- AddExemplar
unfoldable pub add_exemplar : {F T : Type 0} → ConstCounter F T → Exemplar F T → ConstCounter F T
add_exemplar c e = record c { exemplar = some e }

-- The metric of one counter.
unfoldable pub collected : {F T : Type 0} → CounterVector F T → Counter F T → ConstCounter F T
collected v c =
    let metric =
      new_const_counter_with_exemplar v.name v.help c.label_names c.value c.label_values in
    elim (c.exemplar) [ none ↦ metric | some e ↦ add_exemplar metric e ]

-- The loop of Collect.
unfoldable pub collect_from :
    {F T : Type 0} → CounterVector F T → Dict (Counter F T) → List (ConstCounter F T)
collect_from v [] = []
collect_from v ((k, c) ∷ counters) = collected v c ∷ collect_from v counters

unfoldable pub collect : {F T : Type 0} → CounterVector F T → List (ConstCounter F T)
collect v = collect_from v v.counters

-- The items of names with their values.
abbrev pub spelled_items : List String → List String → List String
spelled_items (n ∷ ns) (v ∷ vs) = item n v ∷ spelled_items ns vs
spelled_items (n ∷ ns) [] = []
spelled_items [] vs = []

-- The text of the labels of a metric, spelled as String spells those of a map.
abbrev pub label_text : List String → List String → String
label_text names values = join "," (spelled_items names values)

-- What is exported: the value under the text of the labels of each metric.
abbrev pub scraped : {F T : Type 0} → List (ConstCounter F T) → Dict F
scraped ms = map (λ (m : ConstCounter _ _). (label_text m.label_names m.label_values, m.val)) ms

spelled_items-keys :
    (m : StringMap) (ks : List String)
    → All (λ k. is_some (lookup k m) ≡ true) ks
    → spelled_items ks (values_by_keys m ks) ≡ items m ks
unfolding values_by_keys items
spelled_items-keys m [] h = refl
spelled_items-keys m (k ∷ ks) h = elim (Option-cases (lookup k m)) [
  | inl e ↦ absurd (ground arith)
  | inr (v, e) ↦ ground (arith, spelled_items-keys m ks h.1)
]

label_text-sorted_keys :
    (m : StringMap) → label_text (sorted_keys m) (values_by_keys m (sorted_keys m)) ≡ to_string m
unfolding to_string
label_text-sorted_keys m =
    ap (join ",") (spelled_items-keys m (sorted_keys m) (sorted_keys_present m))

-- The labels of a counter spell its key.
abbrev Spells : {F T : Type 0} → String × Counter F T → Type 0
Spells kc = label_text kc.1.label_names kc.1.label_values ≡ kc.0

-- The counters are a map, and the labels of each spell its key.
abbrev pub IsSpelled : {F T : Type 0} → CounterVector F T → Type 0
IsSpelled v = IsMap v.counters × All Spells v.counters

All-insert :
    {V : Type 0} (P : String × V → Type 0) (k : String) (v : V) (m : Dict V)
    → All P m
    → P (k, v)
    → All P (insert k v m)
unfolding insert
All-insert P k v [] h p = (p, tt)
All-insert P k v ((j, w) ∷ m) h p = elim (Bool-cases (j == k)) [
  | inl same ↦ rw (same, insert) (p, h.1)
  | inr other ↦ rw (other, insert) (h.0, All-insert P k v m h.1 p)
]

All-lookup :
    {V : Type 0} (P : String × V → Type 0) (k : String) (v : V) (m : Dict V)
    → All P m
    → lookup k m ≡ some v
    → P (k, v)
unfolding lookup
All-lookup P k v [] h e = cc
All-lookup P k v ((j, w) ∷ m) h e = elim (Bool-cases (j == k)) [
  | inl same ↦
      let key = (eq_iff j k).0 same in let value : w ≡ v = ground arith in rw (key, value) at h.0
  | inr other ↦ All-lookup P k v m h.1 (ground arith)
]

pub new-IsSpelled :
    (F T : Type 0) (name help : String) → IsSpelled (new_counter_vector {F = F} {T = T} name help)
unfolding new_counter_vector
new-IsSpelled F T name help = (tt, tt)

module _ {F T : Type 0} where
  collected_lem :
      (v : CounterVector F T) (c : Counter F T)
      → ((collected v c).label_names ≡ c.label_names)
        × ((collected v c).label_values ≡ c.label_values)
        × ((collected v c).val ≡ c.value)
        × ((collected v c).name ≡ v.name)
        × ((collected v c).exemplar ≡ c.exemplar)
  unfolding collected new_const_counter_with_exemplar add_exemplar
  collected_lem v c = ground arith

module _ (fl : Float64) (max_runes : ℕ) {T : Type 0} where
  open fl use {F}

  counter_add-labels :
      (c : Counter F T) (x : F) (l : StringMap) (now : Option T)
      → ((counter_add_with_exemplar fl max_runes c x l now).label_values ≡ c.label_values)
        × ((counter_add_with_exemplar fl max_runes c x l now).label_names ≡ c.label_names)
  unfolding counter_add_with_exemplar
  counter_add-labels c x l now = ground arith

  counter_for-Spells :
      (v : CounterVector F T) (l : StringMap)
      → IsSpelled v
      → Spells (to_string l, counter_for fl max_runes v l)
  unfolding counter_for
  counter_for-Spells v l h = elim (Option-cases (lookup (to_string l) v.counters)) [
    | inl new ↦ rw (new, counter_for) (label_text-sorted_keys l)
    | inr (c, old) ↦ rw (old, counter_for) (All-lookup Spells (to_string l) c v.counters h.1 old)
  ]

  pub add-IsSpelled :
      (v : CounterVector F T) (a : Addition F T)
      → IsSpelled v
      → IsSpelled (add_with_exemplar fl max_runes v a)
  unfolding add_with_exemplar
  add-IsSpelled v a h =
      let c = counter_for fl max_runes v a.labels in
      let c' = counter_add_with_exemplar fl max_runes c a.value a.exemplar_labels a.now in
      let same = counter_add-labels c a.value a.exemplar_labels a.now in
      let spells : Spells (to_string a.labels, c') =
        rw (same.0, same.1) (counter_for-Spells v a.labels h) in
      (
        insert-IsMap (to_string a.labels) c' v.counters h.0,
        All-insert Spells (to_string a.labels) c' v.counters h.1 spells,
      )

  scraped-collect_from :
      (v : CounterVector F T) (counters : Dict (Counter F T)) (k : String)
      → All Spells counters
      → lookup k (scraped (collect_from v counters)) ≡ shown fl max_runes counters k
  unfolding collect_from lookup
  scraped-collect_from v [] k h = refl
  scraped-collect_from v ((j, c) ∷ counters) k h =
      let same = collected_lem v c in
      rw (same.0, same.1, same.2, h.0) (ground (arith, scraped-collect_from v counters k h.1))

  scraped-IsMap :
      (v : CounterVector F T) (counters : Dict (Counter F T))
      → IsMap counters
      → All Spells counters
      → IsMap (scraped (collect_from v counters))
  unfolding collect_from
  scraped-IsMap v [] d h = tt
  scraped-IsMap v ((j, c) ∷ counters) d h =
      let same = collected_lem v c in
      rw (same.0, same.1, h.0)
        (
          scraped-collect_from v counters j h.1 ∙ rw (d.0, shown) refl,
          scraped-IsMap v counters d.1 h.1,
        )

  -- What Collect exports is a map from label texts, and shows the vector's value under each.
  pub scraped-collect :
      (v : CounterVector F T)
      → IsSpelled v
      → IsMap (scraped (collect v))
        × ((k : String) → lookup k (scraped (collect v)) ≡ shown fl max_runes v.counters k)
  unfolding collect
  scraped-collect v h =
      (scraped-IsMap v v.counters h.0 h.1, (λ k. scraped-collect_from v v.counters k h.1))
