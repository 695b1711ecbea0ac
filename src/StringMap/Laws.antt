-- ===== src/StringMap/Laws.antt =====
-- What each operation of pkg/stringmap/stringmap.go does to every key.
use slo_exporter.Prelude.{
  String, false, ◌≡◌, refl, ◌==◌, eq_iff, none, some, List, [], ◌∷◌, ltb, length, contains, or_else,
  arith, if◌then◌else◌, Option-cases, inl, inr,
}
use slo_exporter.Prelude.Dict.{
  lookup, insert, delete, IsMap, lookup-insert, lookup-delete, insert-IsMap, delete-IsMap,
}
use slo_exporter.StringMap.{
  StringMap, insert_all, copy, merge, new_with, new_from_labels, as_prometheus_labels, add_keys,
  select, select_into, delete_all, without,
}

pub lookup-insert_all :
    (j : String) (acc m : StringMap)
    → IsMap m
    → lookup j (insert_all acc m) ≡ or_else (lookup j m) (lookup j acc)
unfolding insert_all lookup
lookup-insert_all j acc [] d = refl
lookup-insert_all j acc ((k, v) ∷ m) d =
    ground (arith, lookup-insert_all j (insert k v acc) m d.1, lookup-insert k j v acc, eq_iff k j)

pub insert_all-IsMap : (acc m : StringMap) → IsMap acc → IsMap (insert_all acc m)
unfolding insert_all
insert_all-IsMap acc [] h = h
insert_all-IsMap acc ((k, v) ∷ m) h = insert_all-IsMap (insert k v acc) m (insert-IsMap k v acc h)

pub lookup-copy : (j : String) (m : StringMap) → IsMap m → lookup j (copy m) ≡ lookup j m
unfolding copy lookup
lookup-copy j m d = ground (arith, lookup-insert_all j [] m d)

pub copy-IsMap : (m : StringMap) → IsMap (copy m)
unfolding copy
copy-IsMap m = insert_all-IsMap [] m tt

-- Every key of the merged map has the value of the other map, and where the other map has none the
-- value of the first map.
pub lookup-merge :
    (j : String) (m other : StringMap)
    → IsMap m
    → IsMap other
    → lookup j (merge m other) ≡ or_else (lookup j other) (lookup j m)
unfolding merge
lookup-merge j m other d e = ground (arith, lookup-insert_all j (copy m) other e, lookup-copy j m d)

pub merge-IsMap : (m other : StringMap) → IsMap (merge m other)
unfolding merge
merge-IsMap m other = insert_all-IsMap (copy m) other (copy-IsMap m)

pub lookup-new_with :
    (j : String) (m : StringMap) (key value : String)
    → IsMap m
    → lookup j (new_with m key value) ≡ (if key == j then some value else lookup j m)
unfolding new_with
lookup-new_with j m key value d =
    ground (arith, lookup-insert key j value (copy m), lookup-copy j m d)

pub lookup-add_keys :
    (j : String) (m : StringMap) (ks : List String)
    → lookup j (add_keys m ks) ≡ (if contains j ks then some "" else lookup j m)
unfolding add_keys
lookup-add_keys j m [] = refl
lookup-add_keys j m (k ∷ ks) =
    ground (arith, lookup-add_keys j (insert k "" m) ks, lookup-insert k j "" m)

lookup-select_into :
    (j : String) (selected m : StringMap) (ks : List String)
    → lookup j (select_into selected m ks)
      ≡ (if contains j ks then or_else (lookup j m) (lookup j selected) else lookup j selected)
unfolding select_into
lookup-select_into j selected m [] = refl
lookup-select_into j selected m (key ∷ ks) = elim (Option-cases (lookup key m)) [
  | inl e ↦ rw e (ground (arith, lookup-select_into j selected m ks, eq_iff key j))
  | inr (v, e) ↦ rw e (
      ground (
        arith,
        lookup-select_into j (insert key v selected) m ks,
        lookup-insert key j v selected,
        eq_iff key j,
      ))
]

-- A selected map has exactly the listed keys of the original map, with their values.
pub lookup-select :
    (j : String) (m : StringMap) (ks : List String)
    → lookup j (select m ks) ≡ (if contains j ks then lookup j m else none)
unfolding select lookup
lookup-select j m ks = ground (arith, lookup-select_into j [] m ks)

lookup-delete_all :
    (j : String) (m : StringMap) (ks : List String)
    → lookup j (delete_all m ks) ≡ (if contains j ks then none else lookup j m)
unfolding delete_all
lookup-delete_all j m [] = refl
lookup-delete_all j m (key ∷ ks) =
    ground (arith, lookup-delete_all j (delete key m) ks, lookup-delete key j m)

pub delete_all-IsMap : (m : StringMap) (ks : List String) → IsMap m → IsMap (delete_all m ks)
unfolding delete_all
delete_all-IsMap m [] h = h
delete_all-IsMap m (key ∷ ks) h = delete_all-IsMap (delete key m) ks (delete-IsMap key m h)

lookup_short : (j : String) (m : StringMap) → ltb 0 (length m) ≡ false → lookup j m ≡ none
unfolding lookup
lookup_short j [] h = refl
lookup_short j (e ∷ m) h = absurd (ground arith)

-- The listed keys are gone, and every other key is as it was.
pub lookup-without :
    (j : String) (m : StringMap) (ks : List String)
    → IsMap m
    → lookup j (without m ks) ≡ (if contains j ks then none else lookup j m)
unfolding without
lookup-without j m ks d =
    ground (arith, lookup-delete_all j (copy m) ks, lookup_short j (copy m), lookup-copy j m d)

pub without-IsMap : (m : StringMap) (ks : List String) → IsMap (without m ks)
unfolding without
without-IsMap m ks = ground (arith, delete_all-IsMap (copy m) ks (copy-IsMap m), copy-IsMap m)

as_prometheus_labels-eq : (m : StringMap) → as_prometheus_labels m ≡ m
unfolding as_prometheus_labels
as_prometheus_labels-eq [] = refl
as_prometheus_labels-eq ((k, v) ∷ m) = rw (as_prometheus_labels-eq m)

-- A map that is turned into Prometheus labels and back has the same value at every key.
pub lookup-new_from_labels-as_prometheus_labels :
    (j : String) (m : StringMap)
    → IsMap m
    → lookup j (new_from_labels (as_prometheus_labels m)) ≡ lookup j m
unfolding new_from_labels lookup
lookup-new_from_labels-as_prometheus_labels j m d =
    rw (as_prometheus_labels-eq m) (ground (arith, lookup-insert_all j [] m d))
