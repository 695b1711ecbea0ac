-- ===== src/StringMap/Sorted.antt =====
-- SortedKeys of pkg/stringmap/stringmap.go: the order of the result does not depend on the order in
-- which the map is visited.
use slo_exporter.Prelude.{
  String, ◌≡◌, refl, sym, ap, ◌==◌, ◌||◌, eq_iff, true, false, List, [], ◌∷◌, arith, inl, inr,
  is_some, contains, All, Bool-cases,
}
use slo_exporter.Prelude.Dict.{lookup, IsMap}
use slo_exporter.Prelude.TextOrder.{str_lt, str_lt_trans, str_lt_asymm, str_lt_total}
use slo_exporter.StringMap.{StringMap, keys, insert_sorted, sort_strings, sorted_keys}

abbrev pub Above : String → List String → Type 0
Above k xs = All (λ x. str_lt k x ≡ true) xs

-- In ascending order, with no repetition.
abbrev pub IsAscending : List String → Type 0
IsAscending [] = Unit
IsAscending (x ∷ xs) = Above x xs × IsAscending xs

abbrev Distinct : List String → Type 0
Distinct [] = Unit
Distinct (x ∷ xs) = (contains x xs ≡ false) × Distinct xs

pub contains-keys : (j : String) (m : StringMap) → contains j (keys m) ≡ is_some (lookup j m)
unfolding keys lookup
contains-keys j [] = refl
contains-keys j ((k, v) ∷ m) = ground (arith, contains-keys j m)

keys-Distinct : (m : StringMap) → IsMap m → Distinct (keys m)
unfolding keys
keys-Distinct [] d = tt
keys-Distinct ((k, v) ∷ m) d = (ground (arith, contains-keys k m), keys-Distinct m d.1)

contains-insert_sorted :
    (j k : String) (xs : List String) → contains j (insert_sorted k xs) ≡ (k == j || contains j xs)
unfolding insert_sorted
contains-insert_sorted j k [] = refl
contains-insert_sorted j k (x ∷ xs) = ground (arith, contains-insert_sorted j k xs)

pub contains-sort_strings :
    (j : String) (ks : List String) → contains j (sort_strings ks) ≡ contains j ks
unfolding sort_strings
contains-sort_strings j [] = refl
contains-sort_strings j (k ∷ ks) =
    ground (arith, contains-insert_sorted j k (sort_strings ks), contains-sort_strings j ks)

Above-trans : (j k : String) (xs : List String) → str_lt j k ≡ true → Above k xs → Above j xs
Above-trans j k [] h a = tt
Above-trans j k (x ∷ xs) h a = (str_lt_trans j k x h a.0, Above-trans j k xs h a.1)

Above-insert_sorted :
    (j k : String) (xs : List String)
    → str_lt j k ≡ true
    → Above j xs
    → Above j (insert_sorted k xs)
unfolding insert_sorted
Above-insert_sorted j k [] h a = (h, tt)
Above-insert_sorted j k (x ∷ xs) h a = elim (Bool-cases (str_lt x k)) [
  | inl e ↦ rw e (a.0, Above-insert_sorted j k xs h a.1)
  | inr e ↦ rw e (h, a)
]

insert_sorted-IsAscending :
    (k : String) (xs : List String)
    → contains k xs ≡ false
    → IsAscending xs
    → IsAscending (insert_sorted k xs)
unfolding insert_sorted
insert_sorted-IsAscending k [] f s = (tt, tt)
insert_sorted-IsAscending k (x ∷ xs) f s = elim (Bool-cases (str_lt x k)) [
  | inl e ↦
      rw e (Above-insert_sorted x k xs e s.0, insert_sorted-IsAscending k xs (ground arith) s.1)
  | inr e ↦
      let below : str_lt k x ≡ true = ground (arith, str_lt_total x k e, eq_iff x k) in
      rw e ((below, Above-trans k x xs below s.0), s)
]

sort_strings-IsAscending : (ks : List String) → Distinct ks → IsAscending (sort_strings ks)
unfolding sort_strings
sort_strings-IsAscending [] d = tt
sort_strings-IsAscending (k ∷ ks) d =
    insert_sorted-IsAscending k (sort_strings ks) (ground (arith, contains-sort_strings k ks))
      (sort_strings-IsAscending ks d.1)

pub sorted_keys-IsAscending : (m : StringMap) → IsMap m → IsAscending (sorted_keys m)
unfolding sorted_keys
sorted_keys-IsAscending m d = sort_strings-IsAscending (keys m) (keys-Distinct m d)

pub contains-sorted_keys :
    (j : String) (m : StringMap) → contains j (sorted_keys m) ≡ is_some (lookup j m)
unfolding sorted_keys
contains-sorted_keys j m = ground (arith, contains-sort_strings j (keys m), contains-keys j m)

pub str_lt_irrefl : (k : String) → str_lt k k ≡ false
str_lt_irrefl k = ground (arith, str_lt_asymm k k)

not_contains_of_Above : (k : String) (xs : List String) → Above k xs → contains k xs ≡ false
not_contains_of_Above k [] a = refl
not_contains_of_Above k (x ∷ xs) a = elim (Bool-cases (x == k)) [
  | inl e ↦
      absurd (ground (arith, str_lt_irrefl k, ap (λ (z : String). str_lt k z) ((eq_iff x k).0 e)))
  | inr e ↦ rw e (not_contains_of_Above k xs a.1)
]

-- Two ascending lists with the same members have the same head.
head_eq :
    (x y : String) (xs ys : List String)
    → IsAscending (x ∷ xs)
    → IsAscending (y ∷ ys)
    → ((j : String) → contains j (x ∷ xs) ≡ contains j (y ∷ ys))
    → str_lt x y ≡ false
head_eq x y xs ys s t h = elim (Bool-cases (str_lt x y)) [
  | inl e ↦ absurd (
      ground (
        arith,
        h x,
        eq_iff x x,
        eq_iff y x,
        str_lt_irrefl x,
        not_contains_of_Above x ys (Above-trans x y ys e t.0),
      ))
  | inr e ↦ e
]

pub IsAscending-ext :
    (xs ys : List String)
    → IsAscending xs
    → IsAscending ys
    → ((j : String) → contains j xs ≡ contains j ys)
    → xs ≡ ys
IsAscending-ext [] [] s t h = refl
IsAscending-ext [] (y ∷ ys) s t h = absurd (ground (arith, h y, eq_iff y y))
IsAscending-ext (x ∷ xs) [] s t h = absurd (ground (arith, h x, eq_iff x x))
IsAscending-ext (x ∷ xs) (y ∷ ys) s t h =
    let below = head_eq x y xs ys s t h in
    let above = head_eq y x ys xs t s (λ j. sym (h j)) in
    let same : x ≡ y = ground (arith, str_lt_total x y below) in
    let tails : xs ≡ ys = IsAscending-ext xs ys s.1 t.1 (λ j. ground (
      arith,
      h j,
      same,
      eq_iff x j,
      eq_iff y j,
      not_contains_of_Above x xs s.0,
      not_contains_of_Above y ys t.0,
    )) in
    cc

-- Two maps with the same value at every key have the same sorted keys.
pub sorted_keys-ext :
    (m n : StringMap)
    → IsMap m
    → IsMap n
    → ((j : String) → lookup j m ≡ lookup j n)
    → sorted_keys m ≡ sorted_keys n
sorted_keys-ext m n d e h =
    IsAscending-ext (sorted_keys m) (sorted_keys n) (sorted_keys-IsAscending m d)
      (sorted_keys-IsAscending n e)
      (λ j. ground (arith, contains-sorted_keys j m, contains-sorted_keys j n, h j))
