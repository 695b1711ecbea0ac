-- ===== src/StringMap.antt =====
-- The string maps of pkg/stringmap/stringmap.go, which carry the metadata of events and the labels
-- of metrics. A `range` loop visits the entries in the order of the list; the theorems are
-- stated by `lookup`, which does not depend on it.
pub mod Laws
pub mod Matching
pub mod Sorted
pub mod Render
use slo_exporter.Prelude.{
  String, Bool, true, false, ◌==◌, not, Option, none, some, List, [], ◌∷◌, map, concat, ltb, length,
  if◌then◌else◌,
}
use slo_exporter.Prelude.Dict.{Dict, lookup, insert, delete}
use slo_exporter.Prelude.TextOrder.{str_lt}

abbrev pub StringMap : Type 0
StringMap = Dict String

-- for k, v := range m { acc[k] = v }
unfoldable pub insert_all : StringMap → StringMap → StringMap
insert_all acc [] = acc
insert_all acc ((k, v) ∷ m) = insert_all (insert k v acc) m

-- NewFromLabels: a label list may name a label twice, and the later entry wins.
unfoldable pub new_from_labels : List (String × String) → StringMap
new_from_labels labels = insert_all [] labels

-- NewFromMetric
unfoldable pub new_from_metric : Dict String → StringMap
new_from_metric labels = insert_all [] labels

-- AsPrometheusLabels
unfoldable pub as_prometheus_labels : StringMap → List (String × String)
as_prometheus_labels [] = []
as_prometheus_labels ((k, v) ∷ m) = (k, v) ∷ as_prometheus_labels m

unfoldable pub copy : StringMap → StringMap
copy m = insert_all [] m

unfoldable pub merge : StringMap → StringMap → StringMap
merge m other = insert_all (copy m) other

unfoldable pub new_with : StringMap → String → String → StringMap
new_with m key value = insert key value (copy m)

unfoldable pub keys : StringMap → List String
keys [] = []
keys ((k, v) ∷ m) = k ∷ keys m

unfoldable pub values : StringMap → List String
values [] = []
values ((k, v) ∷ m) = v ∷ values m

-- AddKeys
unfoldable pub add_keys : StringMap → List String → StringMap
add_keys m [] = m
add_keys m (k ∷ ks) = add_keys (insert k "" m) ks

-- sort.Strings, by insertion.
unfoldable pub insert_sorted : String → List String → List String
insert_sorted k [] = k ∷ []
insert_sorted k (x ∷ xs) =
    let rest = insert_sorted k xs in if str_lt x k then x ∷ rest else k ∷ x ∷ xs

unfoldable pub sort_strings : List String → List String
sort_strings [] = []
sort_strings (k ∷ ks) = insert_sorted k (sort_strings ks)

unfoldable pub sorted_keys : StringMap → List String
sorted_keys m = sort_strings (keys m)

unfoldable pub values_by_keys : StringMap → List String → List String
values_by_keys m [] = []
values_by_keys m (key ∷ ks) =
    let rest = values_by_keys m ks in elim (lookup key m) [ none ↦ rest | some v ↦ v ∷ rest ]

-- The loop of Matches.
unfoldable pub all_in : StringMap → StringMap → Bool
all_in [] other = true
all_in ((k, v) ∷ m) other =
    let rest = all_in m other in
    elim (lookup k other) [
      | none ↦ false
      | some other_v ↦ if not (v == other_v) then false else rest
    ]

unfoldable pub matches : StringMap → StringMap → Bool
unfolding all_in
matches m other = if ltb (length other) (length m) then false else all_in m other

-- One item of String(): key="value".
unfoldable pub item : String → String → String
item key val = concat key (concat "=\"" (concat val "\""))

-- The loop of String(); a key that is not found leaves the empty item of `make`.
unfoldable pub items : StringMap → List String → List String
items m [] = []
items m (key ∷ ks) =
    let rest = items m ks in
    elim (lookup key m) [ none ↦ "" ∷ rest | some val ↦ item key val ∷ rest ]

-- strings.Join
unfoldable pub join : String → List String → String
join sep [] = ""
join sep (x ∷ []) = x
join sep (x ∷ y ∷ xs) = concat x (concat sep (join sep (y ∷ xs)))

unfoldable pub to_string : StringMap → String
to_string m = join "," (items m (sorted_keys m))

-- The loop of Lowercase, with `strings.ToLower` as a parameter.
unfoldable pub lowercase_into : (String → String) → StringMap → StringMap → StringMap
lowercase_into to_lower lower [] = lower
lowercase_into to_lower lower ((k, v) ∷ m) =
    lowercase_into to_lower (insert (to_lower k) (to_lower v) lower) m

unfoldable pub lowercase : (String → String) → StringMap → StringMap
lowercase to_lower m = lowercase_into to_lower [] m

-- The loop of Select.
unfoldable pub select_into : StringMap → StringMap → List String → StringMap
select_into selected m [] = selected
select_into selected m (key ∷ ks) =
    select_into (elim (lookup key m) [ none ↦ selected | some val ↦ insert key val selected ]) m ks

unfoldable pub select : StringMap → List String → StringMap
select m ks = select_into [] m ks

-- The loop of Without.
unfoldable pub delete_all : StringMap → List String → StringMap
delete_all result [] = result
delete_all result (key ∷ ks) = delete_all (delete key result) ks

unfoldable pub without : StringMap → List String → StringMap
without m ks = let result = copy m in if ltb 0 (length result) then delete_all result ks else result
