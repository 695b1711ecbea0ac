-- ===== src/StringMap/Render.antt =====
-- String of pkg/stringmap/stringmap.go: the text by which a counter vector knows its label sets.
pub mod Injective
pub mod Collision
use native.Mathlib.Nat.{add_comm}
use text.Mathlib.TextLemmas.{append_assoc}
use slo_exporter.Prelude.{
  String, ◌≡◌, refl, sym, ap, ◌∙◌, ◌==◌, eq_iff, true, false, none, some, List, [], ◌∷◌, concat,
  arith, inl, inr, is_some, contains, All, Option-cases, length,
}
use slo_exporter.Prelude.Dict.{lookup, IsMap}
use slo_exporter.Prelude.TextOrder.{str_lt, str_lt_asymm}
use slo_exporter.StringMap.{
  StringMap, keys, insert_sorted, sort_strings, sorted_keys, values_by_keys, item, items, join,
  to_string,
}
use slo_exporter.StringMap.Sorted.{sorted_keys-ext}

items-ext :
    (m n : StringMap) (ks : List String)
    → ((j : String) → lookup j m ≡ lookup j n)
    → items m ks ≡ items n ks
unfolding items
items-ext m n [] h = refl
items-ext m n (k ∷ ks) h = ground (arith, h k, items-ext m n ks h)

-- Two maps with the same value at every key have the same text, in whatever order their entries are
-- visited.
pub to_string-ext :
    (m n : StringMap)
    → IsMap m
    → IsMap n
    → ((j : String) → lookup j m ≡ lookup j n)
    → to_string m ≡ to_string n
unfolding to_string
to_string-ext m n d e h =
    rw (sorted_keys-ext m n d e h) (ap (join ",") (items-ext m n (sorted_keys n) h))

values_by_keys-ext :
    (m n : StringMap) (ks : List String)
    → ((j : String) → lookup j m ≡ lookup j n)
    → values_by_keys m ks ≡ values_by_keys n ks
unfolding values_by_keys
values_by_keys-ext m n [] h = refl
values_by_keys-ext m n (k ∷ ks) h = ground (arith, h k, values_by_keys-ext m n ks h)

-- One value is found for each key that is there.
pub length-values_by_keys :
    (m : StringMap) (ks : List String)
    → All (λ k. is_some (lookup k m) ≡ true) ks
    → length (values_by_keys m ks) ≡ length ks
unfolding values_by_keys
length-values_by_keys m [] h = refl
length-values_by_keys m (k ∷ ks) h = elim (Option-cases (lookup k m)) [
  | inl e ↦ absurd (ground arith)
  | inr (v, e) ↦ rw (e, values_by_keys) (ap Prim.Native.Nat.suc (length-values_by_keys m ks h.1))
]
