-- ===== src/StringMap/Render/Collision.antt =====
-- Maps that String of pkg/stringmap/stringmap.go does not tell apart.
use text.Mathlib.TextLemmas.{append_assoc, cons-append}
use slo_exporter.Prelude.{
  String, ◌≡◌, ap, ◌∙◌, ◌==◌, eq_iff, eq_refl, true, false, some, [], ◌∷◌, concat, arith,
}
use slo_exporter.Prelude.Dict.{lookup}
use slo_exporter.Prelude.TextOrder.{str_lt, str_lt_asymm}
use slo_exporter.StringMap.{
  StringMap, keys, insert_sorted, sort_strings, sorted_keys, item, items, join, to_string,
}
use slo_exporter.StringMap.Sorted.{str_lt_irrefl}
use slo_exporter.StringMap.{StringMap}
use slo_exporter.StringMap.Render.Injective.{concat-comma, join_laws}

concat-closing : (z : String) → concat "\"," z ≡ String.◌∷◌ "\"" (String.◌∷◌ "," z)
concat-closing z = cons-append "\"" "," z ∙ ap (String.◌∷◌ "\"") (concat-comma z)

lookup_head : (k v : String) (m : StringMap) → lookup k ((k, v) ∷ m) ≡ some v
unfolding lookup
lookup_head k v m = simp eq_refl

lookup_second :
    (k j v w : String) (m : StringMap) → (k == j) ≡ false → lookup j ((k, v) ∷ (j, w) ∷ m) ≡ some w
unfolding lookup
lookup_second k j v w m h = simp (h, eq_refl)

to_string_one : (k v : String) → to_string ((k, v) ∷ []) ≡ item k v
unfolding to_string sorted_keys sort_strings insert_sorted keys items join
to_string_one k v = rw (lookup_head k v [], items)

to_string_two :
    (k j v w : String)
    → str_lt j k ≡ false
    → (k == j) ≡ false
    → to_string ((k, v) ∷ (j, w) ∷ []) ≡ concat (item k v) (concat "," (item j w))
unfolding to_string sorted_keys sort_strings insert_sorted keys items join
to_string_two k j v w h e =
    rw h (rw (lookup_head k v ((j, w) ∷ []), items) (rw (lookup_second k j v w [] e, items)))

-- A value that holds quotes can spell the entries that follow it: the map with that one value, and
-- the map with two entries, have the same text.
pub to_string_collision :
    (a b x y : String)
    → str_lt a b ≡ true
    → to_string ((a, concat x (concat "\"," (concat b (concat "=\"" y)))) ∷ [])
      ≡ to_string ((a, x) ∷ (b, y) ∷ [])
to_string_collision a b x y h =
    let after = str_lt_asymm a b h in
    let apart : (a == b) ≡ false = ground (arith, eq_iff a b, str_lt_irrefl b) in
    rw (to_string_one a _, to_string_two a b x y after apart)
      (unfold item in simp append_assoc (simp (join_laws, concat-comma, concat-closing)))
