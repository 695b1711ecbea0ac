-- ===== src/Tests/Maps.antt =====
-- The string maps of pkg/stringmap and the methods of pkg/event at concrete values.
use slo_exporter.Prelude.{
  ◌≡◌, refl, true, [], ◌∷◌, concat, eq_iff, Bool-cases, inl, inr, ◌==◌, arith,
}
use slo_exporter.Prelude.Dict.{lookup}
use slo_exporter.Prelude.TextOrder.{str_lt}
use slo_exporter.StringMap.{StringMap, to_string}
use slo_exporter.StringMap.Render.Injective.{HasNoQuotes, to_string-injective}
use slo_exporter.StringMap.Render.Collision.{to_string_collision}

abbrev one_label : StringMap
one_label = ("app", "shop") ∷ []

one_label-HasNoQuotes : HasNoQuotes one_label
unfolding HasNoQuotes lookup
one_label-HasNoQuotes k v h = elim (Bool-cases ("app" == k)) [
  | inl app ↦
      let shop : "shop" ≡ v = ground arith in (rw (← (eq_iff "app" k).0 app) refl, rw (← shop) refl)
  | inr other ↦ absurd (ground arith)
]

to_string-injective_example : lookup "app" one_label ≡ lookup "app" one_label
to_string-injective_example =
    to_string-injective one_label one_label "app" one_label-HasNoQuotes one_label-HasNoQuotes refl

ordered : str_lt "a" "b" ≡ true
ordered = refl

to_string_collision_example :
    to_string (("a", concat "x" (concat "\"," (concat "b" (concat "=\"" "y")))) ∷ [])
    ≡ to_string (("a", "x") ∷ ("b", "y") ∷ [])
to_string_collision_example = to_string_collision "a" "b" "x" "y" ordered
