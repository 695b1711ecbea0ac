-- ===== src/StringMap/Matching.antt =====
-- What Matches of pkg/stringmap/stringmap.go decides.
use slo_exporter.Prelude.{
  String, ◌≡◌, refl, eq_iff, ◌↔◌, ◌≤◌, true, none, some, [], ◌∷◌, length, arith, inl, inr,
  Option-cases,
}
use slo_exporter.Prelude.Dict.{lookup, delete, IsMap, lookup-delete, delete-IsMap, length-delete}
use slo_exporter.StringMap.{StringMap, all_in, matches}

-- Every entry of the first map is an entry of the second.
abbrev pub Included : StringMap → StringMap → Type 0
Included m other = (k v : String) → lookup k m ≡ some v → lookup k other ≡ some v

Included-tail :
    (k v : String) (m other : StringMap)
    → lookup k m ≡ none
    → Included ((k, v) ∷ m) other
    → Included m (delete k other)
unfolding lookup
Included-tail k v m other fresh h j w e = ground (arith, lookup-delete k j other, h j w, eq_iff k j)

-- An included map is no longer: the early return of the code on lengths decides nothing.
length_of_Included :
    (m other : StringMap) → IsMap m → IsMap other → Included m other → length m ≤ length other
length_of_Included [] other d e h = omega arith
length_of_Included ((k, v) ∷ m) other d e h =
    let found : lookup k other ≡ some v = h k v (unfold lookup in ground (arith, eq_iff k k)) in
    omega (
      arith,
      length-delete k v other e found,
      length_of_Included m (delete k other) d.1 (delete-IsMap k other e)
          (Included-tail k v m other d.0 h),
    )

all_in_complete : (m other : StringMap) → IsMap m → Included m other → all_in m other ≡ true
unfolding all_in
all_in_complete [] other d h = refl
all_in_complete ((k, v) ∷ m) other d h =
    let found : lookup k other ≡ some v = h k v (unfold lookup in ground (arith, eq_iff k k)) in
    let rest : all_in m other ≡ true =
      all_in_complete m other d.1 (λ j w e. h j w (unfold lookup in ground (arith, eq_iff k j))) in
    rw (found, all_in) (ground (arith, eq_iff v v))

all_in_sound :
    (m other : StringMap) (j w : String)
    → all_in m other ≡ true
    → lookup j m ≡ some w
    → lookup j other ≡ some w
unfolding all_in lookup
all_in_sound [] other j w h e = absurd (ground arith)
all_in_sound ((k, v) ∷ m) other j w h e = elim (Option-cases (lookup k other)) [
  | inl q ↦ absurd (ground arith)
  | inr (u, q) ↦ ground (arith, eq_iff v u, eq_iff k j, all_in_sound m other j w)
]

-- On maps, Matches is true exactly when every key of the first map is present in the second and
-- refers to the same value.
pub matches_iff :
    (m other : StringMap) → IsMap m → IsMap other → (matches m other ≡ true) ↔ Included m other
matches_iff m other d e = (
  λ h j w e. all_in_sound m other j w (unfold matches in ground arith) e,
  λ h.
      unfold matches in
      ground (arith, all_in_complete m other d h, length_of_Included m other d e h),
)
