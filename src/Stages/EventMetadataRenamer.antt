-- ===== src/Stages/EventMetadataRenamer.antt =====
-- pkg/event_metadata_renamer/renamer.go.
use slo_exporter.Prelude.{
  ℕ, ◌+◌, String, ◌≡◌, ◌⊎◌, refl, false, ◌==◌, eq_iff, none, some, List, [], ◌∷◌, arith,
  Option-cases, inl, inr, length, contains, map,
}
use slo_exporter.Prelude.Dict.{
  lookup, insert, delete, IsMap, lookup-insert, lookup-delete, insert-IsMap, delete-IsMap,
  length-insert, length-delete,
}
use slo_exporter.StringMap.{StringMap}
use slo_exporter.Event.{Raw}

pub record RenamerConfig : Type 0 where
  pub source : String
  pub destination : String

-- One round of the loop, with the count of collisions.
unfoldable pub rename_one : RenamerConfig → StringMap × ℕ → StringMap × ℕ
rename_one c (m, collisions) = elim (lookup c.source m) [
  | none ↦ (m, collisions)
  | some v ↦ elim (lookup c.destination m) [
    | some _ ↦ (m, collisions + 1)
    | none ↦ (delete c.source (insert c.destination v m), collisions)
  ]
]

-- The loop of renameEventMetadata.
unfoldable pub rename_metadata : List RenamerConfig → StringMap × ℕ → StringMap × ℕ
rename_metadata [] st = st
rename_metadata (c ∷ cs) st = rename_metadata cs (rename_one c st)

module _ {F : Type 0} where
  unfoldable pub rename_event_metadata : List RenamerConfig → ℕ → Raw F → Raw F × ℕ
  rename_event_metadata configs collisions e =
      let (m, collisions') = rename_metadata configs (e.metadata, collisions) in
      (record e { metadata = m }, collisions')

  -- Run
  unfoldable pub run : List RenamerConfig → ℕ → List (Raw F) → List (Raw F) × ℕ
  run configs collisions [] = ([], collisions)
  run configs collisions (e ∷ es) =
      let (e', collisions') = rename_event_metadata configs collisions e in
      let (rest, collisions'') = run configs collisions' es in (e' ∷ rest, collisions'')

-- A round leaves the map as it is or moves a value to a free key.
rename_one-cases :
    (c : RenamerConfig) (m : StringMap) (n : ℕ)
    → ((rename_one c (m, n)).0 ≡ m)
      ⊎ ((v : String) × (lookup c.source m ≡ some v)
          × (lookup c.destination m ≡ none)
          × ((rename_one c (m, n)).0 ≡ delete c.source (insert c.destination v m)))
unfolding rename_one
rename_one-cases c m n = elim (Option-cases (lookup c.source m)) [
  | inl missing ↦ inl (ground arith)
  | inr (v, found) ↦ elim (Option-cases (lookup c.destination m)) [
    | inr (w, taken) ↦ inl (ground arith)
    | inl free ↦ inr (v, found, free, ground arith)
  ]
]

rename_one-IsMap :
    (c : RenamerConfig) (m : StringMap) (n : ℕ) → IsMap m → IsMap (rename_one c (m, n)).0
rename_one-IsMap c m n d = elim (rename_one-cases c m n) [
  | inl same ↦ rw same d
  | inr (v, found, free, moved) ↦
      rw moved (delete-IsMap c.source (insert c.destination v m) (insert-IsMap c.destination v m d))
]

rename_one-length :
    (c : RenamerConfig) (m : StringMap) (n : ℕ)
    → IsMap m
    → length (rename_one c (m, n)).0 ≡ length m
rename_one-length c m n d = elim (rename_one-cases c m n) [
  | inl same ↦ rw same refl
  | inr (v, found, free, moved) ↦
      let m' = insert c.destination v m in
      let known : lookup c.source m' ≡ some v =
        ground (arith, lookup-insert c.destination c.source v m) in
      rw moved (
        ground (
          arith,
          length-delete c.source v m' (insert-IsMap c.destination v m d) known,
          length-insert c.destination v m,
        ))
]

-- Renaming the keys of a map leaves a map, with as many keys as before.
pub rename_metadata-length :
    (configs : List RenamerConfig) (m : StringMap) (n : ℕ)
    → IsMap m
    → IsMap (rename_metadata configs (m, n)).0
      × (length (rename_metadata configs (m, n)).0 ≡ length m)
unfolding rename_metadata
rename_metadata-length [] m n d = (d, refl)
rename_metadata-length (c ∷ cs) m n d =
    let one = rename_one c (m, n) in
    let rest = rename_metadata-length cs one.0 one.1 (rename_one-IsMap c m n d) in
    (rest.0, ground (arith, rest.1, rename_one-length c m n d))

rename_one-keeps :
    (c : RenamerConfig) (m : StringMap) (n : ℕ) (k v : String)
    → (c.source == k) ≡ false
    → lookup k m ≡ some v
    → lookup k (rename_one c (m, n)).0 ≡ some v
rename_one-keeps c m n k v other h = elim (rename_one-cases c m n) [
  | inl same ↦ rw same h
  | inr (w, found, free, moved) ↦ rw moved (
      ground (
        arith,
        lookup-delete c.source k (insert c.destination w m),
        lookup-insert c.destination k w m,
        eq_iff c.destination k,
      ))
]

-- Renaming never overrides a value: a key that no configuration has as its source keeps its value.
pub rename_metadata-keeps :
    (configs : List RenamerConfig) (m : StringMap) (n : ℕ) (k v : String)
    → contains k (map (λ (c : RenamerConfig). c.source) configs) ≡ false
    → lookup k m ≡ some v
    → lookup k (rename_metadata configs (m, n)).0 ≡ some v
unfolding rename_metadata
rename_metadata-keeps [] m n k v other h = h
rename_metadata-keeps (c ∷ cs) m n k v other h =
    rename_metadata-keeps cs (rename_one c (m, n)).0 (rename_one c (m, n)).1 k v (ground arith)
      (rename_one-keeps c m n k v (ground arith) h)
