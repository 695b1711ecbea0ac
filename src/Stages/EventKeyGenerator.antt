-- ===== src/Stages/EventKeyGenerator.antt =====
-- pkg/event_key_generator/event_key_generator.go.
use slo_exporter.Prelude.{
  ℕ, ◌+◌, String, ◌≡◌, refl, Bool, true, false, ◌||◌, ◌==◌, none, some, List, [], ◌∷◌, concat,
  if◌then◌else◌, Option-cases, inl, inr, ap, ◌∙◌,
}
use slo_exporter.Prelude.Dict.{lookup}
use slo_exporter.StringMap.{StringMap, values_by_keys, join}
use slo_exporter.Event.{Raw, event_key, set_event_key}
use text.Mathlib.TextLemmas.{append_assoc}

-- EventKeyGenerator, with its counters of processed events.
pub record EventKeyGenerator : Type 0 where
  pub separator : String
  pub override_existing_key : Bool
  pub metadata_keys : List String
  pub generated : ℕ
  pub skipped : ℕ

-- The loop of generateEventKey.
unfoldable pub generate_from : String → StringMap → Bool → String → List String → String
generate_from separator metadata first key_so_far [] = key_so_far
generate_from separator metadata first key_so_far (key ∷ rest) = elim (lookup key metadata) [
  | none ↦ generate_from separator metadata first key_so_far rest
  | some value ↦
      if first
      then generate_from separator metadata false value rest
      else generate_from separator metadata false (concat key_so_far (concat separator value)) rest
]

unfoldable pub generate_event_key : EventKeyGenerator → StringMap → String
generate_event_key g metadata = generate_from g.separator metadata true "" g.metadata_keys

module _ {F : Type 0} where
  -- The body of Run's loop.
  unfoldable pub process : EventKeyGenerator → Raw F → Raw F × EventKeyGenerator
  process g e =
      if (event_key e == "") || g.override_existing_key
      then (
        set_event_key e (generate_event_key g e.metadata),
        record g { generated = g.generated + 1 },
      )
      else (e, record g { skipped = g.skipped + 1 })

  unfoldable pub run : EventKeyGenerator → List (Raw F) → List (Raw F) × EventKeyGenerator
  run g [] = ([], g)
  run g (e ∷ es) = let (e', g') = process g e in let (rest, g'') = run g' es in (e' ∷ rest, g'')

-- The rest of the key behind what is written already.
abbrev continued : String → String → List String → String
continued separator key_so_far [] = key_so_far
continued separator key_so_far (v ∷ vs) =
    continued separator (concat key_so_far (concat separator v)) vs

join_prefix :
    (separator a b v : String) (vs : List String)
    → join separator (concat a (concat b v) ∷ vs) ≡ concat a (concat b (join separator (v ∷ vs)))
unfolding join
join_prefix separator a b v [] = refl
join_prefix separator a b v (w ∷ vs) =
    let more = concat separator (join separator (w ∷ vs)) in
    append_assoc a (concat b v) more ∙ ap (concat a) (append_assoc b v more)

continued-join :
    (separator v : String) (vs : List String) → continued separator v vs ≡ join separator (v ∷ vs)
unfolding join
continued-join separator v [] = refl
continued-join separator v (w ∷ vs) =
    continued-join separator (concat v (concat separator w)) vs
    ∙ join_prefix separator v separator w vs

generate_from-continued :
    (separator : String) (metadata : StringMap) (key_so_far : String) (ks : List String)
    → generate_from separator metadata false key_so_far ks
      ≡ continued separator key_so_far (values_by_keys metadata ks)
unfolding generate_from values_by_keys
generate_from-continued separator metadata key_so_far [] = refl
generate_from-continued separator metadata key_so_far (key ∷ ks) =
    elim (Option-cases (lookup key metadata)) [
      | inl missing ↦
          rw (missing, values_by_keys, generate_from)
            (generate_from-continued separator metadata key_so_far ks)
      | inr (v, found) ↦
          rw (found, values_by_keys, generate_from)
            (generate_from-continued separator metadata (concat key_so_far (concat separator v)) ks)
    ]

generate_from-join :
    (separator : String) (metadata : StringMap) (ks : List String)
    → generate_from separator metadata true "" ks ≡ join separator (values_by_keys metadata ks)
unfolding generate_from values_by_keys join
generate_from-join separator metadata [] = refl
generate_from-join separator metadata (key ∷ ks) = elim (Option-cases (lookup key metadata)) [
  | inl missing ↦
      rw (missing, values_by_keys, generate_from) (generate_from-join separator metadata ks)
  | inr (v, found) ↦
      rw (found, values_by_keys, generate_from)
        (generate_from-continued separator metadata v ks
          ∙ continued-join separator v (values_by_keys metadata ks))
]

-- The generated key is the values of the configured metadata keys that the event has, joined by the
-- separator, however the loop keeps track of the first of them.
pub generate_event_key-join :
    (g : EventKeyGenerator) (metadata : StringMap)
    → generate_event_key g metadata ≡ join g.separator (values_by_keys metadata g.metadata_keys)
unfolding generate_event_key
generate_event_key-join g metadata = generate_from-join g.separator metadata g.metadata_keys
