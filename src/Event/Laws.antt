-- ===== src/Event/Laws.antt =====
-- What the methods of pkg/event promise.
use slo_exporter.Prelude.{
  String, ◌≡◌, ◌≢◌, ◌↔◌, ◌⊎◌, inl, inr, eq_iff, true, some, arith, Option-cases,
}
use slo_exporter.Prelude.Dict.{lookup, lookup-insert}
use slo_exporter.Event.{
  SloClassification, classification_matches, Raw, event_key, set_event_key, get_text, is_complete,
  is_classified, event_key_metadata_key,
}

-- A field of a pattern admits a value: it is empty, or they are equal.
abbrev pub Admits : String → String → Type 0
Admits pattern value = (pattern ≡ "") ⊎ (pattern ≡ value)

-- A classification matches another exactly when each of its fields is empty or equal to the
-- other's.
pub classification_matches_iff :
    (sc other : SloClassification)
    → (classification_matches sc other ≡ true)
      ↔ (Admits sc.domain other.domain × Admits sc.class other.class × Admits sc.app other.app)
unfolding classification_matches
classification_matches_iff sc other = ground (
  arith,
  eq_iff sc.domain "",
  eq_iff sc.class "",
  eq_iff sc.app "",
  eq_iff sc.domain other.domain,
  eq_iff sc.class other.class,
  eq_iff sc.app other.app,
)

module _ {F : Type 0} where
  -- An event key that is set is the key that is read, and setting it changes no other metadata.
  pub event_key-set_event_key :
      (r : Raw F) (k j : String)
      → event_key_metadata_key ≢ j
      → (event_key (set_event_key r k) ≡ k)
        × (lookup j (set_event_key r k).metadata ≡ lookup j r.metadata)
  unfolding event_key set_event_key get_text
  event_key-set_event_key r k j h = (
    ground (arith, lookup-insert event_key_metadata_key event_key_metadata_key k r.metadata),
    ground (
      arith,
      lookup-insert event_key_metadata_key j k r.metadata,
      eq_iff event_key_metadata_key j,
    ),
  )

  -- An event is classified exactly when it has a classification with three nonempty fields.
  pub is_classified_iff :
      (r : Raw F)
      → (is_classified r ≡ true)
        ↔ ((sc : SloClassification) × (r.slo_classification ≡ some sc) × (is_complete sc ≡ true))
  unfolding is_classified
  is_classified_iff r = elim (Option-cases r.slo_classification) [
    | inl e ↦ rw (e, is_classified) ((λ h. absurd (ground arith)), (λ h. absurd (ground arith)))
    | inr (sc, e) ↦ ((λ h. (sc, e, ground arith)), (λ h. ground arith))
  ]
