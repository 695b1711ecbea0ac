-- ===== src/Stages/MetadataClassifier.antt =====
-- pkg/metadata_classifier/metadata_cassifier.go.
use slo_exporter.Prelude.{
  ℕ, ◌+◌, String, ◌≡◌, Bool, false, not, ◌&&◌, ◌||◌, ◌==◌, eq_iff, Option, none, some, List, [],
  ◌∷◌, arith, if◌then◌else◌,
}
use slo_exporter.Prelude.Dict.{lookup}
use slo_exporter.StringMap.{StringMap}
use slo_exporter.Event.{Raw, SloClassification, is_classified, get_text}

-- metadataClassifier, with its counters of processed events.
pub record MetadataClassifier : Type 0 where
  pub override_existing_values : Bool
  pub domain_key : String
  pub class_key : String
  pub app_key : String
  pub generated : ℕ
  pub skipped : ℕ

abbrev pub overridden : Bool → Option String → String → String
overridden override none own = own
overridden override (some value) own = if override || own == "" then value else own

abbrev pub own_classification : Option SloClassification → SloClassification
own_classification none = record { domain = ""; app = ""; class = "" }
own_classification (some c) = record { domain = c.domain; app = c.app; class = c.class }

module _ {F : Type 0} where
  unfoldable pub generate_slo_classification : MetadataClassifier → Raw F → SloClassification
  generate_slo_classification mc e =
      let own = own_classification e.slo_classification in
      record {
        domain =
            overridden mc.override_existing_values (lookup mc.domain_key e.metadata) own.domain;
        app = overridden mc.override_existing_values (lookup mc.app_key e.metadata) own.app;
        class = overridden mc.override_existing_values (lookup mc.class_key e.metadata) own.class;
      }

  -- The body of Run's loop.
  unfoldable pub process : MetadataClassifier → Raw F → Raw F × MetadataClassifier
  process mc e =
      if not mc.override_existing_values && is_classified e
      then (e, record mc { skipped = mc.skipped + 1 })
      else (
        record e { slo_classification = some (generate_slo_classification mc e) },
        record mc { generated = mc.generated + 1 },
      )

  unfoldable pub run : MetadataClassifier → List (Raw F) → List (Raw F) × MetadataClassifier
  run mc [] = ([], mc)
  run mc (e ∷ es) =
      let (e', mc') = process mc e in let (rest, mc'') = run mc' es in (e' ∷ rest, mc'')

-- A field that is set stays, and an empty one gets the metadata's value, if there is one.
abbrev pub filled : StringMap → String → String → String
filled metadata key own = if own == "" then get_text metadata key else own

overridden-filled :
    (metadata : StringMap) (key own : String)
    → overridden false (lookup key metadata) own ≡ filled metadata key own
unfolding get_text
overridden-filled metadata key own = ground (arith, eq_iff own "")

-- Without overriding, an event that has a classification keeps the fields of it that are set and
-- gets the others from its metadata, empty where that has none, whether the event is skipped or
-- not.
pub process-filled :
    (mc : MetadataClassifier) (F : Type 0) (e : Raw F) (c : SloClassification)
    → mc.override_existing_values ≡ false
    → e.slo_classification ≡ some c
    → (process mc e).0.slo_classification
      ≡ some (record {
        domain = filled e.metadata mc.domain_key c.domain;
        app = filled e.metadata mc.app_key c.app;
        class = filled e.metadata mc.class_key c.class;
      })
unfolding process generate_slo_classification is_classified
process-filled mc F e c fill own = ground (
  arith,
  overridden-filled e.metadata mc.domain_key c.domain,
  overridden-filled e.metadata mc.app_key c.app,
  overridden-filled e.metadata mc.class_key c.class,
)
