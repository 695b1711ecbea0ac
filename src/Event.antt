-- ===== src/Event.antt =====
-- The events of pkg/event: raw.go, slo.go and slo_classification.go. `F` stands for float64.
pub mod Laws
use slo_exporter.Prelude.{
  String, Bool, true, false, not, ◌&&◌, ◌==◌, Option, none, some, List, [], ◌∷◌, concat,
  if◌then◌else◌,
}
use slo_exporter.Prelude.Dict.{lookup, insert}
use slo_exporter.StringMap.{StringMap, copy}

pub record SloClassification : Type 0 where
  pub domain : String
  pub app : String
  pub class : String

-- (*SloClassification).Matches: an empty field of the receiver matches anything.
unfoldable pub classification_matches : SloClassification → SloClassification → Bool
classification_matches sc other =
    if not (sc.domain == "") && not (sc.domain == other.domain)
    then false
    else if not (sc.class == "") && not (sc.class == other.class)
    then false
    else if not (sc.app == "") && not (sc.app == other.app)
    then false
    else true

-- (*SloClassification).GetMetadata
unfoldable pub classification_metadata : SloClassification → StringMap
classification_metadata sc =
    ("slo_domain", sc.domain) ∷ ("slo_class", sc.class) ∷ ("app", sc.app) ∷ []

-- (*SloClassification).Copy
unfoldable pub classification_copy : SloClassification → SloClassification
classification_copy sc = record { domain = sc.domain; app = sc.app; class = sc.class }

-- (*SloClassification).String
unfoldable pub classification_string : SloClassification → String
classification_string sc = concat sc.domain (concat ":" (concat sc.app (concat ":" sc.class)))

-- A nil classification is `none`.
pub record Raw (F : Type 0) : Type 0 where
  pub metadata : StringMap
  pub slo_classification : Option SloClassification
  pub quantity : F

abbrev pub event_key_metadata_key : String
event_key_metadata_key = "__eventKey"

-- m[k] of a map of strings: the empty text where the key is missing.
unfoldable pub get_text : StringMap → String → String
get_text m k = elim (lookup k m) [ none ↦ "" | some v ↦ v ]

-- All three fields are set.
abbrev pub is_complete : SloClassification → Bool
is_complete sc = not (sc.domain == "") && not (sc.app == "") && not (sc.class == "")

module _ {F : Type 0} where
  unfoldable pub event_key : Raw F → String
  event_key r = get_text r.metadata event_key_metadata_key

  unfoldable pub set_event_key : Raw F → String → Raw F
  set_event_key r k = record r { metadata = insert event_key_metadata_key k r.metadata }

  -- UpdateSLOClassification
  unfoldable pub update_slo_classification : Raw F → Option SloClassification → Raw F
  update_slo_classification r classification = record r { slo_classification = classification }

  -- (*Raw).IsClassified
  unfoldable pub is_classified : Raw F → Bool
  is_classified r = elim r.slo_classification [ none ↦ false | some sc ↦ is_complete sc ]

  -- GetSloMetadata
  unfoldable pub get_slo_metadata : Raw F → StringMap
  get_slo_metadata r = elim r.slo_classification [
    | none ↦ []
    | some sc ↦ classification_metadata sc
  ]

-- Result is a string in the code, so an event may carry any.
abbrev pub success : String
success = "success"

abbrev pub fail : String
fail = "fail"

abbrev pub possible_results : List String
possible_results = success ∷ fail ∷ []

pub record Slo (F : Type 0) : Type 0 where
  pub key : String
  pub result : String
  pub domain : String
  pub class : String
  pub app : String
  pub metadata : StringMap
  pub quantity : F
  pub original_event : Raw F

module _ {F : Type 0} where
  -- (*Slo).IsClassified
  unfoldable pub slo_is_classified : Slo F → Bool
  slo_is_classified s = not (s.domain == "") && not (s.class == "") && not (s.app == "")

  -- (Slo).Copy: the literal sets no quantity, so the copy has the zero value.
  unfoldable pub slo_copy : F → Slo F → Slo F
  slo_copy zero_value s = record {
    key = s.key;
    result = s.result;
    domain = s.domain;
    class = s.class;
    app = s.app;
    metadata = copy s.metadata;
    quantity = zero_value;
    original_event = s.original_event;
  }
