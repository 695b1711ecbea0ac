-- ===== src/DynamicClassifier.antt =====
-- The classifier of pkg/dynamic_classifier: memory_exact_matcher.go, regexp_matcher.go and
-- dynamic_classifier.go. The errors of `get` and of the exact matcher's `set` are always nil in the
-- code. A CSV reader is the list of what its Read returns; locks, logs and timing are not modelled.
pub mod Laws
pub mod Csv
use slo_exporter.Prelude.{
  ℕ, ◌+◌, String, Bool, true, false, ◌==◌, Option, none, some, List, [], ◌∷◌, ◌++◌, concat, is_some,
  if◌then◌else◌,
}
use slo_exporter.Prelude.Dict.{Dict, lookup, insert}
use slo_exporter.StringMap.{StringMap}
use slo_exporter.Event.{
  SloClassification, Raw, event_key, get_text, is_classified, update_slo_classification,
}
use slo_exporter.Runtime.{TextLibrary}
use slo_exporter.Prelude.Results.{Result, ok, err}

-- memoryExactMatcher
abbrev pub ExactMatcher : Type 0
ExactMatcher = Dict SloClassification

pub data MatcherType : Type 0 where
  exact : MatcherType
  regexp : MatcherType

-- getType; the zero value of matcherType is the empty text.
abbrev pub type_name : Option MatcherType → String
type_name none = ""
type_name (some exact) = "exact"
type_name (some regexp) = "regexp"

-- errors of regexp.Compile, with the pattern
pub data RegexpError : Type 0 where
  bad_regexp : String → RegexpError

unfoldable pub exact_set : ExactMatcher → String → SloClassification → ExactMatcher
exact_set m key classification = insert key classification m

unfoldable pub exact_get : ExactMatcher → String → Option SloClassification
exact_get m key = lookup key m

-- The rows that dumpCSV writes, in the order in which the loop visits the map.
unfoldable pub exact_dump : ExactMatcher → List (List String)
exact_dump [] = []
exact_dump ((k, v) ∷ m) = (v.domain ∷ v.app ∷ v.class ∷ k ∷ []) ∷ exact_dump m

module _ (lib : TextLibrary) where
  open lib use {Regexp, compile, match_string}

  -- regexpSloClassification; `pattern_text` is what (*Regexp).String gives, the compiled text.
  pub record RegexpSloClassification : Type 0 where
    pub pattern_text : String
    pub regexp_compiled : Regexp
    pub classification : SloClassification

  abbrev pub RegexpMatcher : Type 0
  RegexpMatcher = List RegexpSloClassification

  unfoldable pub new_regex_slo_classification :
      String → SloClassification → Result RegexpError RegexpSloClassification
  new_regex_slo_classification text classification = elim (compile text) [
    | none ↦ err (bad_regexp text)
    | some r ↦
        ok (record { pattern_text = text; regexp_compiled = r; classification = classification })
  ]

  -- (*regexpMatcher).set
  unfoldable pub regexp_set :
      RegexpMatcher → String → SloClassification → Result RegexpError RegexpMatcher
  unfolding new_regex_slo_classification
  regexp_set m text classification = elim (new_regex_slo_classification text classification) [
    | err e ↦ err e
    | ok rec ↦ ok (m ++ rec ∷ [])
  ]

  -- The loop of (*regexpMatcher).get, which goes through all the matchers.
  unfoldable pub regexp_get_from :
      Option SloClassification → RegexpMatcher → String → Option SloClassification
  regexp_get_from classification [] key = classification
  regexp_get_from classification (r ∷ rest) key =
      regexp_get_from
        (if match_string r.regexp_compiled key
          then if is_some classification then classification else some r.classification
          else classification)
        rest key

  unfoldable pub regexp_get : RegexpMatcher → String → Option SloClassification
  regexp_get m key = regexp_get_from none m key

  unfoldable pub regexp_dump : RegexpMatcher → List (List String)
  regexp_dump [] = []
  regexp_dump (v ∷ m) =
      (v.classification.domain ∷ v.classification.app ∷ v.classification.class ∷ v.pattern_text
        ∷ [])
      ∷ regexp_dump m

  -- DynamicClassifier, with the label sets that its events metric has counted, the latest first.
  pub record DynamicClassifier : Type 0 where
    pub exact_matches : ExactMatcher
    pub regexp_matches : RegexpMatcher
    pub unclassified_event_metadata_keys : List String
    pub events_metric : List StringMap

  -- "metadata_" + strcase.ToSnake(key), with `to_snake` as a parameter
  abbrev pub metadata_key_to_label : (String → String) → String → String
  metadata_key_to_label to_snake key = concat "metadata_" (to_snake key)

  -- The loop of reportEvent.
  unfoldable pub report_labels :
      (String → String) → StringMap → String → StringMap → List String → StringMap
  report_labels to_snake labels result metadata [] = labels
  report_labels to_snake labels result metadata (key ∷ rest) =
      report_labels to_snake
        (insert (metadata_key_to_label to_snake key)
          (if result == "unclassified" then get_text metadata key else "") labels)
        result metadata rest

  unfoldable pub report_event :
      (String → String) → DynamicClassifier → String → String → StringMap → DynamicClassifier
  report_event to_snake dc result classified_by metadata = record dc {
    events_metric =
        report_labels to_snake (insert "classified_by" classified_by (insert "result" result []))
          result metadata dc.unclassified_event_metadata_keys
        ∷ dc.events_metric;
  }

  -- The loop of Classify over the two matchers: the classification and the matcher that gave it.
  unfoldable pub classify_by_matches :
      DynamicClassifier → String → Option (SloClassification × MatcherType)
  classify_by_matches dc key = elim (exact_get dc.exact_matches key) [
    | some c ↦ some (c, exact)
    | none ↦ elim (regexp_get dc.regexp_matches key) [ some c ↦ some (c, regexp) | none ↦ none ]
  ]

  -- "Those matched by regex we want to write to the exact matcher so it is cached"
  abbrev pub cache_match :
      DynamicClassifier → String → SloClassification → MatcherType → DynamicClassifier
  cache_match dc key c exact = dc
  cache_match dc key c regexp = record dc { exact_matches = exact_set dc.exact_matches key c }

  module _ {F : Type 0} where
    -- Classify, from the loop on: an event that is not classified yet.
    unfoldable pub classify_new :
        (String → String) → DynamicClassifier → Raw F → Bool × Raw F × DynamicClassifier
    classify_new to_snake dc e = elim (classify_by_matches dc (event_key e)) [
      | none ↦ (false, e, report_event to_snake dc "unclassified" (type_name none) e.metadata)
      | some (c, by) ↦ (
        true,
        update_slo_classification e (some c),
        cache_match (report_event to_snake dc "classified" (type_name (some by)) e.metadata)
            (event_key e) c by,
      )
    ]

    -- Classify: whether the event is classified, the event and the classifier afterwards.
    unfoldable pub classify :
        (String → String) → DynamicClassifier → Raw F → Bool × Raw F × DynamicClassifier
    classify to_snake dc e =
        let fresh = classify_new to_snake dc e in
        if is_classified e
        then elim e.slo_classification [
          | some own ↦
              (true, e, record dc { exact_matches = exact_set dc.exact_matches (event_key e) own })
          | none ↦ fresh
        ]
        else fresh

    -- Run: the events go on, classified or not.
    unfoldable pub run :
        (String → String) → DynamicClassifier → List (Raw F) → List (Raw F) × DynamicClassifier
    run to_snake dc [] = ([], dc)
    run to_snake dc (e ∷ es) =
        let (_, e', dc') = classify to_snake dc e in
        let (rest, dc'') = run to_snake dc' es in (e' ∷ rest, dc'')
