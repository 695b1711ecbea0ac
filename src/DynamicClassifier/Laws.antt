-- ===== src/DynamicClassifier/Laws.antt =====
-- What the classifier of pkg/dynamic_classifier/dynamic_classifier.go answers, and that its cache is
-- transparent.
use slo_exporter.Prelude.{
  String, true, false, ◌==◌, ◌≡◌, refl, Option, none, some, [], ◌∷◌, is_some, or_else, inl, inr,
  arith, eq_iff, if◌then◌else◌, Option-cases, Bool-cases,
}
use slo_exporter.Prelude.Dict.{lookup, insert, lookup-insert}
use slo_exporter.Event.{SloClassification, Raw, event_key, is_classified, update_slo_classification}
use slo_exporter.Runtime.{TextLibrary}
use slo_exporter.DynamicClassifier.{
  exact, regexp, exact_set, exact_get, RegexpMatcher, regexp_get_from, regexp_get,
  DynamicClassifier, classify_by_matches, report_event, classify_new, classify,
}

module _ (lib : TextLibrary) where
  open lib use {match_string}

  -- The classification of the first regular expression that matches.
  abbrev pub first_match : RegexpMatcher lib → String → Option SloClassification
  first_match [] key = none
  first_match (r ∷ rest) key =
      if match_string r.regexp_compiled key then some r.classification else first_match rest key

  regexp_get_from-first_match :
      (classification : Option SloClassification) (m : RegexpMatcher lib) (key : String)
      → regexp_get_from lib classification m key ≡ or_else classification (first_match m key)
  unfolding regexp_get_from
  regexp_get_from-first_match none [] key = refl
  regexp_get_from-first_match (some c) [] key = refl
  regexp_get_from-first_match none (r ∷ m) key =
      elim (Bool-cases (match_string r.regexp_compiled key)) [
        | inl hit ↦ rw hit (regexp_get_from-first_match (some r.classification) m key)
        | inr miss ↦ rw miss (regexp_get_from-first_match none m key)
      ]
  regexp_get_from-first_match (some c) (r ∷ m) key =
      elim (Bool-cases (match_string r.regexp_compiled key)) [
        | inl hit ↦ rw hit (regexp_get_from-first_match (some c) m key)
        | inr miss ↦ rw miss (regexp_get_from-first_match (some c) m key)
      ]

  -- The loop over all the regular expressions gives the classification of the first that matches.
  pub regexp_get-first_match :
      (m : RegexpMatcher lib) (key : String) → regexp_get lib m key ≡ first_match m key
  unfolding regexp_get
  regexp_get-first_match m key = regexp_get_from-first_match none m key

  -- What the classifier answers for a key: the exact match, and where there is none the first regular
  -- expression that matches.
  abbrev pub answer : DynamicClassifier lib → String → Option SloClassification
  answer dc key = or_else (lookup key dc.exact_matches) (first_match dc.regexp_matches key)

  known_match :
      (dc : DynamicClassifier lib) (key : String) (c : SloClassification)
      → lookup key dc.exact_matches ≡ some c
      → classify_by_matches lib dc key ≡ some (c, exact)
  unfolding classify_by_matches exact_get
  known_match dc key c known = ground arith

  regexp_match :
      (dc : DynamicClassifier lib) (key : String) (c : SloClassification)
      → lookup key dc.exact_matches ≡ none
      → first_match dc.regexp_matches key ≡ some c
      → classify_by_matches lib dc key ≡ some (c, regexp)
  unfolding classify_by_matches exact_get
  regexp_match dc key c unknown match = ground (arith, regexp_get-first_match dc.regexp_matches key)

  no_classification :
      (dc : DynamicClassifier lib) (key : String)
      → lookup key dc.exact_matches ≡ none
      → first_match dc.regexp_matches key ≡ none
      → classify_by_matches lib dc key ≡ none
  unfolding classify_by_matches exact_get
  no_classification dc key unknown no_match =
      ground (arith, regexp_get-first_match dc.regexp_matches key)

  cached :
      (dc : DynamicClassifier lib) (key k : String) (c : SloClassification)
      → lookup key dc.exact_matches ≡ none
      → first_match dc.regexp_matches key ≡ some c
      → or_else (lookup k (insert key c dc.exact_matches)) (first_match dc.regexp_matches k)
        ≡ or_else (lookup k dc.exact_matches) (first_match dc.regexp_matches k)
  cached dc key k c unknown match =
      ground (arith, lookup-insert key k c dc.exact_matches, eq_iff key k)

  not_classified :
      {F : Type 0} (e : Raw F) → e.slo_classification ≡ none → ¬ (is_classified e ≡ true)
  unfolding is_classified
  not_classified e missing h = cc (rw missing at h)

  module _ {F : Type 0} (to_snake : String → String) where
    unclassified_event :
        (dc : DynamicClassifier lib) (e : Raw F)
        → is_classified e ≡ false
        → classify lib to_snake dc e ≡ classify_new lib to_snake dc e
    unfolding classify
    unclassified_event dc e h = rw h refl

    -- An event that is not classified gets the answer for its key, if there is one, and is left as it
    -- is otherwise; and whatever is cached then, the classifier answers every key as before.
    pub classify-answer :
        (dc : DynamicClassifier lib) (e : Raw F) (k : String)
        → is_classified e ≡ false
        → ((classify lib to_snake dc e).0 ≡ is_some (answer dc (event_key e)))
          × ((classify lib to_snake dc e).1 ≡ elim (answer dc (event_key e)) [
            | none ↦ e
            | some c ↦ update_slo_classification e (some c)
          ])
          × (answer (classify lib to_snake dc e).2 k ≡ answer dc k)
    unfolding classify_new report_event exact_set
    classify-answer dc e k h = elim (Option-cases (lookup (event_key e) dc.exact_matches)) [
      | inr (c, known) ↦
          let by = known_match dc (event_key e) c known in
          rw (unclassified_event dc e h, by, classify_new, known) (refl, refl, refl)
      | inl unknown ↦ elim (Option-cases (first_match dc.regexp_matches (event_key e))) [
        | inl no_match ↦
            let by = no_classification dc (event_key e) unknown no_match in
            rw (unclassified_event dc e h, by, classify_new, unknown, no_match) (refl, refl, refl)
        | inr (c, match) ↦
            let by = regexp_match dc (event_key e) c unknown match in
            rw (unclassified_event dc e h, by, classify_new, unknown, match)
              (refl, refl, cached dc (event_key e) k c unknown match)
      ]
    ]

    -- An event that is classified already passes unchanged, and its classification is the answer for
    -- its key from then on; the other keys are answered as before.
    pub classify_classified :
        (dc : DynamicClassifier lib) (e : Raw F) (k : String)
        → is_classified e ≡ true
        → ((classify lib to_snake dc e).0 ≡ true)
          × ((classify lib to_snake dc e).1 ≡ e)
          × (answer (classify lib to_snake dc e).2 k
              ≡ (if event_key e == k then e.slo_classification else answer dc k))
    unfolding classify exact_set
    classify_classified dc e k h = elim (Option-cases e.slo_classification) [
      | inl missing ↦ absurd (not_classified e missing h)
      | inr (own, present) ↦
          let passed : classify lib to_snake dc e
              ≡ (true, e, record dc { exact_matches = insert (event_key e) own dc.exact_matches }) =
            ground arith in
          rw passed (refl, refl, ground (arith, lookup-insert (event_key e) k own dc.exact_matches))
    ]
