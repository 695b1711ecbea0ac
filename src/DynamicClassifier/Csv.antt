-- ===== src/DynamicClassifier/Csv.antt =====
-- Loading the matchers of pkg/dynamic_classifier/dynamic_classifier.go from CSV rows.
pub mod Files
use mathlib.Core.List.{append_assoc, append-nil}
use slo_exporter.Prelude.Dict.{lookup, insert, IsMap, lookup-insert}
use slo_exporter.Prelude.{if◌then◌else◌}
use slo_exporter.Prelude.{
  ap, arith, ◌↔◌, or_else, All, eq_iff, Option-cases, inl, inr, String, List, [], ◌∷◌, ◌++◌, ◌≡◌,
  refl, Option, none, some, ◌∙◌,
}
use slo_exporter.Event.{SloClassification}
use slo_exporter.Runtime.{TextLibrary}
use slo_exporter.Prelude.Results.{Result, ok, err}
use slo_exporter.Prelude.{◌==◌}
use slo_exporter.StringMap.{sort_strings}
use slo_exporter.DynamicClassifier.{
  DynamicClassifier, type_name, exact, regexp, RegexpSloClassification,
  new_regex_slo_classification, bad_regexp, exact_get, RegexpError, ExactMatcher, exact_set,
  exact_dump, RegexpMatcher, regexp_set, regexp_dump,
}

module _ {M : Type 0} (set : M → String → SloClassification → Result RegexpError M) where
  -- One line of loadMatchesFromCSV: an unexpected number of columns and an error of `set` are logged.
  abbrev pub load_line : M → List String → M
  load_line m (domain ∷ app ∷ class ∷ endpoint ∷ []) =
      elim (set m endpoint (record { domain = domain; app = app; class = class })) [
        | ok m' ↦ m'
        | err e ↦ m
      ]
  load_line m _ = m

  -- The loop of loadMatchesFromCSV over what the reader returns: it ends at an error, and what is
  -- loaded stays.
  unfoldable pub load_matches_from_csv :
      {R : Type 0} → M → List (Result R (List String)) → Option R × M
  load_matches_from_csv m [] = (none, m)
  load_matches_from_csv m (err e ∷ rest) = (some e, m)
  load_matches_from_csv m (ok line ∷ rest) = load_matches_from_csv (load_line m line) rest

  abbrev pub add_error : {R : Type 0} → Option R → List R → List R
  add_error none es = es
  add_error (some e) es = es ++ e ∷ []

  -- The loop of loadMatchesFromMultipleCSV: an error does not end it. A file is what opening it
  -- gives: an error, or what its reader returns.
  unfoldable pub load_matches_from_multiple_csv :
      {R : Type 0} → List R → M → List (Result R (List (Result R (List String)))) → List R × M
  load_matches_from_multiple_csv es m [] = (es, m)
  load_matches_from_multiple_csv es m (err e ∷ paths) =
      load_matches_from_multiple_csv (es ++ e ∷ []) m paths
  load_matches_from_multiple_csv es m (ok rows ∷ paths) =
      let (e, m') = load_matches_from_csv m rows in
      load_matches_from_multiple_csv (add_error e es) m' paths

-- The rows of a file that is read without an error.
abbrev pub rows_of : {R : Type 0} → List (List String) → List (Result R (List String))
rows_of [] = []
rows_of (r ∷ rs) = ok r ∷ rows_of rs

abbrev pub set_exact : ExactMatcher → String → SloClassification → Result RegexpError ExactMatcher
set_exact m key c = ok (exact_set m key c)

-- Loading the rows of an exact matcher, which has each key once, ends without an error and adds its
-- entries: a key has the row's classification, and where there is none, the one from before.
pub load-exact_rows :
    (R : Type 0) (k : String) (m acc : ExactMatcher)
    → IsMap m
    → ((load_matches_from_csv set_exact acc (rows_of {R = R} (exact_dump m))).0 ≡ none)
      × (exact_get (load_matches_from_csv set_exact acc (rows_of {R = R} (exact_dump m))).1 k
          ≡ or_else (exact_get m k) (exact_get acc k))
unfolding load_matches_from_csv exact_dump exact_get exact_set lookup
load-exact_rows R k [] acc d = (refl, refl)
load-exact_rows R k ((j, c) ∷ m) acc d =
    let later = load-exact_rows R k m (insert j c acc) d.1 in
    (later.0, ground (arith, later.1, lookup-insert j k c acc, eq_iff j k))

module _ (lib : TextLibrary) where
  -- Every regular expression of the matcher is compiled from its text.
  abbrev pub IsCompiled : RegexpMatcher lib → Type 0
  IsCompiled m =
      All (λ (r : RegexpSloClassification lib). lib.compile r.pattern_text ≡ some r.regexp_compiled)
        m

  -- Setting a pattern keeps that, and fails exactly when the pattern does not compile.
  pub regexp_set-IsCompiled :
      (m : RegexpMatcher lib) (text : String) (c : SloClassification)
      → IsCompiled m
      → (IsCompiled (elim (regexp_set lib m text c) [ ok m' ↦ m' | err _ ↦ m ]))
        × ((regexp_set lib m text c ≡ err (bad_regexp text)) ↔ (lib.compile text ≡ none))
  unfolding regexp_set new_regex_slo_classification
  regexp_set-IsCompiled m text c h = elim (Option-cases (lib.compile text)) [
    | inl bad ↦
        let failed : regexp_set lib m text c ≡ err (bad_regexp text) = ground arith in
        rw failed (h, ((λ _. bad), (λ _. refl)))
    | inr (r, good) ↦
        let rec : RegexpSloClassification lib = record {
          pattern_text = text;
          regexp_compiled = r;
          classification = c;
        } in
        let set_ok : regexp_set lib m text c ≡ ok (m ++ rec ∷ []) = ground arith in
        rw set_ok (All-snoc m rec h good, ((λ e. absurd (cc e)), (λ e. absurd (cc (good, e)))))
  ]
    where
      All-snoc :
          (m : RegexpMatcher lib) (r : RegexpSloClassification lib)
          → IsCompiled m
          → lib.compile r.pattern_text ≡ some r.regexp_compiled
          → IsCompiled (m ++ r ∷ [])
      All-snoc [] r h k = (k, tt)
      All-snoc (x ∷ m) r h k = (h.0, All-snoc m r h.1 k)

  -- Loading the rows of a regexp matcher whose regular expressions are compiled from their texts
  -- ends without an error and appends them, in their order.
  pub load-regexp_dump :
      (R : Type 0) (m acc : RegexpMatcher lib)
      → IsCompiled m
      → load_matches_from_csv (regexp_set lib) acc (rows_of {R = R} (regexp_dump lib m))
        ≡ (none, acc ++ m)
  unfolding load_matches_from_csv regexp_dump regexp_set new_regex_slo_classification
  load-regexp_dump R [] acc h = rw append-nil refl
  load-regexp_dump R (r ∷ m) acc h =
      ap
        (λ (l : RegexpMatcher lib).
          load_matches_from_csv (regexp_set lib) l (rows_of {R = R} (regexp_dump lib m)))
        (set_again acc r h.0)
      ∙ load-regexp_dump R m (acc ++ r ∷ []) h.1
      ∙ ap (λ (l : RegexpMatcher lib). (none, l)) (append_assoc acc (r ∷ []) m)
    where
      set_again :
          (acc : RegexpMatcher lib) (r : RegexpSloClassification lib)
          → lib.compile r.pattern_text ≡ some r.regexp_compiled
          → (elim (regexp_set lib acc r.pattern_text r.classification) [ ok m' ↦ m' | err _ ↦ acc ])
            ≡ acc ++ r ∷ []
      set_again acc r h = ground arith

-- The errors of New: those of the files with exact matches, or of the files with regexps.
pub data NewError (R : Type 0) : Type 0 where
  exact_matches_not_loaded : List R → NewError R
  regexp_matches_not_loaded : List R → NewError R

pub data DumpError : Type 0 where
  unknown_matcher : String → DumpError

module _ (lib : TextLibrary) where
  abbrev new_error :
      {R : Type 0}
      → List R
      → List R
      → DynamicClassifier lib
      → Result (NewError R) (DynamicClassifier lib)
  new_error (e ∷ es) regexp_errors dc = err (exact_matches_not_loaded (e ∷ es))
  new_error [] (e ∷ es) dc = err (regexp_matches_not_loaded (e ∷ es))
  new_error [] [] dc = ok dc

  -- New
  unfoldable pub new_dynamic_classifier :
      {R : Type 0}
      → List String
      → List (Result R (List (Result R (List String))))
      → List (Result R (List (Result R (List String))))
      → Result (NewError R) (DynamicClassifier lib)
  new_dynamic_classifier unclassified_event_metadata_keys exact_files regexp_files =
      let (exact_errors, exact_matches) =
        load_matches_from_multiple_csv set_exact [] [] exact_files in
      let (regexp_errors, regexp_matches) =
        load_matches_from_multiple_csv (regexp_set lib) [] [] regexp_files in
      new_error exact_errors regexp_errors (record {
        exact_matches = exact_matches;
        regexp_matches = regexp_matches;
        unclassified_event_metadata_keys = sort_strings unclassified_event_metadata_keys;
        events_metric = [];
      })

  -- DumpCSV
  unfoldable pub dump_csv : DynamicClassifier lib → String → Result DumpError (List (List String))
  dump_csv dc matcher_type =
      if matcher_type == type_name (some exact)
      then ok (exact_dump dc.exact_matches)
      else if matcher_type == type_name (some regexp)
      then ok (regexp_dump lib dc.regexp_matches)
      else err (unknown_matcher matcher_type)
