-- ===== src/DynamicClassifier/Csv/Files.antt =====
-- The CSV files that pkg/dynamic_classifier writes and reads. encoding/csv is a parameter: its writer,
-- and its reader with the rune that begins a comment.
use text.Mathlib.Text.{starts_with, find?}
use slo_exporter.Prelude.{or_else, All, String, List, [], ◌∷◌, ◌≡◌, false, Option, none, is_some}
use slo_exporter.Prelude.Dict.{IsMap}
use slo_exporter.Event.{SloClassification}
use slo_exporter.Prelude.Results.{Result}
use slo_exporter.DynamicClassifier.{exact_get, RegexpError, ExactMatcher, exact_dump}
use slo_exporter.DynamicClassifier.Csv.{load_matches_from_csv, rows_of, set_exact, load-exact_rows}

-- `read` is what the calls of Read return up to the end of the file.
pub record CsvLibrary (R : Type 0) : Type 1 where
  pub File : Type 0
  pub write : List (List String) → File
  pub read : String → File → List (Result R (List String))

-- csvReader.Comment
abbrev pub comment : String
comment = "#"

-- A row of four fields that the reader gives back as the writer wrote it: it does not begin a comment,
-- and it has no carriage return, which the reader drops in front of a newline.
abbrev pub IsPlain : List String → Type 0
IsPlain (domain ∷ app ∷ class ∷ endpoint ∷ []) =
    (starts_with domain comment ≡ false)
    × All (λ (s : String). is_some (find? s "\r") ≡ false) (domain ∷ app ∷ class ∷ endpoint ∷ [])
IsPlain _ = ⊥

-- The documented behaviour of encoding/csv.
abbrev pub KeepsPlain : {R : Type 0} → CsvLibrary R → Type 0
KeepsPlain {R} csv =
    (rows : List (List String))
    → All IsPlain rows
    → csv.read comment (csv.write rows) ≡ rows_of {R = R} rows

module _ {R : Type 0} (csv : CsvLibrary R) where
  -- dumpCSV of the exact matcher
  unfoldable pub dump_exact_file : ExactMatcher → csv.File
  dump_exact_file m = csv.write (exact_dump m)

  -- loadMatchesFromCSV of a file that is opened
  unfoldable pub load_matches_from_file :
      {M : Type 0}
      → (M → String → SloClassification → Result RegexpError M)
      → M
      → csv.File
      → Option R × M
  load_matches_from_file set m file = load_matches_from_csv set m (csv.read comment file)

  -- Where encoding/csv reads plain rows as it wrote them: loading the file that an exact matcher is
  -- dumped to ends without an error and adds its entries, if the matcher has each key once, no domain
  -- of it begins with a #, which begins a comment, and none of its texts has a carriage return. A key
  -- then has the dumped classification, and where there is none, the one from before.
  pub load-exact_dump :
      KeepsPlain csv
      → (k : String) (m acc : ExactMatcher) → IsMap m
      → All IsPlain (exact_dump m)
      → let loaded = load_matches_from_file set_exact acc (dump_exact_file m) in
        (loaded.0 ≡ none) × (exact_get loaded.1 k ≡ or_else (exact_get m k) (exact_get acc k))
  unfolding dump_exact_file load_matches_from_file
  load-exact_dump keeps k m acc d plain =
      rw (keeps (exact_dump m) plain) (load-exact_rows R k m acc d)
