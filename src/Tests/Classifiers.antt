-- ===== src/Tests/Classifiers.antt =====
-- The classifiers of pkg/dynamic_classifier and pkg/statistical_classifier at concrete events.
use slo_exporter.Prelude.{
  ℕ, ◌<◌, ◌+◌, All, String, ◌≡◌, refl, true, false, Option, none, some, List, [], ◌∷◌, length, pos,
  is_some, or_else, arith, ap, if◌then◌else◌,
}
use slo_exporter.Prelude.Dict.{lookup, IsMap}
use slo_exporter.Event.{SloClassification, Raw, event_key, is_classified, update_slo_classification}
use slo_exporter.Prelude.Results.{Result, ok}
use slo_exporter.Storage.{new_in_memory_capped_container}
use slo_exporter.DynamicClassifier.{
  DynamicClassifier, RegexpMatcher, ExactMatcher, exact_dump, exact_get, classify,
}
use text.Mathlib.Text.{starts_with}
use slo_exporter.DynamicClassifier.Csv.{set_exact}
use slo_exporter.DynamicClassifier.Csv.Files.{
  CsvLibrary, IsPlain, KeepsPlain, dump_exact_file, load_matches_from_file, load-exact_dump,
}
use slo_exporter.DynamicClassifier.Laws.{answer, classify-answer}
use slo_exporter.StatisticalClassifier.{
  WeightedClassifier, ClassificationMapping, archive, set_weights, mapping_weights, guess_class,
  index_out_of_range, new_weighted_classification_set,
}
use slo_exporter.StatisticalClassifier.Laws.{IsSound, weight_at, sum_from, archive-weights}
use slo_exporter.StatisticalClassifier.Running.{
  new_statistical_classifier, Input, arrives, ticks, ticks_within, Sent, run,
}
use slo_exporter.StatisticalClassifier.Running.Laws.{
  no_counts, arriving, arriving_classified, run-accounts,
}
use slo_exporter.Tests.Samples.{numbers, texts, web, failed_request, unclassified_request}

abbrev matching : RegexpMatcher texts
matching = record { pattern_text = "buy"; regexp_compiled = "buy"; classification = web } ∷ []

abbrev classifier : DynamicClassifier texts
classifier = record {
  exact_matches = [];
  regexp_matches = matching;
  unclassified_event_metadata_keys = "status" ∷ [];
  events_metric = [];
}

unclassified : is_classified unclassified_request ≡ false
unfolding is_classified
unclassified = refl

classify-answer_example :
    ((classify texts (λ s. s) classifier unclassified_request).0
      ≡ is_some (answer texts classifier (event_key unclassified_request)))
    × ((classify texts (λ s. s) classifier unclassified_request).1
        ≡ elim (answer texts classifier (event_key unclassified_request)) [
          | none ↦ unclassified_request
          | some c ↦ update_slo_classification unclassified_request (some c)
        ])
    × (answer texts (classify texts (λ s. s) classifier unclassified_request).2 "buy"
        ≡ answer texts classifier "buy")
classify-answer_example =
    classify-answer texts (λ s. s) classifier unclassified_request "buy" unclassified

abbrev exact_entries : ExactMatcher
exact_entries = ("buy", web) ∷ ("pay", web) ∷ []

exact_entries-IsMap : IsMap exact_entries
unfolding lookup
exact_entries-IsMap = (refl, (refl, tt))

-- Rows for a file; a row that begins with the comment's rune is skipped.
abbrev kept_rows : String → List (List String) → List (Result String (List String))
kept_rows begin [] = []
kept_rows begin ([] ∷ rows) = ok [] ∷ kept_rows begin rows
kept_rows begin ((field ∷ fields) ∷ rows) =
    if starts_with field begin
    then kept_rows begin rows
    else ok (field ∷ fields) ∷ kept_rows begin rows

abbrev rows_library : CsvLibrary String
rows_library = record { File = List (List String); write = λ rows. rows; read = kept_rows }

rows_library-KeepsPlain : KeepsPlain rows_library
rows_library-KeepsPlain [] h = refl
rows_library-KeepsPlain ((a ∷ b ∷ c ∷ d ∷ []) ∷ rows) h =
    rw (h.0.0, kept_rows) (ap (◌∷◌ (ok (a ∷ b ∷ c ∷ d ∷ []))) (rows_library-KeepsPlain rows h.1))
rows_library-KeepsPlain (_ ∷ rows) h = absurd h.0

exact_entries-IsPlain : All IsPlain (exact_dump exact_entries)
unfolding exact_dump
exact_entries-IsPlain =
    ((refl, (refl, (refl, (refl, (refl, tt))))), ((refl, (refl, (refl, (refl, (refl, tt))))), tt))

load-exact_dump_example :
    let loaded =
      load_matches_from_file rows_library set_exact []
        (dump_exact_file rows_library exact_entries) in
    (loaded.0 ≡ none)
    × (exact_get loaded.1 "pay" ≡ or_else (exact_get exact_entries "pay") (exact_get [] "pay"))
load-exact_dump_example =
    load-exact_dump rows_library rows_library-KeepsPlain "pay" exact_entries [] exact_entries-IsMap
      exact_entries-IsPlain

abbrev recent : ClassificationMapping ℕ
recent = ("web:shop:critical", record { classification = web; weight = 3 }) ∷ []

abbrev weighted : WeightedClassifier ℕ
weighted = record {
  history = record { items = []; capacity = pos 2 };
  total_weights_over_history = new_weighted_classification_set;
  default_weights = none;
  recent_weights = recent;
  weight_gauge = [];
}

weighted-IsSound : IsSound numbers weighted
unfolding lookup
weighted-IsSound = record {
  capped = omega arith;
  history_keyed = tt;
  recent_keyed = ((unfold slo_exporter.Event.classification_string in refl), refl, tt);
  total_aligned = refl;
  default_aligned = λ set h. absurd (cc h);
}

archive-weights_example :
    (m : ClassificationMapping ℕ) × ((archive numbers weighted).total_weights_over_history
      ≡ set_weights (mapping_weights m))
    × ((k : String) → weight_at numbers k m ≡ sum_from numbers k none (recent ∷ []))
archive-weights_example = archive-weights numbers weighted weighted-IsSound

abbrev take_first : List ℕ → Option ℕ
take_first [] = none
take_first (w ∷ ws) = some 0

take_first-within : (ws : List ℕ) (i : ℕ) → take_first ws ≡ some i → i < length ws
take_first-within [] i h = absurd (cc h)
take_first-within (w ∷ ws) i h = ground arith

abbrev defaults : List (String × String × ℕ)
defaults = ("web", "critical", 3) ∷ []

abbrev started : WeightedClassifier ℕ
started = record {
  history = record { items = []; capacity = pos 3 };
  total_weights_over_history = new_weighted_classification_set;
  default_weights = some (record {
    enumerated_classifications =
        record {
          classification = record {
            domain = "web";
            app = "statistically-guessed";
            class = "critical";
          };
          weight = 3;
        }
        ∷ [];
    classification_weights = 3 ∷ [];
  });
  recent_weights = [];
  weight_gauge = record { slo_domain = "web"; slo_class = "critical"; value = 3 } ∷ [];
}

starts : new_statistical_classifier (pos 60) (pos 20) defaults ≡ ok started
unfolding new_statistical_classifier slo_exporter.StatisticalClassifier.new_weighted_classifier
    new_in_memory_capped_container
    slo_exporter.StatisticalClassifier.Running.default_weights_set_from_config
    slo_exporter.StatisticalClassifier.set_gauge set_weights
    slo_exporter.StatisticalClassifier.Running.default_weights_of
starts = refl

abbrev guess_inputs : List (Input ℕ)
guess_inputs =
    arrives failed_request take_first ∷ ticks ∷ ticks_within unclassified_request take_first ∷ []

run-accounts_example :
    let start : Sent ℕ = record { events = []; classifier = started; counters = no_counts } in
    let outcome = run numbers (pos 20) start guess_inputs in
    (true ≡ false → outcome ≡ none)
    × (true ≡ true
        → (end : Sent ℕ) × (outcome ≡ some end)
          × (end.counters.unclassified + end.counters.classified + end.counters.increased_weight
              ≡ arriving numbers guess_inputs)
          × (end.counters.increased_weight ≡ arriving_classified numbers guess_inputs)
          × (end.counters.failed_to_classify ≡ end.counters.unclassified)
          × (length end.events + end.counters.failed_to_classify ≡ arriving numbers guess_inputs)
          × All (λ (e : Raw ℕ). is_some e.slo_classification ≡ true) end.events)
unfolding slo_exporter.Event.is_classified
run-accounts_example =
    run-accounts numbers (pos 60) (pos 20) defaults started guess_inputs starts
      (take_first-within, (tt, ((refl, take_first-within), tt)))
