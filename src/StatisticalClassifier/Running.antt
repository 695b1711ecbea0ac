-- ===== src/StatisticalClassifier/Running.antt =====
-- The module of pkg/statistical_classifier/statistical_classifier.go, with the goroutine of
-- (*weightedClassifier).Run. What a guess draws comes with the event that it is for.
pub mod Outcomes
pub mod Laws
use slo_exporter.Prelude.{
  ℕ, ◌+◌, String, Bool, true, false, not, Option, none, some, List, [], ◌∷◌, ◌++◌, length, ltb, ℤ,
  pos, gt_ℤ, if◌then◌else◌,
}
use slo_exporter.Event.{
  SloClassification, Raw, classification_copy, is_classified, update_slo_classification,
}
use slo_exporter.Prelude.Results.{Result, ok, err}
use slo_exporter.Runtime.{Float64}
use slo_exporter.StatisticalClassifier.{
  ClassificationWeight, WeightedClassificationSet, WeightedClassifier, ClassifierError,
  zero_interval, not_enough_data, index_out_of_range, set_weights, set_gauge,
  new_weighted_classifier, increase_weight, archive, guess_class,
}

abbrev pub guessed_label_placeholder : String
guessed_label_placeholder = "statistically-guessed"

-- The loop of defaultWeightsSetFromConfig: the domain, the class and the weight of each default.
unfoldable pub default_weights_of :
    {F : Type 0} → List (String × String × F) → List (ClassificationWeight F)
default_weights_of [] = []
default_weights_of ((domain, class, weight) ∷ rest) =
    record {
      classification = record { domain = domain; app = guessed_label_placeholder; class = class };
      weight = weight;
    }
    ∷ default_weights_of rest

unfoldable pub default_weights_set_from_config :
    {F : Type 0} → List (String × String × F) → Option (WeightedClassificationSet F)
default_weights_set_from_config defaults =
    if ltb (length defaults) 1 then none else some (set_weights (default_weights_of defaults))

-- New
unfoldable pub new_statistical_classifier :
    {F : Type 0}
    → ℤ
    → ℤ
    → List (String × String × F)
    → Result ClassifierError (WeightedClassifier F)
new_statistical_classifier window_size history_update_interval defaults =
    elim (new_weighted_classifier window_size history_update_interval) [
      | err e ↦ err e
      | ok classifier ↦ ok (record classifier {
        default_weights = default_weights_set_from_config defaults;
        weight_gauge = set_gauge (default_weights_of defaults) [];
      })
    ]

-- eventsTotal by result, and errorsTotal of failed classifications; archive does not fail, since only
-- maps of weights are put into the history.
pub record Counters : Type 0 where
  pub unclassified : ℕ
  pub classified : ℕ
  pub increased_weight : ℕ
  pub failed_to_classify : ℕ

-- What Classify leaves, unless it panics.
pub record Classified (F : Type 0) : Type 0 where
  pub error : Option ClassifierError
  pub event : Raw F
  pub classifier : WeightedClassifier F
  pub counters : Counters

-- What happens to the module: an event arrives, with what the sampler takes for it; the ticker of
-- (*weightedClassifier).Run ticks; or the ticker ticks while Classify is at an event.
pub data Input (F : Type 0) : Type 0 where
  arrives : Raw F → (List F → Option ℕ) → Input F
  ticks : Input F
  ticks_within : Raw F → (List F → Option ℕ) → Input F

-- What Run has sent, with the classifier and the counters.
pub record Sent (F : Type 0) : Type 0 where
  pub events : List (Raw F)
  pub classifier : WeightedClassifier F
  pub counters : Counters

abbrev pub sanitize_guessed_classification : SloClassification → SloClassification
sanitize_guessed_classification c = record (classification_copy c) {
  app = guessed_label_placeholder;
}

module _ (fl : Float64) where
  open fl use {F}

  -- Classify where guessClass fails, where it guesses, and where the event is classified already.
  abbrev pub refused : WeightedClassifier F → Counters → Raw F → ClassifierError → Classified F
  refused s n e x = record {
    error = some x;
    event = e;
    classifier = s;
    counters = record n { unclassified = n.unclassified + 1 };
  }

  abbrev pub guessed : WeightedClassifier F → Counters → Raw F → SloClassification → Classified F
  guessed s n e c = record {
    error = none;
    event = update_slo_classification e (some c);
    classifier = s;
    counters = record n { classified = n.classified + 1 };
  }

  abbrev pub observed : WeightedClassifier F → Counters → Raw F → SloClassification → Classified F
  observed s n e c = record {
    error = none;
    event = e;
    classifier = increase_weight fl s (sanitize_guessed_classification c) fl.one;
    counters = record n { increased_weight = n.increased_weight + 1 };
  }

  -- Classify of an event that is not classified; `none` is a panic.
  unfoldable pub classify_guessed :
      (List F → Option ℕ) → WeightedClassifier F → Counters → Raw F → Option (Classified F)
  classify_guessed take_weighted s n e = elim (guess_class fl take_weighted s) [
    | err x ↦ elim x [ index_out_of_range ↦ none | other ↦ some (refused s n e other) ]
    | ok c ↦ some (guessed s n e c)
  ]

  unfoldable pub classify :
      (List F → Option ℕ) → WeightedClassifier F → Counters → Raw F → Option (Classified F)
  classify take_weighted s n e = elim e.slo_classification [
    | none ↦ classify_guessed take_weighted s n e
    | some c ↦
        if not (is_classified e)
        then classify_guessed take_weighted s n e
        else some (observed s n e c)
  ]

  -- The body of Run's loop: an event that cannot be classified is dropped and counted as an error.
  unfoldable pub on_event : Sent F → Classified F → Sent F
  on_event sent c = elim (c.error) [
    | none ↦ record {
      events = sent.events ++ c.event ∷ [];
      classifier = c.classifier;
      counters = c.counters;
    }
    | some x ↦ record {
      events = sent.events;
      classifier = c.classifier;
      counters = record (c.counters) { failed_to_classify = c.counters.failed_to_classify + 1 };
    }
  ]

  abbrev pub archived : Sent F → Sent F
  archived sent = record sent { classifier = archive fl sent.classifier }

  unfoldable pub on_arrival : Sent F → Raw F → (List F → Option ℕ) → Option (Sent F)
  on_arrival sent e take_weighted = elim (classify take_weighted sent.classifier sent.counters e) [
    | none ↦ none
    | some c ↦ some (on_event sent c)
  ]

  -- One input; `none` is a panic, or an error with which Go's runtime may end the program. guessClass
  -- and archive take the lock, so one comes before the other: here archive, and the other order is an
  -- arrival with a tick behind it; increaseWeight does not take it, and
  -- writes the map that archive puts into the history and reads.
  unfoldable pub on_input : Sent F → Input F → Option (Sent F)
  on_input sent (arrives e take_weighted) = on_arrival sent e take_weighted
  on_input sent ticks = some (archived sent)
  on_input sent (ticks_within e take_weighted) =
      if is_classified e then none else on_arrival (archived sent) e take_weighted

  unfoldable pub on_inputs : Sent F → List (Input F) → Option (Sent F)
  on_inputs sent [] = some sent
  on_inputs sent (i ∷ rest) = elim (on_input sent i) [
    | none ↦ none
    | some later ↦ on_inputs later rest
  ]

  -- Run with (*weightedClassifier).Run, of the interval of its ticker: time.NewTicker panics at one
  -- that is not above 0.
  unfoldable pub run : ℤ → Sent F → List (Input F) → Option (Sent F)
  run history_update_interval sent inputs =
      if gt_ℤ history_update_interval (pos 0) then on_inputs sent inputs else none
