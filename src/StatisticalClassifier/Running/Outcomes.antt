-- ===== src/StatisticalClassifier/Running/Outcomes.antt =====
-- What Classify of pkg/statistical_classifier/statistical_classifier.go does to the counters.
use slo_exporter.Prelude.{
  ℕ, ◌+◌, ◌<◌, ◌≡◌, refl, true, false, Option, none, some, List, length, arith, inl, inr,
  Option-cases, Bool-cases, if◌then◌else◌, is_some,
}
use slo_exporter.Event.{Raw, is_classified, update_slo_classification}
use slo_exporter.Prelude.Results.{Result-cases}
use slo_exporter.Runtime.{Float64}
use slo_exporter.StatisticalClassifier.{
  WeightedClassifier, zero_interval, not_enough_data, index_out_of_range, guess_class,
}
use slo_exporter.StatisticalClassifier.Laws.{IsSound, increase_weight-IsSound}
use slo_exporter.StatisticalClassifier.Guessing.{in_range}
use slo_exporter.StatisticalClassifier.Running.{
  Counters, Classified, sanitize_guessed_classification, refused, guessed, observed,
  classify_guessed, classify,
}

module _ (fl : Float64) where
  open fl use {F}

  -- What Classify leaves of the counters.
  pub record Outcome (s : WeightedClassifier F) (n : Counters) (e : Raw F) (c : Classified F)
      : Type 0 where
    pub sound : IsSound fl c.classifier
    pub same_failed : c.counters.failed_to_classify ≡ n.failed_to_classify
    pub increased :
        c.counters.increased_weight ≡ n.increased_weight + (if is_classified e then 1 else 0)
    pub unclassified : c.counters.unclassified ≡ n.unclassified + (if is_some c.error then 1 else 0)
    pub counted :
        c.counters.unclassified + c.counters.classified + c.counters.increased_weight
        ≡ n.unclassified + n.classified + n.increased_weight + 1
    pub has_class : c.error ≡ none → is_some c.event.slo_classification ≡ true

  module _ (take_weighted : List F → Option ℕ)
      (within : (ws : List F) (i : ℕ) → take_weighted ws ≡ some i → i < length ws) where
    guessed-Outcome :
        (s : WeightedClassifier F) (n : Counters) (e : Raw F)
        → IsSound fl s
        → is_classified e ≡ false
        → (c : Classified F) × (classify_guessed fl take_weighted s n e ≡ some c) × Outcome s n e c
    unfolding classify_guessed update_slo_classification
    guessed-Outcome s n e h unknown = elim (Result-cases (guess_class fl take_weighted s)) [
      | inl (c, found) ↦ (
        guessed fl s n e c,
        rw (found, classify_guessed) refl,
        record {
          sound = h;
          same_failed = refl;
          increased = ground arith;
          unclassified = omega arith;
          counted = omega arith;
          has_class = λ h. refl;
        },
      )
      | inr (index_out_of_range, e) ↦ absurd (in_range fl take_weighted s h within e)
      | inr (zero_interval, failed) ↦ (
        refused fl s n e zero_interval,
        rw (failed, classify_guessed) refl,
        record {
          sound = h;
          same_failed = refl;
          increased = ground arith;
          unclassified = omega arith;
          counted = omega arith;
          has_class = λ h. cc;
        },
      )
      | inr (not_enough_data, failed) ↦ (
        refused fl s n e not_enough_data,
        rw (failed, classify_guessed) refl,
        record {
          sound = h;
          same_failed = refl;
          increased = ground arith;
          unclassified = omega arith;
          counted = omega arith;
          has_class = λ h. cc;
        },
      )
    ]

    pub classify-Outcome :
        (s : WeightedClassifier F) (n : Counters) (e : Raw F)
        → IsSound fl s
        → (c : Classified F) × (classify fl take_weighted s n e ≡ some c) × Outcome s n e c
    unfolding classify is_classified
    classify-Outcome s n e h = elim (Option-cases e.slo_classification) [
      | inl missing ↦
          let (c, made, out) = guessed-Outcome s n e h (rw (missing, is_classified) refl) in
          (c, rw (missing, classify) made, out)
      | inr (sc, there) ↦ elim (Bool-cases (is_classified e)) [
        | inr incomplete ↦
            let (c, made, out) = guessed-Outcome s n e h incomplete in
            (c, rw (there, classify, incomplete) made, out)
        | inl complete ↦ (
          observed fl s n e sc,
          ground arith,
          record {
            sound = increase_weight-IsSound fl s (sanitize_guessed_classification sc) fl.one h;
            same_failed = refl;
            increased = ground arith;
            unclassified = omega arith;
            counted = omega arith;
            has_class = λ h. rw there refl;
          },
        )
      ]
    ]
