-- ===== src/StatisticalClassifier/Guessing.antt =====
-- What the classifier of pkg/statistical_classifier/weighted_classifier.go guesses.
use slo_exporter.Prelude.{
  ℕ, zero, suc, ◌<◌, String, ◌≡◌, refl, Option, some, List, [], ◌∷◌, length, ltb, ℤ, arith, inl,
  inr, Option-cases, Bool-cases,
}
use slo_exporter.Event.{SloClassification}
use slo_exporter.Storage.{new_in_memory_capped_container}
use slo_exporter.Prelude.Results.{ok, err}
use slo_exporter.Runtime.{Float64}
use slo_exporter.StatisticalClassifier.{
  ClassificationWeight, WeightedClassificationSet, WeightedClassifier, index_out_of_range,
  set_weights, index_of, archive, increase_weight, guessing_weights, guess_class,
  new_weighted_classification_set, new_weighted_classifier, is_zero, quotient, set_gauge,
}
use slo_exporter.StatisticalClassifier.Running.{
  new_statistical_classifier, default_weights_set_from_config, default_weights_of,
}
use slo_exporter.StatisticalClassifier.Laws.{
  IsAligned, set_weights-IsAligned, IsSound, increase_weight-IsSound, archive-IsSound,
}

index_of-less :
    {F : Type 0} (ws : List (ClassificationWeight F)) (i : ℕ)
    → i < length ws
    → (c : SloClassification) × (index_of ws i ≡ some c)
unfolding index_of
index_of-less [] i h = absurd (omega arith)
index_of-less (w ∷ ws) zero h = (w.classification, refl)
index_of-less (w ∷ ws) (suc i) h = index_of-less ws i (omega arith)

module _ (fl : Float64) where
  open fl use {F}

  guessing_weights-IsAligned :
      (s : WeightedClassifier F) (set : WeightedClassificationSet F)
      → IsSound fl s
      → guessing_weights fl s ≡ some set
      → IsAligned set
  unfolding guessing_weights
  guessing_weights-IsAligned s set h e =
      elim (Bool-cases (ltb (length s.total_weights_over_history.classification_weights) 1)) [
        | inr enough ↦
            let same : s.total_weights_over_history ≡ set = ground arith in
            rw (← same) h.total_aligned
        | inl empty ↦ elim (Option-cases s.default_weights) [
          | inl missing ↦ absurd (ground arith)
          | inr (default, configured) ↦
              elim (Bool-cases (ltb 0 (length default.classification_weights))) [
                | inl usable ↦
                    let same : default ≡ set = ground arith in
                    rw (← same) (h.default_aligned default configured)
                | inr unusable ↦ absurd (ground arith)
              ]
        ]
      ]

  pub in_range :
      (take_weighted : List F → Option ℕ) (s : WeightedClassifier F)
      → IsSound fl s
      → ((ws : List F) (i : ℕ) → take_weighted ws ≡ some i → i < length ws)
      → ¬ (guess_class fl take_weighted s ≡ err index_out_of_range)
  unfolding guess_class
  in_range take_weighted s h within e = elim (Option-cases (guessing_weights fl s)) [
    | inl nothing ↦ absurd (ground arith)
    | inr (set, usable) ↦ elim (Option-cases (take_weighted set.classification_weights)) [
      | inl none_taken ↦ absurd (ground arith)
      | inr (i, taken) ↦
          let less : i < length set.enumerated_classifications = omega (
            arith,
            within set.classification_weights i taken,
            guessing_weights-IsAligned s set h usable,
          ) in
          let (c, found) = index_of-less set.enumerated_classifications i less in
          absurd (ground arith)
    ]
  ]

  default_set-IsAligned :
      (defaults : List (String × String × F)) (set : WeightedClassificationSet F)
      → default_weights_set_from_config defaults ≡ some set
      → IsAligned set
  unfolding default_weights_set_from_config
  default_set-IsAligned defaults set e = elim (Bool-cases (ltb (length defaults) 1)) [
    | inl empty ↦ absurd (ground arith)
    | inr configured ↦
        let same : set_weights (default_weights_of defaults) ≡ set = ground arith in
        rw (← same) (set_weights-IsAligned (default_weights_of defaults))
  ]

  pub new-IsSound :
      (window_size history_update_interval : ℤ) (defaults : List (String × String × F))
      → (s : WeightedClassifier F)
      → new_statistical_classifier window_size history_update_interval defaults ≡ ok s
      → IsSound fl s
  unfolding new_statistical_classifier new_weighted_classifier default_weights_set_from_config
      new_in_memory_capped_container
  new-IsSound window_size history_update_interval defaults s e =
      elim (Bool-cases (is_zero history_update_interval)) [
        | inl zero_given ↦ absurd (ground arith)
        | inr given ↦
            let made : s ≡ record {
              history =
                  new_in_memory_capped_container (quotient window_size history_update_interval);
              total_weights_over_history = new_weighted_classification_set;
              default_weights = default_weights_set_from_config defaults;
              recent_weights = [];
              weight_gauge = set_gauge (default_weights_of defaults) [];
            } =
              ground arith in
            rw made (record {
              capped = omega arith;
              history_keyed = tt;
              recent_keyed = tt;
              total_aligned = refl;
              default_aligned = λ set h. default_set-IsAligned defaults set h;
            })
      ]

  -- What happens to a classifier between guesses.
  pub data Operation : Type 0 where
    increase : SloClassification → F → Operation
    tick : Operation

  abbrev pub after : WeightedClassifier F → List Operation → WeightedClassifier F
  after s [] = s
  after s (increase c w ∷ ops) = after (increase_weight fl s c w) ops
  after s (tick ∷ ops) = after (archive fl s) ops

  after-IsSound :
      (ops : List Operation) (s : WeightedClassifier F) → IsSound fl s → IsSound fl (after s ops)
  after-IsSound [] s h = h
  after-IsSound (increase c w ∷ ops) s h =
      after-IsSound ops (increase_weight fl s c w) (increase_weight-IsSound fl s c w h)
  after-IsSound (tick ∷ ops) s h = after-IsSound ops (archive fl s) (archive-IsSound fl s h)

  -- Whatever weights are recorded and archived on a new classifier, a guess never looks up a
  -- classification that is not there, if the sampler takes an index of the weights that it is given.
  pub guess_class_in_range :
      (take_weighted : List F → Option ℕ) (window_size history_update_interval : ℤ)
      → (defaults : List (String × String × F)) (s : WeightedClassifier F) (ops : List Operation)
      → new_statistical_classifier window_size history_update_interval defaults ≡ ok s
      → ((ws : List F) (i : ℕ) → take_weighted ws ≡ some i → i < length ws)
      → ¬ (guess_class fl take_weighted (after s ops) ≡ err index_out_of_range)
  guess_class_in_range take_weighted window_size history_update_interval defaults s ops made
        within =
      in_range take_weighted (after s ops)
        (after-IsSound ops s (new-IsSound window_size history_update_interval defaults s made))
        within
