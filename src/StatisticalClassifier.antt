-- ===== src/StatisticalClassifier.antt =====
-- The classifier of pkg/statistical_classifier/weighted_classifier.go. gonum's weighted sampling is the
-- parameter `take_weighted`, with its random numbers drawn already. Locks and logs are not modelled.
pub mod Laws
pub mod Guessing
pub mod Running
use Prim.Native.Nat.{◌/◌}
use slo_exporter.Prelude.{
  ℕ, zero, suc, ◌+◌, String, Bool, true, false, not, ◌&&◌, Option, none, some, List, [], ◌∷◌, ◌++◌,
  map, length, ltb, ℤ, opposite, pos, negsuc, nat_eq, if◌then◌else◌,
}
use slo_exporter.Prelude.Dict.{Dict, lookup, insert}
use slo_exporter.Event.{
  SloClassification, Raw, classification_string, classification_copy, is_classified,
  update_slo_classification,
}
use slo_exporter.Storage.{CappedContainer, new_in_memory_capped_container, add, stream}
use slo_exporter.Prelude.Results.{Result, ok, err}
use slo_exporter.Runtime.{Float64}

pub record ClassificationWeight (F : Type 0) : Type 0 where
  pub classification : SloClassification
  pub weight : F

-- classificationMapping; `inc` makes a new entry for a key, so two maps share none.
abbrev pub ClassificationMapping : Type 0 → Type 0
ClassificationMapping F = Dict (ClassificationWeight F)

pub record WeightedClassificationSet (F : Type 0) : Type 0 where
  pub enumerated_classifications : List (ClassificationWeight F)
  pub classification_weights : List F

-- One Set of the gauge of weights: its label values and the weight.
pub record GaugeSet (F : Type 0) : Type 0 where
  pub slo_domain : String
  pub slo_class : String
  pub value : F

-- weightedClassifier, with the gauge's Set calls, the latest first.
pub record WeightedClassifier (F : Type 0) : Type 0 where
  pub history : CappedContainer (ClassificationMapping F)
  pub total_weights_over_history : WeightedClassificationSet F
  pub default_weights : Option (WeightedClassificationSet F)
  pub recent_weights : ClassificationMapping F
  pub weight_gauge : List (GaugeSet F)

-- The errors; `index_out_of_range` stands for a panic of the code.
pub data ClassifierError : Type 0 where
  zero_interval : ClassifierError
  not_enough_data : ClassifierError
  index_out_of_range : ClassifierError

-- a / b on time.Duration, which truncates; b is not zero
abbrev pub quotient : ℤ → ℤ → ℤ
quotient (pos a) (pos b) = pos (a / b)
quotient (pos a) (negsuc b) = opposite (a / suc b)
quotient (negsuc a) (pos b) = opposite (suc a / b)
quotient (negsuc a) (negsuc b) = pos (suc a / suc b)

abbrev pub is_zero : ℤ → Bool
is_zero (pos n) = nat_eq n 0
is_zero (negsuc _) = false

-- newWeightedClassificationSet
abbrev pub new_weighted_classification_set : {F : Type 0} → WeightedClassificationSet F
new_weighted_classification_set = record {
  enumerated_classifications = [];
  classification_weights = [];
}

-- setWeights: the set
unfoldable pub set_weights :
    {F : Type 0} → List (ClassificationWeight F) → WeightedClassificationSet F
set_weights weights = record {
  enumerated_classifications = weights;
  classification_weights = map (λ (w : ClassificationWeight _). w.weight) weights;
}

-- setWeights: the gauge
unfoldable pub set_gauge :
    {F : Type 0} → List (ClassificationWeight F) → List (GaugeSet F) → List (GaugeSet F)
set_gauge [] gauge = gauge
set_gauge (w ∷ ws) gauge = set_gauge ws (
    record {
      slo_domain = w.classification.domain;
      slo_class = w.classification.class;
      value = w.weight;
    }
    ∷ gauge)

-- The loop of newWeightedClassificationSetFromClassifications.
unfoldable pub mapping_weights :
    {F : Type 0} → ClassificationMapping F → List (ClassificationWeight F)
mapping_weights [] = []
mapping_weights ((k, w) ∷ m) = w ∷ mapping_weights m

-- index, with `none` for an index out of range
unfoldable pub index_of :
    {F : Type 0} → List (ClassificationWeight F) → ℕ → Option SloClassification
index_of [] i = none
index_of (w ∷ ws) zero = some w.classification
index_of (w ∷ ws) (suc i) = index_of ws i

unfoldable pub new_weighted_classifier :
    {F : Type 0} → ℤ → ℤ → Result ClassifierError (WeightedClassifier F)
new_weighted_classifier window_size history_update_interval =
    if is_zero history_update_interval
    then err zero_interval
    else ok (record {
      history = new_in_memory_capped_container (quotient window_size history_update_interval);
      total_weights_over_history = new_weighted_classification_set;
      default_weights = none;
      recent_weights = [];
      weight_gauge = [];
    })

module _ (fl : Float64) where
  open fl use {F}

  abbrev pub increased :
      SloClassification → F → Option (ClassificationWeight F) → ClassificationWeight F
  increased classification weight none = record {
    classification = classification;
    weight = fl.add fl.zero weight;
  }
  increased classification weight (some w) = record w { weight = fl.add w.weight weight }

  unfoldable pub inc : ClassificationMapping F → SloClassification → F → ClassificationMapping F
  inc c classification weight =
      let key = classification_string classification in
      insert key (increased classification weight (lookup key c)) c

  unfoldable pub merge : ClassificationMapping F → ClassificationMapping F → ClassificationMapping F
  merge c [] = c
  merge c ((k, w) ∷ other) = merge (inc c w.classification w.weight) other

  unfoldable pub increase_weight :
      WeightedClassifier F → SloClassification → F → WeightedClassifier F
  increase_weight s classification weight = record s {
    recent_weights = inc s.recent_weights classification weight;
  }

  -- The loop of reweight.
  unfoldable pub merge_all :
      ClassificationMapping F → List (ClassificationMapping F) → ClassificationMapping F
  merge_all total [] = total
  merge_all total (item ∷ items) = merge_all (merge total item) items

  unfoldable pub reweight : WeightedClassifier F → WeightedClassifier F
  reweight s =
      let weights = mapping_weights (merge_all [] (stream s.history)) in
      record s {
        total_weights_over_history = set_weights weights;
        weight_gauge = set_gauge weights s.weight_gauge;
      }

  unfoldable pub archive : WeightedClassifier F → WeightedClassifier F
  archive s = reweight (record s { history = add s.history s.recent_weights; recent_weights = [] })

  -- The weights that guessClass uses.
  unfoldable pub guessing_weights : WeightedClassifier F → Option (WeightedClassificationSet F)
  guessing_weights s =
      if ltb (length s.total_weights_over_history.classification_weights) 1
      then elim s.default_weights [
        | none ↦ none
        | some default ↦
            if ltb 0 (length default.classification_weights) then some default else none
      ]
      else some s.total_weights_over_history

  module _ (take_weighted : List F → Option ℕ) where
    unfoldable pub guess_class : WeightedClassifier F → Result ClassifierError SloClassification
    guess_class s = elim (guessing_weights s) [
      | none ↦ err not_enough_data
      | some set ↦ elim (take_weighted set.classification_weights) [
        | none ↦ err not_enough_data
        | some i ↦ elim (index_of set.enumerated_classifications i) [
          | none ↦ err index_out_of_range
          | some c ↦ ok c
        ]
      ]
    ]
