-- ===== src/StatisticalClassifier/Laws.antt =====
-- What the classifier of pkg/statistical_classifier/weighted_classifier.go guesses from.
use slo_exporter.Prelude.{
  ℕ, zero, suc, String, ◌≡◌, refl, ap, ◌∙◌, ◌==◌, eq_iff, Option, none, some, List, [], ◌∷◌, map,
  length, take, All, room, arith, inl, inr, Bool-cases, if◌then◌else◌,
}
use slo_exporter.Prelude.Dict.{lookup, insert, lookup-insert}
use slo_exporter.Event.{SloClassification, classification_string}
use slo_exporter.Storage.{add, stream}
use slo_exporter.Storage.Laws.{IsValid, items-add, add-IsValid}
use slo_exporter.Runtime.{Float64}
use slo_exporter.StatisticalClassifier.{
  ClassificationWeight, ClassificationMapping, WeightedClassificationSet, WeightedClassifier,
  set_weights, mapping_weights, increased, inc, merge, merge_all, reweight, archive,
  increase_weight,
}

length-map : {A B : Type 0} (f : A → B) (l : List A) → length (map f l) ≡ length l
length-map f [] = refl
length-map f (x ∷ l) = ap suc (length-map f l)

-- The weights are those of the enumerated classifications.
abbrev pub IsAligned : {F : Type 0} → WeightedClassificationSet F → Type 0
IsAligned set = length set.classification_weights ≡ length set.enumerated_classifications

pub set_weights-IsAligned :
    {F : Type 0} (ws : List (ClassificationWeight F)) → IsAligned (set_weights ws)
unfolding set_weights
set_weights-IsAligned ws = length-map _ ws

module _ (fl : Float64) where
  open fl use {F}

  -- Every entry stands under the text of its classification, each text once.
  abbrev pub IsKeyed : ClassificationMapping F → Type 0
  IsKeyed [] = Unit
  IsKeyed ((k, w) ∷ m) =
      (classification_string w.classification ≡ k) × (lookup k m ≡ none) × IsKeyed m

  -- The weight under a text.
  abbrev pub weight_at : String → ClassificationMapping F → Option F
  weight_at k m = elim (lookup k m) [ none ↦ none | some w ↦ some w.weight ]

  abbrev pub plus : Option F → Option F → Option F
  plus a none = a
  plus none (some w) = some (fl.add fl.zero w)
  plus (some a) (some w) = some (fl.add a w)

  -- The sum, in order, of the weights under a text.
  abbrev pub sum_from : String → Option F → List (ClassificationMapping F) → Option F
  sum_from k so_far [] = so_far
  sum_from k so_far (m ∷ ms) = sum_from k (plus so_far (weight_at k m)) ms

  weight_at-inc :
      (k : String) (m : ClassificationMapping F) (c : SloClassification) (w : F)
      → weight_at k (inc fl m c w)
        ≡ (if classification_string c == k then plus (weight_at k m) (some w) else weight_at k m)
  unfolding inc
  weight_at-inc k m c w =
      let j = classification_string c in
      ground (arith, eq_iff j k, lookup-insert j k (increased fl c w (lookup j m)) m)

  weight_at-merge :
      (k : String) (m c : ClassificationMapping F)
      → IsKeyed m
      → weight_at k (merge fl c m) ≡ plus (weight_at k c) (weight_at k m)
  unfolding merge lookup
  weight_at-merge k [] c h = refl
  weight_at-merge k ((j, w) ∷ m) c h =
      weight_at-merge k m (inc fl c w.classification w.weight) h.2
      ∙ ap (λ (s : Option F). plus s (weight_at k m)) (weight_at-inc k c w.classification w.weight)
      ∙ ground (arith, h.0, h.1, eq_iff j k)

  pub weight_at-merge_all :
      (k : String) (items : List (ClassificationMapping F)) (total : ClassificationMapping F)
      → All IsKeyed items
      → weight_at k (merge_all fl total items) ≡ sum_from k (weight_at k total) items
  unfolding merge_all
  weight_at-merge_all k [] total h = refl
  weight_at-merge_all k (m ∷ ms) total h =
      weight_at-merge_all k ms (merge fl total m) h.1
      ∙ ap (λ (s : Option F). sum_from k s ms) (weight_at-merge k m total h.0)

  insert-IsKeyed :
      (k : String) (w : ClassificationWeight F) (m : ClassificationMapping F)
      → classification_string w.classification ≡ k
      → IsKeyed m
      → IsKeyed (insert k w m)
  unfolding insert
  insert-IsKeyed k w [] e h = (e, (unfold lookup in refl), tt)
  insert-IsKeyed k w ((j, u) ∷ m) e h = elim (Bool-cases (j == k)) [
    | inl same ↦ let j≡k : j ≡ k = (eq_iff j k).0 same in rw same (e, rw j≡k at (h.1), h.2)
    | inr other ↦
        let absent : lookup j (insert k w m) ≡ none =
          ground (arith, h.1, lookup-insert k j w m, eq_iff k j, eq_iff j k) in
        rw other (h.0, absent, insert-IsKeyed k w m e h.2)
  ]

  lookup-IsKeyed :
      (k : String) (m : ClassificationMapping F) (u : ClassificationWeight F)
      → IsKeyed m
      → lookup k m ≡ some u
      → classification_string u.classification ≡ k
  unfolding lookup
  lookup-IsKeyed k [] u h e = absurd (cc e)
  lookup-IsKeyed k ((j, w) ∷ m) u h e = elim (Bool-cases (j == k)) [
    | inl same ↦ let found : w ≡ u = ground arith in rw (← found) (h.0 ∙ (eq_iff j k).0 same)
    | inr other ↦ lookup-IsKeyed k m u h.2 (ground arith)
  ]

  pub inc-IsKeyed :
      (m : ClassificationMapping F) (c : SloClassification) (w : F)
      → IsKeyed m
      → IsKeyed (inc fl m c w)
  unfolding inc
  inc-IsKeyed m c w h =
      let key = classification_string c in
      insert-IsKeyed key (increased fl c w (lookup key m)) m (keyed (lookup key m) refl) h
    where
      keyed :
          (o : Option (ClassificationWeight F))
          → lookup (classification_string c) m ≡ o
          → classification_string (increased fl c w o).classification ≡ classification_string c
      keyed none e = refl
      keyed (some u) e = lookup-IsKeyed (classification_string c) m u h e

  -- The history is within its capacity, its maps and the recent one are well-formed, and the weights
  -- to guess from are aligned.
  pub record IsSound (s : WeightedClassifier F) : Type 0 where
    pub capped : IsValid s.history
    pub history_keyed : All IsKeyed s.history.items
    pub recent_keyed : IsKeyed s.recent_weights
    pub total_aligned : IsAligned s.total_weights_over_history
    pub default_aligned :
        (set : WeightedClassificationSet F) → s.default_weights ≡ some set → IsAligned set

  -- Recording a classification keeps the classifier sound.
  pub increase_weight-IsSound :
      (s : WeightedClassifier F) (c : SloClassification) (w : F)
      → IsSound s
      → IsSound (increase_weight fl s c w)
  unfolding increase_weight
  increase_weight-IsSound s c w h = record {
    capped = h.capped;
    history_keyed = h.history_keyed;
    recent_keyed = inc-IsKeyed s.recent_weights c w h.recent_keyed;
    total_aligned = h.total_aligned;
    default_aligned = h.default_aligned;
  }

  All-take :
      (n : ℕ) (ms : List (ClassificationMapping F)) → All IsKeyed ms → All IsKeyed (take n ms)
  All-take zero ms h = tt
  All-take (suc n) [] h = tt
  All-take (suc n) (m ∷ ms) h = (h.0, All-take n ms h.1)

  -- For a sound classifier, the weights after archiving are those of a map that has, under every
  -- text, the sum of the weights in the newest maps that the history has room for, the recent one
  -- first.
  pub archive-weights :
      (s : WeightedClassifier F)
      → IsSound s
      → (m : ClassificationMapping F) × ((archive fl s).total_weights_over_history
          ≡ set_weights (mapping_weights m))
        × ((k : String)
            → weight_at k m
              ≡ sum_from k none
                  (take (room s.history.capacity) (s.recent_weights ∷ s.history.items)))
  unfolding archive reweight stream lookup
  archive-weights s h =
      let items = (add s.history s.recent_weights).items in
      let newest = items-add s.history s.recent_weights h.capped in
      let keyed : All IsKeyed items = rw newest (
        All-take (room s.history.capacity) (s.recent_weights ∷ s.history.items)
          (h.recent_keyed, h.history_keyed)) in
      (
        merge_all fl [] items,
        refl,
        (λ k.
            weight_at-merge_all k items [] keyed
            ∙ ap (λ (l : List (ClassificationMapping F)). sum_from k none l) newest),
      )

  -- Archiving keeps the classifier sound.
  pub archive-IsSound : (s : WeightedClassifier F) → IsSound s → IsSound (archive fl s)
  unfolding archive reweight stream
  archive-IsSound s h =
      let newest = items-add s.history s.recent_weights h.capped in
      record {
        capped = add-IsValid s.history s.recent_weights h.capped;
        history_keyed = rw newest (
            All-take (room s.history.capacity) (s.recent_weights ∷ s.history.items)
              (h.recent_keyed, h.history_keyed));
        recent_keyed = tt;
        total_aligned =
            set_weights-IsAligned
              (mapping_weights (merge_all fl [] (add s.history s.recent_weights).items));
        default_aligned = h.default_aligned;
      }
