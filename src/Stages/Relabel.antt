-- ===== src/Stages/Relabel.antt =====
-- pkg/relabel/relabel.go. Prometheus' `relabel.Process` is a parameter: it gives no labels where a
-- rule drops the event.
use slo_exporter.Prelude.{
  ℕ, ◌+◌, String, ◌≡◌, refl, Option, none, some, List, [], ◌∷◌, arith, Option-cases, inl, inr,
  length,
}
use slo_exporter.Prelude.Dict.{lookup, IsMap}
use slo_exporter.StringMap.{as_prometheus_labels, new_from_labels}
use slo_exporter.StringMap.Laws.{lookup-new_from_labels-as_prometheus_labels}
use slo_exporter.Event.{Raw}

abbrev pub Labels : Type 0
Labels = List (String × String)

module _ {Config : Type 0} (process_rule : Labels → Config → Option Labels) where
  -- The loop of relabelEvent.
  unfoldable pub relabel_labels : List Config → Labels → Option Labels
  relabel_labels [] labels = some labels
  relabel_labels (rule ∷ rules) labels = elim (process_rule labels rule) [
    | none ↦ none
    | some labels' ↦ relabel_labels rules labels'
  ]

  unchanged :
      ((labels : Labels) (rule : Config) → process_rule labels rule ≡ some labels)
      → (rules : List Config) (labels : Labels) → relabel_labels rules labels ≡ some labels
  unfolding relabel_labels
  unchanged same [] labels = refl
  unchanged same (rule ∷ rules) labels =
      rw (same labels rule, relabel_labels) (unchanged same rules labels)

  module _ {F : Type 0} where
    unfoldable pub relabel_event : List Config → Raw F → Option (Raw F)
    relabel_event rules e = elim (relabel_labels rules (as_prometheus_labels e.metadata)) [
      | none ↦ none
      | some labels ↦ some (record e { metadata = new_from_labels labels })
    ]

    -- Run, with the counter of dropped events.
    unfoldable pub run : List Config → ℕ → List (Raw F) → List (Raw F) × ℕ
    run rules dropped [] = ([], dropped)
    run rules dropped (e ∷ es) = elim (relabel_event rules e) [
      | none ↦ run rules (dropped + 1) es
      | some e' ↦ let (rest, dropped') = run rules dropped es in (e' ∷ rest, dropped')
    ]

    -- Every event is either sent or counted as dropped.
    pub run-dropped :
        (rules : List Config) (dropped : ℕ) (es : List (Raw F))
        → length (run rules dropped es).0 + (run rules dropped es).1 ≡ length es + dropped
    unfolding run
    run-dropped rules dropped [] = refl
    run-dropped rules dropped (e ∷ es) = elim (Option-cases (relabel_event rules e)) [
      | inl gone ↦ rw (gone, run) (ground (arith, run-dropped rules (dropped + 1) es))
      | inr (e', kept) ↦ rw (kept, run) (ground (arith, run-dropped rules dropped es))
    ]

    -- Rules that all leave the labels as they are keep the event, with the same metadata by look-up.
    pub relabel_event_unchanged :
        (rules : List Config) (e : Raw F) (k : String)
        → IsMap e.metadata
        → ((labels : Labels) (rule : Config) → process_rule labels rule ≡ some labels)
        → (relabel_event rules e
            ≡ some (record e { metadata = new_from_labels (as_prometheus_labels e.metadata) }))
          × (lookup k (new_from_labels (as_prometheus_labels e.metadata)) ≡ lookup k e.metadata)
    unfolding relabel_event
    relabel_event_unchanged rules e k d same = (
      rw (unchanged same rules (as_prometheus_labels e.metadata), relabel_event) refl,
      lookup-new_from_labels-as_prometheus_labels k e.metadata d,
    )
