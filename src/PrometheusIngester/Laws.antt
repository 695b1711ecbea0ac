-- ===== src/PrometheusIngester/Laws.antt =====
-- What the query executor of pkg/prometheus_ingester/query_executor.go remembers and sends.
use slo_exporter.Prelude.{
  ℕ, ◌+◌, String, ◌≡◌, ap, ◌∙◌, refl, false, ◌==◌, eq_iff, Option, none, some, List, [], ◌∷◌, ltb,
  if◌then◌else◌, or_else, contains, arith,
}
use slo_exporter.Prelude.Dict.{Dict, lookup, insert, IsMap, lookup-insert, insert-IsMap}
use slo_exporter.StringMap.{StringMap, merge, without}
use slo_exporter.StringMap.Laws.{lookup-merge, merge-IsMap, lookup-without, without-IsMap}
use slo_exporter.Event.{Raw}
use slo_exporter.Runtime.{Float64}
use slo_exporter.PrometheusIngester.{
  SamplePair, QueryResult, SampleStream, QueryOptions, drop_stale_metrics, update_metrics, update,
  stream_increase, increase_of, matrix_increases, process_matrix_result_as_increase, emit_event,
  event_of,
}

-- A sample that is still remembered at a moment.
abbrev pub fresh_only : {F : Type 0} → ℕ → ℕ → Option (SamplePair F) → Option (SamplePair F)
fresh_only staleness moment none = none
fresh_only staleness moment (some s) = if ltb (s.timestamp + staleness) moment then none else some s

lookup-drop_stale :
    {F : Type 0} (staleness moment : ℕ) (k : String) (m : Dict (SamplePair F))
    → IsMap m
    → lookup k (drop_stale_metrics staleness moment m) ≡ fresh_only staleness moment (lookup k m)
unfolding drop_stale_metrics lookup
lookup-drop_stale staleness moment k [] d = refl
lookup-drop_stale staleness moment k ((j, s) ∷ m) d =
    ground (arith, lookup-drop_stale staleness moment k m d.1, eq_iff j k, d.0)

lookup-update_metrics :
    {F : Type 0} (k : String) (new m : Dict (SamplePair F))
    → IsMap new
    → lookup k (update_metrics m new) ≡ or_else (lookup k new) (lookup k m)
unfolding update_metrics lookup
lookup-update_metrics k [] m d = refl
lookup-update_metrics k ((j, s) ∷ new) m d =
    ground (
      arith,
      lookup-update_metrics k new (insert j s m) d.1,
      lookup-insert j k s m,
      eq_iff j k,
      d.0,
    )

-- The last sample of a stream.
abbrev pub last_from : {F : Type 0} → SamplePair F → List (SamplePair F) → SamplePair F
last_from s [] = s
last_from s (t ∷ more) = last_from t more

added-IsMap :
    (result time : String)
    → IsMap (("prometheusQueryResult", result) ∷ ("unixTimestamp", time) ∷ [])
unfolding lookup
added-IsMap result time = (refl, (refl, tt))

module _ (fl : Float64) where
  open fl use {F}

  stream_increase-last :
      (samples : List (SamplePair F)) (increase : F) (previous : SamplePair F)
      → (stream_increase fl increase previous samples).1 ≡ last_from previous samples
  unfolding stream_increase
  stream_increase-last [] increase previous = refl
  stream_increase-last (s ∷ samples) increase previous = stream_increase-last samples _ s

  module _ (fingerprint : Dict String → String) where
    increase_of-last :
        (known : Option (SamplePair F)) (s : SampleStream F)
        → (increase_of fl fingerprint known s).1 ≡ last_from s.first_value s.more_values
    unfolding increase_of
    increase_of-last none s =
        stream_increase-last (s.first_value ∷ s.more_values) fl.zero s.first_value
    increase_of-last (some p) s = stream_increase-last (s.first_value ∷ s.more_values) fl.zero p

    -- The last sample of the last stream with a fingerprint.
    abbrev pub latest :
        String → Option (SamplePair F) → List (SampleStream F) → Option (SamplePair F)
    latest k known [] = known
    latest k known (s ∷ matrix) =
        latest k
          (if fingerprint s.metric == k
            then some (last_from s.first_value s.more_values)
            else known)
          matrix

    lookup-matrix_increases :
        (matrix : List (SampleStream F)) (previous current : Dict (SamplePair F)) (ts : ℕ)
        (k : String)
        → lookup k (matrix_increases fl fingerprint previous ts current matrix).1
          ≡ latest k (lookup k current) matrix
    unfolding matrix_increases
    lookup-matrix_increases [] previous current ts k = refl
    lookup-matrix_increases (s ∷ matrix) previous current ts k =
        let key = fingerprint s.metric in
        let last = (increase_of fl fingerprint (lookup key previous) s).1 in
        lookup-matrix_increases matrix previous (insert key last current) ts k
        ∙ ap (λ (o : Option (SamplePair F)). latest k o matrix)
            (ground
              (arith, lookup-insert key k last current, increase_of-last (lookup key previous) s))

    matrix_increases-IsMap :
        (matrix : List (SampleStream F)) (previous current : Dict (SamplePair F)) (ts : ℕ)
        → IsMap current
        → IsMap (matrix_increases fl fingerprint previous ts current matrix).1
    unfolding matrix_increases
    matrix_increases-IsMap [] previous current ts d = d
    matrix_increases-IsMap (s ∷ matrix) previous current ts d =
        matrix_increases-IsMap matrix previous _ ts (insert-IsMap _ _ current d)

    -- After a result of increases, the executor, whose previous metrics have each key once,
    -- remembers for each metric the last sample of its last stream in the result, and for a metric
    -- that is not in it the sample from before, unless that is stale.
    pub process_matrix-remembers :
        (staleness : ℕ) (previous : QueryResult F) (matrix : List (SampleStream F)) (ts : ℕ)
        (k : String)
        → IsMap previous.metrics
        → lookup k
            (process_matrix_result_as_increase fl fingerprint staleness previous matrix
              ts).1.metrics
          ≡ or_else (latest k none matrix) (fresh_only staleness ts (lookup k previous.metrics))
    unfolding process_matrix_result_as_increase update lookup
    process_matrix-remembers staleness previous matrix ts k d =
        let fresh = drop_stale_metrics staleness ts previous.metrics in
        let new = (matrix_increases fl fingerprint fresh ts [] matrix).1 in
        lookup-update_metrics k new fresh (matrix_increases-IsMap matrix fresh [] ts tt)
        ∙ ground (
          arith,
          lookup-matrix_increases matrix fresh [] ts k,
          lookup-drop_stale staleness ts k previous.metrics d,
        )

  emitted :
      (unix : ℕ → String) (q : QueryOptions) (ts : ℕ) (result : F) (metadata : StringMap)
      (e : Raw F)
      → emit_event fl unix q ts result metadata ≡ some e
      → (event_of fl unix q ts result metadata ≡ e)
        × (fl.eq (event_of fl unix q ts result metadata).quantity fl.zero ≡ false)
  unfolding emit_event
  emitted unix q ts result metadata e h = (ground arith, ground arith)

  -- An event that is sent for a result, where the metric's labels and the additional labels are
  -- maps, has as metadata the additional labels, then what is left of the metric's labels without
  -- the labels to drop, the printed result and the time among them, and its quantity is not zero.
  pub emit_event-metadata :
      (unix : ℕ → String) (q : QueryOptions) (ts : ℕ) (result : F) (metadata : StringMap)
      (e : Raw F)
      → (j : String) → IsMap metadata
      → IsMap q.additional_labels
      → emit_event fl unix q ts result metadata ≡ some e
      → (lookup j e.metadata
          ≡ or_else (lookup j q.additional_labels) (
              if contains j q.drop_labels
              then none
              else or_else
                  (lookup j
                    (("prometheusQueryResult", fl.format result) ∷ ("unixTimestamp", unix ts) ∷ []))
                  (lookup j metadata)))
        × (fl.eq e.quantity fl.zero ≡ false)
  emit_event-metadata unix q ts result metadata e j d a h =
      let (same, nonzero) = emitted unix q ts result metadata e h in
      let added : StringMap =
        ("prometheusQueryResult", fl.format result) ∷ ("unixTimestamp", unix ts) ∷ [] in
      let labelled = merge metadata added in
      rw (← same) (
        ground (
          arith,
          lookup-merge j (without labelled q.drop_labels) q.additional_labels
              (without-IsMap labelled q.drop_labels) a,
          lookup-without j labelled q.drop_labels (merge-IsMap metadata added),
          lookup-merge j metadata added d (added-IsMap (fl.format result) (unix ts)),
        ),
        nonzero,
      )
