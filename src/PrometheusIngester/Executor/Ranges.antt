-- ===== src/PrometheusIngester/Executor/Ranges.antt =====
-- The ranges that the query executor of pkg/prometheus_ingester/query_executor.go asks for.
use slo_exporter.Prelude.{
  ℕ, ℤ, pos, concat, ◌+◌, ◌-◌, ◌≡◌, ◌≤◌, ◌<◌, ap, ◌∙◌, refl, String, true, ◌==◌, none, some, List,
  [], ◌∷◌, length, arith, inl, inr, ◌⊎◌, Bool-cases, Option-cases,
}
use Prim.Native.Nat.{◌/◌, ◌*◌}
use slo_exporter.Prelude.Dict.{Dict, lookup, insert}
use slo_exporter.Runtime.{Float64}
use slo_exporter.PrometheusIngester.{
  SamplePair, QueryResult, SampleStream, process_matrix_result_as_increase, matrix_increases,
  update, update_metrics, drop_stale_metrics, increase_of,
}
use slo_exporter.PrometheusIngester.Config.{QueryExecutor, counter_query_type, histogram_query_type}
use slo_exporter.PrometheusIngester.Histogram.{process_histogram_increase}
use slo_exporter.PrometheusIngester.Executor.{
  Value, matrix, Seen, Signal, ticked, selected_range, rounded_seconds, with_range_selector,
  executed_query, process_histogram, process_counters, process_result, execute, on_answer, run,
}

length-insert-le :
    {V : Type 0} (k : String) (v : V) (m : Dict V)
    → (0 < length (insert k v m)) × (length m ≤ length (insert k v m))
unfolding insert
length-insert-le k v [] = ground arith
length-insert-le k v ((j, w) ∷ m) = ground (arith, length-insert-le k v m)

length-update_metrics :
    {F : Type 0} (m new : Dict (SamplePair F))
    → (length m ≤ length (update_metrics m new))
      × (0 < length new → 0 < length (update_metrics m new))
unfolding update_metrics
length-update_metrics m [] = (omega arith, λ h. absurd (omega arith))
length-update_metrics m ((k, s) ∷ new) =
    let now = length-insert-le k s m in
    let later = length-update_metrics (insert k s m) new in
    (omega (arith, now, later.0), λ h. omega (arith, now, later.0))

module _ (fl : Float64) (fingerprint : Dict String → String) where
  open fl use {F}

  length-matrix_increases :
      (previous : Dict (SamplePair F)) (ts : ℕ) (current : Dict (SamplePair F))
      → (m : List (SampleStream F))
      → (length current ≤ length (matrix_increases fl fingerprint previous ts current m).1)
        × (0 < length m → 0 < length (matrix_increases fl fingerprint previous ts current m).1)
  unfolding matrix_increases
  length-matrix_increases previous ts current [] = (omega arith, λ h. absurd (omega arith))
  length-matrix_increases previous ts current (s ∷ m) =
      let key = fingerprint s.metric in
      let last = (increase_of fl fingerprint (lookup key previous) s).1 in
      let now = length-insert-le key last current in
      let later = length-matrix_increases previous ts (insert key last current) m in
      (omega (arith, now, later.0), λ h. omega (arith, now, later.0))

  -- A result with a stream leaves its time, and metrics that are not empty.
  remembered :
      (staleness : ℕ) (previous : QueryResult F) (m : List (SampleStream F)) (ts : ℕ)
      → 0 < length m
      → let result = (process_matrix_result_as_increase fl fingerprint staleness previous m ts).1 in
        (result.timestamp ≡ ts) × (0 < length result.metrics)
  unfolding process_matrix_result_as_increase update
  remembered staleness previous m ts h =
      let fresh = drop_stale_metrics staleness ts previous.metrics in
      (
        refl,
        (length-update_metrics fresh (matrix_increases fl fingerprint fresh ts [] m).1).1
            ((length-matrix_increases fresh ts [] m).1 h),
      )

  module _ (neg_inf : F) (unix : ℕ → String) (print : ℤ → String) where
    -- A query for increases.
    abbrev pub IsIncrease : QueryExecutor → Type 0
    IsIncrease q =
        ((q.query_type == histogram_query_type) ≡ true)
        ⊎ ((q.query_type == counter_query_type) ≡ true)

    -- Ticks whose queries fail.
    abbrev pub failing : List ℕ → List (Signal F)
    failing [] = []
    failing (ts ∷ times) = ticked ts (λ query. none) ∷ failing times

    abbrev pub seen_after : QueryExecutor → Seen F → List (Signal F) → Seen F
    seen_after q seen signals = (run fl neg_inf unix print fingerprint q seen signals).1

    processed :
        (q : QueryExecutor) (seen : Seen F) (m : List (SampleStream F)) (ts : ℕ)
        → IsIncrease q
        → (process_result fl neg_inf unix print fingerprint q seen
            (matrix m)
            ts).seen.previous_result
          ≡ (process_matrix_result_as_increase fl fingerprint q.staleness seen.previous_result m
              ts).1
    unfolding process_result process_histogram process_histogram_increase process_counters
    processed q seen m ts (inl histogram) = rw histogram refl
    processed q seen m ts (inr counter) = elim (Bool-cases (q.query_type == histogram_query_type)) [
      | inl histogram ↦ rw histogram refl
      | inr other ↦ rw (other, counter) refl
    ]

    executed :
        (q : QueryExecutor) (previous : QueryResult F) (ts : ℕ)
        → IsIncrease q
        → (text : String) × (executed_query print q previous ts ≡ some text)
    unfolding executed_query
    executed q previous ts (inl histogram) = rw histogram (_, refl)
    executed q previous ts (inr counter) =
        elim (Bool-cases (q.query_type == histogram_query_type)) [
          | inl histogram ↦ rw histogram (_, refl)
          | inr other ↦ rw (other, counter) (_, refl)
        ]

    executed-with_range :
        (q : QueryExecutor) (previous : QueryResult F) (ts : ℕ)
        → IsIncrease q
        → executed_query print q previous ts ≡ some (with_range_selector print q previous ts)
    unfolding executed_query
    executed-with_range q previous ts (inl histogram) = rw histogram refl
    executed-with_range q previous ts (inr counter) =
        elim (Bool-cases (q.query_type == histogram_query_type)) [
          | inl histogram ↦ rw histogram refl
          | inr other ↦ rw (other, counter) refl
        ]

    execute-answered :
        (q : QueryExecutor) (seen : Seen F) (ts : ℕ) (result : Value F)
        → IsIncrease q
        → execute fl neg_inf unix print fingerprint q seen ts (λ query. some result) ≡ some result
    execute-answered q seen ts result increase =
        let asked = executed q seen.previous_result ts increase in rw (asked.1, execute) refl

    execute-failing :
        (q : QueryExecutor) (seen : Seen F) (ts : ℕ)
        → execute fl neg_inf unix print fingerprint q seen ts (λ query. none) ≡ none
    execute-failing q seen ts =
        elim (Option-cases (executed_query print q seen.previous_result ts)) [
          | inl unknown ↦ rw (unknown, execute) refl
          | inr (text, known) ↦ rw (known, execute) refl
        ]

    failing-previous_result :
        (q : QueryExecutor) (seen : Seen F) (times : List ℕ)
        → (seen_after q seen (failing times)).previous_result ≡ seen.previous_result
    unfolding run on_answer
    failing-previous_result q seen [] = refl
    failing-previous_result q seen (ts ∷ times) =
        ap
          (λ a.
            (seen_after q (on_answer fl neg_inf unix print fingerprint q seen ts a).1
              (failing times)).previous_result)
          (execute-failing q seen ts)
        ∙ failing-previous_result q (record seen { query_fails = seen.query_fails + 1 }) times

    -- After a tick at which the API answers with a matrix of at least one stream, and any ticks whose
    -- queries fail, the range before it is rounded reaches back exactly to that answer.
    selected_range-answered :
        (q : QueryExecutor) (seen : Seen F) (m : List (SampleStream F)) (answered now : ℕ)
        (times : List ℕ)
        → IsIncrease q
        → 0 < length m
        → let signals = ticked answered (λ query. some (matrix m)) ∷ failing times in
          selected_range q (seen_after q seen signals).previous_result now ≡ pos (now - answered)
    unfolding run on_answer
    selected_range-answered q seen m answered now times increase h =
        let after =
          (process_result fl neg_inf unix print fingerprint q seen (matrix m) answered).seen in
        let known = remembered q.staleness seen.previous_result m answered h in
        ap
          (λ a.
            selected_range q
              (seen_after q (on_answer fl neg_inf unix print fingerprint q seen answered a).1
                (failing times)).previous_result
              now)
          (execute-answered q seen answered (matrix m) increase)
        ∙ ap (λ r. selected_range q r now)
            (failing-previous_result q after times ∙ processed q seen m answered increase)
        ∙ ground (arith, known)

    rounded_near :
        (d : ℕ)
        → ((d + 500000000) / 1000000000 * 1000000000 ≤ d + 500000000)
          × (d < (d + 500000000) / 1000000000 * 1000000000 + 500000000)
    rounded_near d = (omega arith, omega arith)

    -- After a tick at which the API answers with a matrix of at least one stream, and any ticks whose
    -- queries fail, the next tick of a query for increases sends the configured query with a range of
    -- whole seconds that is the time since that answer up to half a second: it is longer by half a
    -- second at most, or shorter by less than that.
    pub selected_range-run :
        (q : QueryExecutor) (seen : Seen F) (m : List (SampleStream F)) (answered now : ℕ)
        (times : List ℕ)
        → IsIncrease q
        → 0 < length m
        → let signals = ticked answered (λ query. some (matrix m)) ∷ failing times in
          (seconds : ℕ) × (executed_query print q (seen_after q seen signals).previous_result now
            ≡ some (concat q.query (concat "[" (concat (print (pos seconds)) "s]"))))
          × (seconds * 1000000000 ≤ (now - answered) + 500000000)
          × ((now - answered) < seconds * 1000000000 + 500000000)
    unfolding with_range_selector
    selected_range-run q seen m answered now times increase h =
        let after =
          (seen_after q seen
            (ticked answered (λ query. some (matrix m)) ∷ failing times)).previous_result in
        let near = rounded_near (now - answered) in
        let ranged = selected_range-answered q seen m answered now times increase h in
        (
          _,
          executed-with_range q after now increase
              ∙ ap
                  (λ d.
                    some (concat q.query (concat "[" (concat (print (rounded_seconds d)) "s]"))))
                  ranged,
          near.0,
          near.1,
        )
