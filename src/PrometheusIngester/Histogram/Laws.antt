-- ===== src/PrometheusIngester/Histogram/Laws.antt =====
-- What the histograms of pkg/prometheus_ingester/query_executor.go become.
use mathlib.Core.List.{Perm}
use mathlib.Core.List.Perm
use slo_exporter.Prelude.{
  ℕ, String, ◌≡◌, ap, refl, true, false, Option, none, some, List, [], ◌∷◌, map, arith, Bool-cases,
  inl, inr, ◌↔◌,
}
use slo_exporter.Prelude.Dict.{Dict, lookup, insert}
use slo_exporter.Prelude.Results.{Result-cases, errs}
use slo_exporter.Event.{Raw}
use slo_exporter.StringMap.{new_from_metric, merge}
use slo_exporter.Runtime.{Float64}
use slo_exporter.PrometheusIngester.{
  SampleStream, QueryResult, QueryOptions, MetricIncrease, emit_event,
  process_matrix_result_as_increase, sent,
}
use slo_exporter.PrometheusIngester.Histogram.{
  BucketError, missing_le, invalid_le, bucket_errors, Buckets, value_of, bucket_value,
  metric_labels, group_of, set_bucket, collect_buckets, insert_bound, sorted_bounds, bucket_event,
  report_buckets, report, metric_of, process_histogram_increase,
}

module _ (fl : Float64) (neg_inf : fl.F) where
  open fl use {F}

  collect_buckets-errors :
      (groups : Dict (Buckets fl neg_inf)) (increases : List (MetricIncrease F))
      → (collect_buckets fl neg_inf groups increases).1
        ≡ errs (map (bucket_value fl neg_inf) increases)
  unfolding collect_buckets
  collect_buckets-errors groups [] = refl
  collect_buckets-errors groups (i ∷ increases) = elim (Result-cases (bucket_value fl neg_inf i)) [
    | inl (value, found) ↦
        rw (found, collect_buckets)
          (collect_buckets-errors
            (insert (metric_labels fl neg_inf i)
              (set_bucket fl neg_inf value i
                (group_of fl neg_inf (metric_labels fl neg_inf i) groups))
              groups)
            increases)
    | inr (e, failed) ↦
        rw (failed, collect_buckets) (ap (◌∷◌ e) (collect_buckets-errors groups increases))
  ]

  -- The errors of labels `le`, of which `none` is missing.
  abbrev pub bound_errors : List (Option String) → List BucketError
  bound_errors [] = []
  bound_errors (none ∷ labels) = missing_le ∷ bound_errors labels
  bound_errors (some text ∷ labels) = elim (fl.parse text) [
    | none ↦ invalid_le ∷ bound_errors labels
    | some bound ↦ bound_errors labels
  ]

  bucket_values-errors :
      (increases : List (MetricIncrease F))
      → errs (map (bucket_value fl neg_inf) increases)
        ≡ bound_errors (map (λ (i : MetricIncrease F). lookup "le" i.metric) increases)
  unfolding bucket_value
  bucket_values-errors [] = refl
  bucket_values-errors (i ∷ increases) = ground (arith, bucket_values-errors increases)

  module _ (unix : ℕ → String) (q : QueryOptions) (ts : ℕ)
      (fingerprint : Dict String → String) where
    -- When an increase of a histogram has no label `le` or one that is no number, nothing of the
    -- whole result is sent, and the errors that are returned are one for each such increase, in their
    -- order, of the two kinds; the samples of the result are
    -- remembered all the same, as if their increases had been reported.
    pub process_histogram-errors :
        (staleness : ℕ) (previous : QueryResult F) (matrix : List (SampleStream F))
        (e : BucketError) (errors : List BucketError)
        → let seen =
            process_matrix_result_as_increase fl fingerprint staleness previous matrix ts in
          bound_errors (map (λ (i : MetricIncrease F). lookup "le" i.metric) seen.0) ≡ e ∷ errors
          → process_histogram_increase fl neg_inf unix q ts fingerprint staleness previous matrix
            ≡ (([], some (bucket_errors e errors)), seen.1)
    unfolding process_histogram_increase report
    process_histogram-errors staleness previous matrix e errors h =
        let seen = process_matrix_result_as_increase fl fingerprint staleness previous matrix ts in
        rw (collect_buckets-errors [] seen.0, bucket_values-errors seen.0, h) refl

  -- No bound is below the one before it.
  abbrev pub IsAscending : List F → Type 0
  IsAscending [] = Unit
  IsAscending (x ∷ []) = Unit
  IsAscending (x ∷ y ∷ xs) = (fl.lt y x ≡ false) × IsAscending (y ∷ xs)

  insert_bound-IsAscending :
      ((a b : F) → fl.lt a b ≡ true → fl.lt b a ≡ false)
      → (key : F) (xs : List F) → IsAscending xs
      → IsAscending (insert_bound fl neg_inf key xs)
  unfolding insert_bound
  insert_bound-IsAscending asym key [] h = tt
  insert_bound-IsAscending asym key (x ∷ []) h = ground (arith, asym x key)
  insert_bound-IsAscending asym key (x ∷ y ∷ xs) h =
      ground (arith, asym x key, insert_bound-IsAscending asym key (y ∷ xs) h.1)

  insert_bound-Perm : (key : F) (xs : List F) → Perm (insert_bound fl neg_inf key xs) (key ∷ xs)
  unfolding insert_bound
  insert_bound-Perm key [] = Perm.refl (key ∷ [])
  insert_bound-Perm key (x ∷ xs) = elim (Bool-cases (fl.lt x key)) [
    | inl above ↦
        rw above (Perm.trans (Perm.cons x (insert_bound-Perm key xs)) (Perm.swap key x xs))
    | inr below ↦ rw below (Perm.refl (key ∷ x ∷ xs))
  ]

  sorted_bounds-IsAscending :
      ((a b : F) → fl.lt a b ≡ true → fl.lt b a ≡ false)
      → (buckets : Buckets fl neg_inf) → IsAscending (sorted_bounds fl neg_inf buckets)
  unfolding sorted_bounds
  sorted_bounds-IsAscending asym [] = tt
  sorted_bounds-IsAscending asym ((k, i) ∷ rest) =
      insert_bound-IsAscending asym k (sorted_bounds fl neg_inf rest)
        (sorted_bounds-IsAscending asym rest)

  sorted_bounds-Perm :
      (buckets : Buckets fl neg_inf)
      → Perm (sorted_bounds fl neg_inf buckets) (map (λ b. b.0) buckets)
  unfolding sorted_bounds
  sorted_bounds-Perm [] = Perm.refl []
  sorted_bounds-Perm ((k, i) ∷ rest) =
      Perm.trans (insert_bound-Perm k (sorted_bounds fl neg_inf rest))
        (Perm.cons k (sorted_bounds-Perm rest))

  -- No bucket counts less than the one before it, the first one not less than nothing.
  abbrev pub AreCumulative : Buckets fl neg_inf → F → List F → Type 0
  AreCumulative buckets previous [] = Unit
  AreCumulative buckets previous (key ∷ keys) =
      (fl.lt (fl.sub (value_of fl neg_inf key buckets) (value_of fl neg_inf previous buckets))
          fl.zero
        ≡ false)
      × AreCumulative buckets key keys

  -- Each bound with the one before it.
  abbrev pub adjacent : F → List F → List (F × F)
  adjacent previous [] = []
  adjacent previous (key ∷ keys) = (previous, key) ∷ adjacent key keys

  module _ (unix : ℕ → String) (q : QueryOptions) (ts : ℕ) where
    -- The event of the bucket of a bound, where the one before it has another: the increase of its
    -- value from that of the one before, with the labels of the bucket and the two bounds.
    abbrev pub event_between : Buckets fl neg_inf → F × F → Option (Raw F)
    event_between buckets (below, bound) =
        emit_event fl unix q ts
          (fl.sub (value_of fl neg_inf bound buckets) (value_of fl neg_inf below buckets))
          (merge (new_from_metric (metric_of fl neg_inf bound buckets)) (
            ("prometheusHistogramMinValue", fl.format below)
            ∷ ("prometheusHistogramMaxValue", fl.format bound)
            ∷ []))

  abbrev pub somes : List (Option (Raw F)) → List (Raw F)
  somes [] = []
  somes (o ∷ rest) = sent fl o (somes rest)

  module _ (unix : ℕ → String) (q : QueryOptions) (ts : ℕ) where
    report_buckets-AreCumulative :
        (buckets : Buckets fl neg_inf) (previous : F) (keys : List F)
        → ((report_buckets fl neg_inf unix q ts buckets previous keys).1 ≡ false
            ↔ AreCumulative buckets previous keys)
          × (AreCumulative buckets previous keys
              → (report_buckets fl neg_inf unix q ts buckets previous keys).0
                ≡ somes (map (event_between unix q ts buckets) (adjacent previous keys)))
    unfolding report_buckets
    report_buckets-AreCumulative buckets previous [] = ((λ e. tt, λ h. refl), λ h. refl)
    report_buckets-AreCumulative buckets previous (key ∷ keys) =
        let later = report_buckets-AreCumulative buckets key keys in
        elim (Bool-cases (
          fl.lt (fl.sub (value_of fl neg_inf key buckets) (value_of fl neg_inf previous buckets))
            fl.zero)) [
              | inl less ↦ rw less (
                (λ e. absurd (ground arith), λ h. absurd (ground arith)),
                λ h. absurd (ground arith),
              )
              | inr more ↦ rw more (
                (λ e. (refl, later.0.0 e), λ h. later.0.1 h.1),
                λ h.
                    ap (sent fl (bucket_event fl neg_inf unix q ts buckets previous key))
                      (later.1 h.1),
              )
            ]

    -- Where `<` on numbers is asymmetric: the buckets of a histogram are reported each once, in
    -- ascending order of their bounds. The report succeeds exactly when no bucket counts less than
    -- the one before it, and then sends for each bucket the event of the difference of its value to
    -- that of the one before it, with the bound before it as the minimum and its own as the maximum;
    -- for the first bucket that is the value found under -Inf, which is 0 where there is none, and
    -- -Inf.
    pub report_buckets-sorted :
        (buckets : Buckets fl neg_inf)
        → ((a b : F) → fl.lt a b ≡ true → fl.lt b a ≡ false)
        → let keys = sorted_bounds fl neg_inf buckets in
          let reported = report_buckets fl neg_inf unix q ts buckets neg_inf keys in
          IsAscending keys
          × Perm keys (map (λ b. b.0) buckets)
          × (reported.1 ≡ false ↔ AreCumulative buckets neg_inf keys)
          × (AreCumulative buckets neg_inf keys
              → reported.0 ≡ somes (map (event_between unix q ts buckets) (adjacent neg_inf keys)))
    report_buckets-sorted buckets asym =
        let reported =
          report_buckets-AreCumulative buckets neg_inf (sorted_bounds fl neg_inf buckets) in
        (sorted_bounds-IsAscending asym buckets, sorted_bounds-Perm buckets, reported.0, reported.1)
