-- ===== src/PrometheusExporter/Exporter/Processing.antt =====
-- What processing SLO events does to the counters of pkg/prometheus_exporter/prometheus_exporter.go.
use mathlib.Core.List.{append_assoc, append-nil}
use slo_exporter.Prelude.{
  ℕ, String, ◌≡◌, refl, ◌∙◌, ◌↔◌, ◌⊎◌, true, false, Option, none, some, List, [], ◌∷◌, ◌++◌, length,
  ltb, if◌then◌else◌, arith, inl, inr, Bool-cases, ◌==◌, eq_iff, eq_refl, All,
}
use slo_exporter.Prelude.Dict.{Dict, insert}
use slo_exporter.StringMap.{StringMap, select}
use slo_exporter.Event.{Slo, success, fail, possible_results}
use slo_exporter.Runtime.{Float64}
use slo_exporter.PrometheusExporter.Counter.{Addition}
use slo_exporter.PrometheusExporter.Aggregation.{set_add_all}
use slo_exporter.PrometheusExporter.Aggregation.Laws.{IsLevel, set_add_all-IsLevel, new_set-IsLevel}
use slo_exporter.PrometheusExporter.Exporter.{
  Exporter, PrometheusExporterConfig, ProcessError, invalid_slo_event_result, new,
  is_cardinality_exceeded, is_one_of, labels_from_event, plain, initialize_metric, add_quantity,
  process_event, run, step, count_error, metric_help,
}

-- A later write to a key replaces an earlier one.
insert-insert {ℓ} :
    {V : Type ℓ} (k : String) (v w : V) (m : Dict V) → insert k w (insert k v m) ≡ insert k w m
unfolding insert
insert-insert k v w [] = simp eq_refl
insert-insert k v w ((j, u) ∷ m) = elim (Bool-cases (j == k)) [
  | inl same ↦ rw same (simp eq_refl)
  | inr other ↦ simp (other, insert-insert k v w m)
]

-- The two results that an event may have.
abbrev pub HasResult : {F : Type 0} → Slo F → Type 0
HasResult s = (s.result ≡ success) ⊎ (s.result ≡ fail)

pub is_one_of_iff :
    {F : Type 0} (s : Slo F) → (is_one_of s.result possible_results ≡ true) ↔ HasResult s
unfolding is_one_of
is_one_of_iff s = ground (arith, eq_iff success s.result, eq_iff fail s.result)

is_one_of-false :
    {F : Type 0} (s : Slo F) → (¬ HasResult s) → is_one_of s.result possible_results ≡ false
is_one_of-false s h = ground (arith, is_one_of_iff s)

module _ {F T : Type 0} where
  keeps-labels :
      (e : Exporter F T) (k : String) → (is_cardinality_exceeded e k).1.label_names ≡ e.label_names
  unfolding is_cardinality_exceeded
  keeps-labels e k = ground arith

  keeps-exemplar_keys :
      (e : Exporter F T) (k : String)
      → (is_cardinality_exceeded e k).1.exemplar_metadata_keys ≡ e.exemplar_metadata_keys
  unfolding is_cardinality_exceeded
  keeps-exemplar_keys e k = ground arith

  keeps-metrics :
      (e : Exporter F T) (k : String)
      → (is_cardinality_exceeded e k).1.aggregated_metrics_set ≡ e.aggregated_metrics_set
  unfolding is_cardinality_exceeded
  keeps-metrics e k = ground arith

  keeps-invalid_results :
      (e : Exporter F T) (k : String)
      → (is_cardinality_exceeded e k).1.invalid_results ≡ e.invalid_results
  unfolding is_cardinality_exceeded
  keeps-invalid_results e k = ground arith

module _ (fl : Float64) (max_runes : ℕ) {T : Type 0} where
  open fl use {F}

  -- The labels of an event, with the placeholder for an event key that is refused.
  abbrev pub masked_labels : Exporter F T → Slo F → StringMap
  masked_labels e s =
      if (is_cardinality_exceeded e s.key).0
      then insert e.label_names.event_key e.exceeded_key_limit_placeholder (labels_from_event e s)
      else labels_from_event e s

  -- The labels of an event with a result.
  abbrev pub with_result : Exporter F T → Slo F → String → StringMap
  with_result e s result = insert e.label_names.result result (masked_labels e s)

  -- The addition that counts an event: its quantity, with exemplar labels if any are configured.
  abbrev pub counted : Exporter F T → Slo F → Option T → Addition F T
  counted e s now =
      if ltb 0 (length e.exemplar_metadata_keys)
      then record {
        value = s.quantity;
        labels = with_result e s s.result;
        exemplar_labels = select s.original_event.metadata e.exemplar_metadata_keys;
        now = now;
      }
      else plain fl max_runes s.quantity (with_result e s s.result)

  -- What an event adds: zero under each possible result, and its quantity under its own.
  abbrev pub additions_of : Exporter F T → Slo F → Option T → List (Addition F T)
  additions_of e s now =
      plain fl max_runes fl.zero (with_result e s success)
      ∷ plain fl max_runes fl.zero (with_result e s fail)
      ∷ counted e s now
      ∷ []

  -- An event whose result is neither a success nor a failure is refused and changes nothing.
  pub process_event_invalid :
      (e : Exporter F T) (s : Slo F) (now : Option T)
      → (¬ HasResult s)
      → process_event fl max_runes e s now ≡ (some (invalid_slo_event_result s.result), e)
  unfolding process_event
  process_event_invalid e s now h = rw (is_one_of-false s h) refl

  -- An event whose result is a success or a failure is accepted: every level of the cascade gets
  -- zero under each of the two results and then the quantity under the event's own, with the
  -- placeholder for an event key beyond the limit, and the cache of keys is the one that the check
  -- of the limit leaves.
  pub process_event_valid :
      (e : Exporter F T) (s : Slo F) (now : Option T)
      → HasResult s
      → ((process_event fl max_runes e s now).0 ≡ none)
        × ((process_event fl max_runes e s now).1.aggregated_metrics_set
            ≡ set_add_all fl max_runes e.aggregated_metrics_set (additions_of e s now))
        × ((process_event fl max_runes e s now).1.event_key_cache
            ≡ (is_cardinality_exceeded e s.key).1.event_key_cache)
  unfolding process_event set_add_all plain add_quantity initialize_metric
  process_event_valid e s now h =
      let names = insert-insert e.label_names.result in
      let masked = masked_labels e s in
      rw
        (
          (is_one_of_iff s).1 h,
          keeps-labels e s.key,
          keeps-exemplar_keys e s.key,
          keeps-metrics e s.key,
          names success fail masked,
          names fail s.result masked,
        )
        (refl, refl, refl)

  -- What a run of events adds, in order: nothing for an event that is refused.
  abbrev pub history : Exporter F T → List (Slo F × Option T) → List (Addition F T)
  history e [] = []
  history e ((s, now) ∷ rest) =
      (if is_one_of s.result possible_results then additions_of e s now else [])
      ++ history (step fl max_runes e s now) rest

  pub step_valid :
      (e : Exporter F T) (s : Slo F) (now : Option T)
      → HasResult s
      → step fl max_runes e s now ≡ (process_event fl max_runes e s now).1
  step_valid e s now h =
      let r = process_event_valid e s now h in counted_none (process_event fl max_runes e s now) r.0
    where
      counted_none : (p : Option ProcessError × Exporter F T) → p.0 ≡ none → count_error p ≡ p.1
      counted_none (none, e) h = refl
      counted_none (some x, e) h = absurd (cc h)

  step-IsLevel :
      (e : Exporter F T) (s : Slo F) (now : Option T) (past : List (Addition F T))
      → All (IsLevel fl max_runes T past) e.aggregated_metrics_set
      → All
          (IsLevel fl max_runes T
            (past ++ (if is_one_of s.result possible_results then additions_of e s now else [])))
          (step fl max_runes e s now).aggregated_metrics_set
  step-IsLevel e s now past h = elim (Bool-cases (is_one_of s.result possible_results)) [
    | inl valid ↦
        let result = (is_one_of_iff s).0 valid in
        rw (valid, step_valid e s now result, (process_event_valid e s now result).1)
          (set_add_all-IsLevel fl max_runes T (additions_of e s now) past e.aggregated_metrics_set
            h)
    | inr invalid ↦
        rw (invalid, process_event_invalid e s now (λ v. cc ((is_one_of_iff s).1 v)), append-nil) h
  ]

  run-IsLevel :
      (evs : List (Slo F × Option T)) (e : Exporter F T) (past : List (Addition F T))
      → All (IsLevel fl max_runes T past) e.aggregated_metrics_set
      → All
          (IsLevel fl max_runes T (past ++ history e evs))
          (run fl max_runes e evs).aggregated_metrics_set
  unfolding run
  run-IsLevel [] e past h = rw append-nil h
  run-IsLevel ((s, now) ∷ rest) e past h =
      rw append_assoc at
        (run-IsLevel rest (step fl max_runes e s now) (past ++ added) (step-IsLevel e s now past h))
    where
      added : List (Addition F T)
      added = if is_one_of s.result possible_results then additions_of e s now else []

  -- After a run of events on a new exporter, every level of the cascade shows, for each label text,
  -- the sum of what the events with a result of the two added: zero under each result, and then the
  -- quantity under the event's own.
  pub run-levels :
      (config : PrometheusExporterConfig) (evs : List (Slo F × Option T))
      → All
          (IsLevel fl max_runes T (history (new config) evs))
          (run fl max_runes (new config) evs).aggregated_metrics_set
  unfolding new
  run-levels config evs = run-IsLevel evs (new config) [] (
      new_set-IsLevel fl max_runes T config.metric_name metric_help (
        config.label_names.slo_domain ∷ config.label_names.slo_class ∷ config.label_names.slo_app
        ∷ config.label_names.event_key ∷ []))

  step-invalid_results :
      (e : Exporter F T) (s : Slo F) (now : Option T)
      → HasResult s
      → (step fl max_runes e s now).invalid_results ≡ e.invalid_results
  unfolding process_event add_quantity initialize_metric
  step-invalid_results e s now h =
      rw (step_valid e s now h, (is_one_of_iff s).1 h, keeps-invalid_results e s.key) refl

  -- A run of events that all have one of the two results counts no error.
  pub run-invalid_results :
      (e : Exporter F T) (evs : List (Slo F × Option T))
      → All (λ ev. HasResult ev.0) evs
      → (run fl max_runes e evs).invalid_results ≡ e.invalid_results
  unfolding run
  run-invalid_results e [] h = refl
  run-invalid_results e ((s, now) ∷ rest) h =
      run-invalid_results (step fl max_runes e s now) rest h.1 ∙ step-invalid_results e s now h.0
