-- ===== src/PrometheusExporter/Exporter/Scrape.antt =====
-- What Prometheus scrapes from the exporter of pkg/prometheus_exporter/prometheus_exporter.go.
use slo_exporter.Prelude.{
  ℕ, ◌≡◌, ◌∙◌, refl, String, concat, map, Option, List, [], ◌∷◌, All, Bool-cases, inl, inr,
}
use slo_exporter.Event.{Slo, possible_results}
use slo_exporter.Runtime.{Float64}
use slo_exporter.StringMap.{join}
use slo_exporter.PrometheusExporter.Counter.{new_counter_vector}
use slo_exporter.PrometheusExporter.Aggregation.{
  new_aggregated_counter_vector_set, aggregated_metric_name,
}
use slo_exporter.PrometheusExporter.Counter.Collect.{IsSpelled}
use slo_exporter.PrometheusExporter.Aggregation.Collect.{
  Exports, shape, shapes-set_add_all, levels-Exports, new_set-IsSpelled, set_add_all-IsSpelled,
}
use slo_exporter.PrometheusExporter.Exporter.{
  Exporter, PrometheusExporterConfig, metric_help, new, run, is_one_of, step,
}
use slo_exporter.PrometheusExporter.Exporter.Processing.{
  history, step_valid, is_one_of_iff, additions_of, process_event_valid, process_event_invalid,
  run-levels,
}

abbrev metric_of : PrometheusExporterConfig → List String → String
metric_of config labels = concat (join "_" labels) (concat ":" config.metric_name)

-- The cascade of a configuration: by the domain, by the class as well, by the application as well,
-- and by the key of the event as well. A level has a metric of its own, which the names of its
-- labels begin, and it drops the labels of the finer levels.
abbrev pub levels_of : PrometheusExporterConfig → List (String × List String)
levels_of config =
    let names = config.label_names in
    let domain = names.slo_domain in
    let class = names.slo_class in
    let app = names.slo_app in
    let key = names.event_key in
    (metric_of config (domain ∷ []), class ∷ app ∷ key ∷ [])
    ∷ (metric_of config (domain ∷ class ∷ []), app ∷ key ∷ [])
    ∷ (metric_of config (domain ∷ class ∷ app ∷ []), key ∷ [])
    ∷ (metric_of config (domain ∷ class ∷ app ∷ key ∷ []), [])
    ∷ []

module _ (fl : Float64) (max_runes : ℕ) {T : Type 0} where
  open fl use {F}

  step-IsSpelled :
      (e : Exporter F T) (s : Slo F) (now : Option T)
      → All (λ v. IsSpelled v.vector) e.aggregated_metrics_set
      → All (λ v. IsSpelled v.vector) (step fl max_runes e s now).aggregated_metrics_set
  step-IsSpelled e s now h = elim (Bool-cases (is_one_of s.result possible_results)) [
    | inl valid ↦
        let result = (is_one_of_iff s).0 valid in
        rw
          (
            step_valid fl max_runes e s now result,
            (process_event_valid fl max_runes e s now result).1,
          )
          (set_add_all-IsSpelled fl max_runes T e.aggregated_metrics_set
            (additions_of fl max_runes e s now) h)
    | inr invalid ↦
        rw (process_event_invalid fl max_runes e s now (λ v. cc ((is_one_of_iff s).1 v))) h
  ]

  run-IsSpelled :
      (evs : List (Slo F × Option T)) (e : Exporter F T)
      → All (λ v. IsSpelled v.vector) e.aggregated_metrics_set
      → All (λ v. IsSpelled v.vector) (run fl max_runes e evs).aggregated_metrics_set
  unfolding run
  run-IsSpelled [] e h = h
  run-IsSpelled ((s, now) ∷ rest) e h =
      run-IsSpelled rest (step fl max_runes e s now) (step-IsSpelled e s now h)

  shapes-step :
      (e : Exporter F T) (s : Slo F) (now : Option T)
      → map (shape fl max_runes T) (step fl max_runes e s now).aggregated_metrics_set
        ≡ map (shape fl max_runes T) e.aggregated_metrics_set
  shapes-step e s now = elim (Bool-cases (is_one_of s.result possible_results)) [
    | inl valid ↦
        let result = (is_one_of_iff s).0 valid in
        rw
          (
            step_valid fl max_runes e s now result,
            (process_event_valid fl max_runes e s now result).1,
          )
          (shapes-set_add_all fl max_runes T e.aggregated_metrics_set
            (additions_of fl max_runes e s now))
    | inr invalid ↦
        rw (process_event_invalid fl max_runes e s now (λ v. cc ((is_one_of_iff s).1 v))) refl
  ]

  shapes-run :
      (evs : List (Slo F × Option T)) (e : Exporter F T)
      → map (shape fl max_runes T) (run fl max_runes e evs).aggregated_metrics_set
        ≡ map (shape fl max_runes T) e.aggregated_metrics_set
  unfolding run
  shapes-run [] e = refl
  shapes-run ((s, now) ∷ rest) e = shapes-run rest (step fl max_runes e s now) ∙ shapes-step e s now

  -- After a run of events on a new exporter there are four levels: by the domain, by the class as
  -- well, by the application as well, and by the key of the event as well, each with a metric of its
  -- own that is named after its labels. A scrape shows at every level each label text once, as it is
  -- spelled by the labels of the metric, and under it the sum of what the events with a result of the
  -- two added: zero under each result, and then the quantity under the event's own, with the labels
  -- of the finer levels dropped.
  pub run-scrape :
      (config : PrometheusExporterConfig) (evs : List (Slo F × Option T))
      → let levels = (run fl max_runes (new config) evs).aggregated_metrics_set in
        (map (shape fl max_runes T) levels ≡ levels_of config)
        × All (Exports fl max_runes T (history fl max_runes (new config) evs)) levels
  unfolding new new_aggregated_counter_vector_set new_counter_vector aggregated_metric_name
  run-scrape config evs = (
    shapes-run evs (new config),
    levels-Exports fl max_runes T (history fl max_runes (new config) evs) _
        (run-levels fl max_runes config evs)
        (run-IsSpelled evs (new config) (
          new_set-IsSpelled F T config.metric_name metric_help (
            config.label_names.slo_domain ∷ config.label_names.slo_class
            ∷ config.label_names.slo_app ∷ config.label_names.event_key ∷ []))),
  )
