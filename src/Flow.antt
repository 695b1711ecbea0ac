-- ===== src/Flow.antt =====
-- The producer of pkg/slo_event_producer in front of the exporter of pkg/prometheus_exporter.
pub mod Modules
use slo_exporter.Prelude.{ℕ, ◌≡◌, Option, List, [], ◌∷◌, map, All}
use slo_exporter.Event.{Raw, Slo}
use slo_exporter.Runtime.{Float64, TextLibrary}
use slo_exporter.SloEventProducer.Evaluator as Producer
use slo_exporter.SloEventProducer.Evaluator.Laws.{run-results}
use slo_exporter.PrometheusExporter.Exporter.{Exporter}
use slo_exporter.PrometheusExporter.Exporter as Consumer
use slo_exporter.PrometheusExporter.Exporter.Processing.{HasResult, run-invalid_results}

module _ (fl : Float64) (lib : TextLibrary) (max_runes : ℕ) {T : Type 0} where
  open fl use {F}

  All-map :
      (now : Slo F → Option T) (events : List (Slo F))
      → All HasResult events
      → All (λ (ev : Slo F × Option T). HasResult ev.0) (map (λ s. (s, now s)) events)
  All-map now [] h = tt
  All-map now (s ∷ rest) h = (h.0, All-map now rest h.1)

  -- Whatever raw events the producer reads and whatever its rules are, the exporter that receives the
  -- SLO events counts no invalid result.
  pub run-run-invalid_results :
      (rules : Producer.Rules fl lib) (m : Producer.ProducerMetrics) (events : List (Raw F))
      → (now : Slo F → Option T) (e : Exporter F T)
      → (Consumer.run fl max_runes e
          (map (λ s. (s, now s)) (Producer.run fl lib rules m events).1)).invalid_results
        ≡ e.invalid_results
  run-run-invalid_results rules m events now e =
      run-invalid_results fl max_runes e _
        (All-map now (Producer.run fl lib rules m events).1 (run-results fl lib rules m events))
