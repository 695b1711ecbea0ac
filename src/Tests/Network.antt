-- ===== src/Tests/Network.antt =====
-- A pipeline of goroutines at concrete events.
use slo_exporter.Prelude.{
  ℕ, ◌+◌, ◌≡◌, ◌≤◌, ◌<◌, ◌↔◌, refl, true, false, not, Option, none, some, List, [], ◌∷◌, ◌++◌, map,
  arith,
}
use slo_exporter.Event.{Raw, Slo}
use slo_exporter.Stages.Relabel as Relabel
use slo_exporter.Stages.Relabel.{Labels}
use slo_exporter.Stages.EventKeyGenerator as KeyGenerator
use slo_exporter.Stages.EventKeyGenerator.{EventKeyGenerator}
use slo_exporter.SloEventProducer.Evaluator as Producer
use slo_exporter.PrometheusExporter.Exporter.{Exporter, new}
use slo_exporter.PrometheusExporter.Exporter as Consumer
use slo_exporter.Pipeline.Network.{
  Network, sink, stage, looping, finished, Step, Steps, all_done, drain, loop, remaining,
  wait_stopped,
}
use slo_exporter.Pipeline.Network.Progress.{IsOrdered, Steps-all_done, Steps-drained, complete}
use slo_exporter.Pipeline.Network.Shutdown.{wait_stopped-Steps}
use slo_exporter.Flow.Modules.{
  Message, read, relabel_loop, key_loop, producer_loop, exporter_loop, started, Steps-run,
}
use slo_exporter.Tests.Samples.{
  numbers, texts, failed_request, unclassified_request, availability, config,
}

abbrev double : ℕ → ℕ → ℕ × List ℕ
double sum n = (sum + n, (n + n) ∷ [])

-- A module that has two numbers to send, in front of one that doubles them.
abbrev two : Network ℕ
two = stage (λ (s : ℕ) n. (s, [])) 0 looping (3 ∷ 4 ∷ []) (stage double 0 looping [] (sink []))

two-IsOrdered : IsOrdered true two
two-IsOrdered = ground arith

two_run : (m : Network ℕ) × Steps ℕ true 8 two m × (all_done m ≡ true)
unfolding remaining loop
two_run = complete 8 two two-IsOrdered refl

Steps-all_done_example :
    (8 ≤ remaining [] two)
    × (all_done two_run.0 ≡ true ↔ 8 ≡ remaining [] two)
    × (8 < remaining [] two → (l : Network ℕ) × Step ℕ true two_run.0 l)
Steps-all_done_example = Steps-all_done two-IsOrdered two_run.1

Steps-drained_example : two_run.0 ≡ drain [] two
Steps-drained_example = Steps-drained two-IsOrdered two_run.1 two_run.2

wait_stopped-Steps_example :
    wait_stopped ([] ++ record { expired = false; done = all_done two_run.0 } ∷ [])
    ≡ some (not false)
unfolding remaining loop
wait_stopped-Steps_example = wait_stopped-Steps two-IsOrdered two_run.1 refl false [] [] tt

-- The events, without a rule for labels and with no limit that they reach.
abbrev keep : Labels → ℕ → Option Labels
keep labels rule = some labels

abbrev generator : EventKeyGenerator
generator = record {
  separator = ":";
  override_existing_key = false;
  metadata_keys = "method" ∷ [];
  generated = 0;
  skipped = 0;
}

abbrev no_counts : Producer.ProducerMetrics
no_counts = record { unclassified_events_total = 0; did_not_match_any_rule = 0 }

abbrev requests : List (Raw ℕ)
requests = failed_request ∷ unclassified_request ∷ []

abbrev at_start : Network (Message ℕ)
at_start =
    started numbers texts 128 {T = ℕ} (λ s. none) keep requests (1 ∷ []) generator
      (availability ∷ []) no_counts (new config)

at_start_run :
    (m : Network (Message ℕ)) × Steps (Message ℕ) true (remaining [] at_start) at_start m
    × (all_done m ≡ true)
unfolding started
at_start_run = complete (remaining [] at_start) at_start (ground arith) refl

abbrev relabeled : List (Raw ℕ) × ℕ
relabeled = Relabel.run keep (1 ∷ []) 0 requests

abbrev keyed : List (Raw ℕ) × EventKeyGenerator
keyed = KeyGenerator.run generator relabeled.0

abbrev produced : Producer.ProducerMetrics × List (Slo ℕ)
produced = Producer.run numbers texts (availability ∷ []) no_counts keyed.0

Steps-run_example :
    at_start_run.0
    ≡ stage (read numbers) tt finished [] (
        stage (relabel_loop numbers keep (1 ∷ [])) relabeled.1 finished [] (
          stage (key_loop numbers) keyed.1 finished [] (
            stage (producer_loop numbers texts (availability ∷ [])) produced.0 finished [] (
              stage
                (exporter_loop numbers 128 (λ s. none))
                (Consumer.run numbers 128 {T = ℕ} (new config) (map (λ s. (s, none)) produced.1))
                finished
                []
                (sink [])))))
Steps-run_example =
    Steps-run numbers texts 128 (λ s. none) keep requests (1 ∷ []) generator (availability ∷ [])
      no_counts (new config) at_start_run.1 at_start_run.2
