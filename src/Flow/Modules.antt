-- ===== src/Flow/Modules.antt =====
-- The Run loops of pkg/relabel, pkg/event_key_generator, pkg/slo_event_producer and
-- pkg/prometheus_exporter as the stages of one pipeline, behind a module that reads raw events.
use mathlib.Core.List.{append-nil, map-append}
use slo_exporter.Prelude.{
  ℕ, ◌+◌, ◌≡◌, ap, sym, ◌∙◌, refl, true, Option, none, some, List, [], ◌∷◌, map, Option-cases, inl,
  inr, arith,
}
use slo_exporter.Event.{Raw, Slo}
use slo_exporter.Runtime.{Float64, TextLibrary}
use slo_exporter.Stages.Relabel as Relabel
use slo_exporter.Stages.Relabel.{Labels}
use slo_exporter.Stages.EventKeyGenerator as KeyGenerator
use slo_exporter.Stages.EventKeyGenerator.{EventKeyGenerator}
use slo_exporter.SloEventProducer.Evaluator as Producer
use slo_exporter.PrometheusExporter.Exporter.{Exporter}
use slo_exporter.PrometheusExporter.Exporter as Consumer
use slo_exporter.Pipeline.Network.{
  Network, sink, stage, looping, finished, Steps, all_done, loop, drain,
}
use slo_exporter.Pipeline.Network.Progress.{Steps-drained}

-- What the channels between modules carry.
pub data Message (F : Type 0) : Type 0 where
  raw_event : Raw F → Message F
  slo_event : Slo F → Message F

module _ (fl : Float64) where
  open fl use {F}

  -- The module that reads: it receives nothing.
  abbrev pub read : Unit {0} → Message F → Unit {0} × List (Message F)
  read tt e = (tt, [])

  -- The body of the loop of Run in pkg/relabel. The manager links no channel of other events to it.
  unfoldable pub relabel_loop :
      {Config : Type 0}
      → (Labels → Config → Option Labels)
      → List Config
      → ℕ
      → Message F
      → ℕ × List (Message F)
  relabel_loop process_rule rules dropped (slo_event s) = (dropped, [])
  relabel_loop process_rule rules dropped (raw_event e) =
      elim (Relabel.relabel_event process_rule rules e) [
        | none ↦ (dropped + 1, [])
        | some e' ↦ (dropped, raw_event e' ∷ [])
      ]

  -- The body of the loop of Run in pkg/event_key_generator.
  unfoldable pub key_loop : EventKeyGenerator → Message F → EventKeyGenerator × List (Message F)
  key_loop g (slo_event s) = (g, [])
  key_loop g (raw_event e) = let (e', g') = KeyGenerator.process g e in (g', raw_event e' ∷ [])

  pub loop-relabel_loop :
      {Config : Type 0} (process_rule : Labels → Config → Option Labels) (rules : List Config)
      → (dropped : ℕ) (events : List (Raw F))
      → let sent = Relabel.run process_rule rules dropped events in
        loop (relabel_loop process_rule rules) dropped (map raw_event events)
        ≡ (sent.1, map raw_event sent.0)
  unfolding loop relabel_loop Relabel.run
  loop-relabel_loop process_rule rules dropped [] = refl
  loop-relabel_loop process_rule rules dropped (e ∷ es) =
      elim (Option-cases (Relabel.relabel_event process_rule rules e)) [
        | inl gone ↦
            rw (gone, relabel_loop, Relabel.run)
              (rw (loop-relabel_loop process_rule rules (dropped + 1) es) refl)
        | inr (e', kept) ↦
            rw (kept, relabel_loop, Relabel.run)
              (rw (loop-relabel_loop process_rule rules dropped es) refl)
      ]

  pub loop-key_loop :
      (g : EventKeyGenerator) (events : List (Raw F))
      → let sent = KeyGenerator.run g events in
        loop key_loop g (map raw_event events) ≡ (sent.1, map raw_event sent.0)
  unfolding loop key_loop KeyGenerator.run
  loop-key_loop g [] = refl
  loop-key_loop g (e ∷ es) = rw (loop-key_loop (KeyGenerator.process g e).1 es) refl

  module _ (lib : TextLibrary) where
    -- The body of the loop of Run in pkg/slo_event_producer.
    unfoldable pub producer_loop :
        Producer.Rules fl lib
        → Producer.ProducerMetrics
        → Message F
        → Producer.ProducerMetrics × List (Message F)
    producer_loop rules m (slo_event s) = (m, [])
    producer_loop rules m (raw_event e) =
        let (m', events) = Producer.evaluate_rules fl lib rules e m in (m', map slo_event events)

    pub loop-producer_loop :
        (rules : Producer.Rules fl lib) (m : Producer.ProducerMetrics) (events : List (Raw F))
        → let sent = Producer.run fl lib rules m events in
          loop (producer_loop rules) m (map raw_event events) ≡ (sent.0, map slo_event sent.1)
    unfolding loop producer_loop Producer.run
    loop-producer_loop rules m [] = refl
    loop-producer_loop rules m (e ∷ es) =
        let now = Producer.evaluate_rules fl lib rules e m in
        let later = Producer.run fl lib rules now.0 es in
        rw (loop-producer_loop rules now.0 es)
          (ap (λ sent. (later.0, sent)) (sym (map-append slo_event now.1 later.1)))

  module _ (max_runes : ℕ) {T : Type 0} (now : Slo F → Option T) where
    -- The body of the loop of Run in pkg/prometheus_exporter.
    unfoldable pub exporter_loop : Exporter F T → Message F → Exporter F T × List (Message F)
    exporter_loop e (raw_event r) = (e, [])
    exporter_loop e (slo_event s) = (Consumer.step fl max_runes e s (now s), [])

    pub loop-exporter_loop :
        (e : Exporter F T) (events : List (Slo F))
        → loop exporter_loop e (map slo_event events)
          ≡ (Consumer.run fl max_runes e (map (λ s. (s, now s)) events), [])
    unfolding loop exporter_loop Consumer.run
    loop-exporter_loop e [] = refl
    loop-exporter_loop e (s ∷ rest) =
        rw (loop-exporter_loop (Consumer.step fl max_runes e s (now s)) rest) refl

  -- The four modules behind one that reads the events, as NewManager links them and Run starts them.
  module _ (lib : TextLibrary) (max_runes : ℕ) {T Config : Type 0} (now : Slo F → Option T)
      (process_rule : Labels → Config → Option Labels) where
    unfoldable pub started :
        List (Raw F)
        → List Config
        → EventKeyGenerator
        → Producer.Rules fl lib
        → Producer.ProducerMetrics
        → Exporter F T
        → Network (Message F)
    started events configs g rules m e = stage read tt looping (map raw_event events) (
        stage (relabel_loop process_rule configs) 0 looping [] (
          stage key_loop g looping [] (
            stage (producer_loop lib rules) m looping []
              (stage (exporter_loop max_runes now) e looping [] (sink [])))))

    -- However the goroutines of a pipeline of a reader, the relabeling, the key generator, the SLO
    -- event producer and the exporter interleave, once the pipeline is done their states are those
    -- of the modules run one after another on whole lists of events, and nothing was sent
    -- behind the exporter.
    pub Steps-run :
        (events : List (Raw F)) (configs : List Config) (g : EventKeyGenerator)
        → (rules : Producer.Rules fl lib) (m : Producer.ProducerMetrics) (e : Exporter F T)
        → {k : ℕ} {ended : Network (Message F)}
        → Steps (Message F) true k (started events configs g rules m e) ended
        → all_done ended ≡ true
        → let relabeled = Relabel.run process_rule configs 0 events in
          let keyed = KeyGenerator.run g relabeled.0 in
          let produced = Producer.run fl lib rules m keyed.0 in
          ended
          ≡ stage read tt finished [] (
              stage (relabel_loop process_rule configs) relabeled.1 finished [] (
                stage key_loop keyed.1 finished [] (
                  stage (producer_loop lib rules) produced.0 finished [] (
                    stage
                      (exporter_loop max_runes now)
                      (Consumer.run fl max_runes e (map (λ s. (s, now s)) produced.1))
                      finished
                      []
                      (sink [])))))
    unfolding started drain loop
    Steps-run events configs g rules m e moves is_done =
        let relabeled = Relabel.run process_rule configs 0 events in
        let keyed = KeyGenerator.run g relabeled.0 in
        let produced = Producer.run fl lib rules m keyed.0 in
        Steps-drained (ground arith) moves is_done
        ∙ rw (append-nil (map raw_event events)) (
            rw (loop-relabel_loop process_rule configs 0 events) (
              rw (loop-key_loop g relabeled.0) (
                rw (loop-producer_loop lib rules m keyed.0)
                  (rw (loop-exporter_loop max_runes now e produced.1) refl))))
