-- ===== src/StatisticalClassifier/Running/Laws.antt =====
-- The module of pkg/statistical_classifier/statistical_classifier.go accounts for every event.
use native.Mathlib.Nat.{add-zero}
use slo_exporter.Prelude.{
  ℕ, ◌+◌, ◌<◌, String, ◌≡◌, refl, true, false, Option, none, some, List, [], ◌∷◌, ◌++◌, length,
  length-append, All, All-append, ap, ◌∙◌, ℤ, pos, gt_ℤ, arith, inl, inr, Option-cases,
  if◌then◌else◌, is_some,
}
use slo_exporter.Event.{Raw, is_classified}
use slo_exporter.Prelude.Results.{ok}
use slo_exporter.Runtime.{Float64}
use slo_exporter.StatisticalClassifier.{WeightedClassifier}
use slo_exporter.StatisticalClassifier.Laws.{IsSound, archive-IsSound}
use slo_exporter.StatisticalClassifier.Guessing.{new-IsSound}
use slo_exporter.StatisticalClassifier.Running.{
  Counters, Classified, Input, arrives, ticks, ticks_within, Sent, archived, on_event, on_arrival,
  on_input, on_inputs, run, new_statistical_classifier,
}
use slo_exporter.StatisticalClassifier.Running.Outcomes.{Outcome, classify-Outcome}

abbrev pub no_counts : Counters
no_counts = record {
  unclassified = 0;
  classified = 0;
  increased_weight = 0;
  failed_to_classify = 0;
}

module _ (fl : Float64) where
  open fl use {F}

  -- The sampler takes an index of the weights that it is given, and the ticker does not tick while
  -- Classify is at an event that is classified already.
  abbrev pub IsWithin : Input F → Type 0
  IsWithin (arrives e take_weighted) =
      (ws : List F) (i : ℕ) → take_weighted ws ≡ some i → i < length ws
  IsWithin ticks = Unit
  IsWithin (ticks_within e take_weighted) =
      (is_classified e ≡ false)
      × ((ws : List F) (i : ℕ) → take_weighted ws ≡ some i → i < length ws)

  -- How many events arrive.
  abbrev pub arriving : List (Input F) → ℕ
  arriving [] = 0
  arriving (arrives e take_weighted ∷ rest) = arriving rest + 1
  arriving (ticks ∷ rest) = arriving rest
  arriving (ticks_within e take_weighted ∷ rest) = arriving rest + 1

  -- How many of them are classified already.
  abbrev pub arriving_classified : List (Input F) → ℕ
  arriving_classified [] = 0
  arriving_classified (arrives e take_weighted ∷ rest) =
      arriving_classified rest + (if is_classified e then 1 else 0)
  arriving_classified (ticks ∷ rest) = arriving_classified rest
  arriving_classified (ticks_within e take_weighted ∷ rest) =
      arriving_classified rest + (if is_classified e then 1 else 0)

  -- What the module has sent and counted after some inputs.
  record Accounts (past : ℕ) (past_classified : ℕ) (sent : Sent F) : Type 0 where
    sound : IsSound fl sent.classifier
    classes : All (λ (e : Raw F). is_some e.slo_classification ≡ true) sent.events
    all_counted :
        sent.counters.unclassified + sent.counters.classified + sent.counters.increased_weight
        ≡ past
    increased : sent.counters.increased_weight ≡ past_classified
    failed : sent.counters.failed_to_classify ≡ sent.counters.unclassified
    sent_or_failed : length sent.events + sent.counters.failed_to_classify ≡ past

  on_event-Accounts :
      (past past_classified : ℕ) (sent : Sent F) (e : Raw F) (c : Classified F)
      → Accounts past past_classified sent
      → Outcome fl sent.classifier sent.counters e c
      → Accounts
          (past + 1)
          (past_classified + (if is_classified e then 1 else 0))
          (on_event fl sent c)
  unfolding on_event
  on_event-Accounts past past_classified sent e c a out = elim (Option-cases c.error) [
    | inl classified_so ↦
        let many = length-append sent.events (c.event ∷ []) in
        let had : on_event fl sent c ≡ record {
          events = sent.events ++ c.event ∷ [];
          classifier = c.classifier;
          counters = c.counters;
        } =
          ground arith in
        rw had (record {
          sound = out.sound;
          classes =
              All-append _ sent.events (c.event ∷ []) a.classes (out.has_class classified_so, tt);
          all_counted = omega (arith, out.counted, a.all_counted);
          increased =
              out.increased ∙ ap (λ (n : ℕ). n + (if is_classified e then 1 else 0)) a.increased;
          failed = ground (arith, out.same_failed, out.unclassified, a.failed);
          sent_or_failed = omega (arith, many, out.same_failed, a.sent_or_failed);
        })
    | inr (x, refused_so) ↦
        let had : on_event fl sent c ≡ record {
          events = sent.events;
          classifier = c.classifier;
          counters = record (c.counters) { failed_to_classify = c.counters.failed_to_classify + 1 };
        } =
          ground arith in
        rw had (record {
          sound = out.sound;
          classes = a.classes;
          all_counted = omega (arith, out.counted, a.all_counted);
          increased =
              out.increased ∙ ap (λ (n : ℕ). n + (if is_classified e then 1 else 0)) a.increased;
          failed = ground (arith, out.same_failed, out.unclassified, a.failed);
          sent_or_failed = omega (arith, out.same_failed, a.sent_or_failed);
        })
  ]

  archived-Accounts :
      (past past_classified : ℕ) (sent : Sent F)
      → Accounts past past_classified sent
      → Accounts past past_classified (archived fl sent)
  archived-Accounts past past_classified sent a = record {
    sound = archive-IsSound fl sent.classifier a.sound;
    classes = a.classes;
    all_counted = a.all_counted;
    increased = a.increased;
    failed = a.failed;
    sent_or_failed = a.sent_or_failed;
  }

  on_arrival-Accounts :
      (e : Raw F) (take_weighted : List F → Option ℕ) (past past_classified : ℕ) (sent : Sent F)
      → ((ws : List F) (i : ℕ) → take_weighted ws ≡ some i → i < length ws)
      → Accounts past past_classified sent
      → (later : Sent F) × (on_arrival fl sent e take_weighted ≡ some later)
        × Accounts (past + 1) (past_classified + (if is_classified e then 1 else 0)) later
  unfolding on_arrival
  on_arrival-Accounts e take_weighted past past_classified sent within a =
      let (c, made, out) =
        classify-Outcome fl take_weighted within sent.classifier sent.counters e a.sound in
      (
        on_event fl sent c,
        rw (made, on_arrival) refl,
        on_event-Accounts past past_classified sent e c a out,
      )

  add_first :
      (n k first past past_classified : ℕ) (end : Sent F)
      → Accounts (past + 1 + n) (past_classified + first + k) end
      → Accounts (past + (n + 1)) (past_classified + (k + first)) end
  add_first n k first past past_classified end b = record {
    sound = b.sound;
    classes = b.classes;
    all_counted = omega (arith, b.all_counted);
    increased = omega (arith, b.increased);
    failed = b.failed;
    sent_or_failed = omega (arith, b.sent_or_failed);
  }

  on_inputs-Accounts :
      (inputs : List (Input F)) (past past_classified : ℕ) (sent : Sent F)
      → Accounts past past_classified sent
      → All IsWithin inputs
      → (end : Sent F) × (on_inputs fl sent inputs ≡ some end)
        × Accounts (past + arriving inputs) (past_classified + arriving_classified inputs) end
  unfolding on_inputs on_input
  on_inputs-Accounts [] past past_classified sent a h = (sent, refl, rw (add-zero, add-zero) a)
  on_inputs-Accounts (ticks ∷ rest) past past_classified sent a h =
      on_inputs-Accounts rest past past_classified (archived fl sent)
        (archived-Accounts past past_classified sent a) h.1
  on_inputs-Accounts (arrives e take_weighted ∷ rest) past past_classified sent a h =
      let (later, made, b) = on_arrival-Accounts e take_weighted past past_classified sent h.0 a in
      let (end, ran, c) =
        on_inputs-Accounts rest (past + 1) (past_classified + (if is_classified e then 1 else 0))
          later b h.1 in
      (
        end,
        rw (made, on_inputs) ran,
        add_first (arriving rest) (arriving_classified rest) (if is_classified e then 1 else 0) past
            past_classified end c,
      )
  on_inputs-Accounts (ticks_within e take_weighted ∷ rest) past past_classified sent a h =
      let (later, made, b) =
        on_arrival-Accounts e take_weighted past past_classified (archived fl sent) h.0.1
          (archived-Accounts past past_classified sent a) in
      let (end, ran, c) =
        on_inputs-Accounts rest (past + 1) (past_classified + (if is_classified e then 1 else 0))
          later b h.1 in
      (
        end,
        rw (h.0.0, made, on_inputs) ran,
        add_first (arriving rest) (arriving_classified rest) (if is_classified e then 1 else 0) past
            past_classified end c,
      )

  -- For a new classifier whose update interval is above 0: whatever events arrive and whenever its
  -- ticker ticks, but not while an event that is classified already increases a weight, and where the
  -- sampler takes an index of the weights that it is given, Run does not panic; every event is counted
  -- as unclassified, as classified or as one that increased a weight, which it does exactly when it
  -- was classified already; each event is sent, with a classification, or else counted as failed and
  -- as unclassified. With an update interval below 0, a new classifier panics as soon as it runs.
  pub run-accounts :
      (window_size history_update_interval : ℤ) (defaults : List (String × String × F))
      (s : WeightedClassifier F) (inputs : List (Input F))
      → new_statistical_classifier window_size history_update_interval defaults ≡ ok s
      → All IsWithin inputs
      → let start : Sent F = record { events = []; classifier = s; counters = no_counts } in
        let outcome = run fl history_update_interval start inputs in
        (gt_ℤ history_update_interval (pos 0) ≡ false → outcome ≡ none)
        × (gt_ℤ history_update_interval (pos 0) ≡ true
            → (end : Sent F) × (outcome ≡ some end)
              × (end.counters.unclassified + end.counters.classified + end.counters.increased_weight
                  ≡ arriving inputs)
              × (end.counters.increased_weight ≡ arriving_classified inputs)
              × (end.counters.failed_to_classify ≡ end.counters.unclassified)
              × (length end.events + end.counters.failed_to_classify ≡ arriving inputs)
              × All (λ (e : Raw F). is_some e.slo_classification ≡ true) end.events)
  unfolding run
  run-accounts window_size history_update_interval defaults s inputs made h =
      let start : Accounts 0 0 (record { events = []; classifier = s; counters = no_counts }) =
        record {
          sound = new-IsSound fl window_size history_update_interval defaults s made;
          classes = tt;
          all_counted = refl;
          increased = refl;
          failed = refl;
          sent_or_failed = refl;
        } in
      let (end, ran, a) =
        on_inputs-Accounts inputs 0 0 (record { events = []; classifier = s; counters = no_counts })
          start h in
      (
        (λ refused. rw refused refl),
        (λ ticking. (
          end,
          rw ticking ran,
          omega (arith, a.all_counted),
          omega (arith, a.increased),
          a.failed,
          omega (arith, a.sent_or_failed),
          a.classes,
        )),
      )
