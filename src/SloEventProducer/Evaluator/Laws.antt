-- ===== src/SloEventProducer/Evaluator/Laws.antt =====
-- What the evaluator of pkg/slo_event_producer sends, counts and refuses.
use mathlib.Core.List.Memᴰ
use mathlib.Core.List.{Memᴰ}
use slo_exporter.Prelude.{
  ◌+◌, ◌≡◌, refl, ◌↔◌, ◌⊎◌, inl, inr, true, false, some, List, [], ◌∷◌, arith, All, All-append,
  Bool-cases, Option-cases, length, nat_eq,
}
use slo_exporter.Event.{SloClassification, Raw, Slo, is_classified, success, fail}
use slo_exporter.Runtime.{Float64, TextLibrary}
use slo_exporter.SloEventProducer.Rule.{RuleOptions, EvaluationRule, process_event}
use slo_exporter.SloEventProducer.Rule.Laws.{Accepts, process_event_iff, result_of}
use slo_exporter.SloEventProducer.Evaluator.{
  ProducerMetrics, Rules, new_event_evaluator_from_config, matched_events, evaluate_rules, run,
}

module _ (fl : Float64) (lib : TextLibrary) where
  open fl use {F}
  open lib use {Regexp}

  -- A rule of the list accepts the event.
  pub record SomeAccepts (rules : Rules fl lib) (e : Raw F) : Type 0 where
    pub rule : EvaluationRule F Regexp
    pub listed : Memᴰ rule rules
    pub classification : SloClassification
    pub accepts : Accepts fl lib rule e classification

  sent_sound :
      (rules : Rules fl lib) (e : Raw F) (s : Slo F)
      → Memᴰ s (matched_events fl lib rules e)
      → (rule : EvaluationRule F Regexp) × Memᴰ rule rules × (process_event fl lib rule e ≡ some s)
  unfolding matched_events
  sent_sound [] e s m = elim m [ ]
  sent_sound (rule ∷ rules) e s m = elim (Option-cases (process_event fl lib rule e)) [
    | inl missed ↦
        let (r, listed, sent) = sent_sound rules e s (rw (missed, matched_events) at m) in
        (r, Memᴰ.tail listed, sent)
    | inr (t, got) ↦ elim (Memᴰ.cases_cons (rw (got, matched_events) at m)) [
      | inl same ↦ (rule, Memᴰ.head refl, ground arith)
      | inr later ↦
          let (r, listed, sent) = sent_sound rules e s later in (r, Memᴰ.tail listed, sent)
    ]
  ]

  sent_complete :
      (rules : Rules fl lib) (e : Raw F) (s : Slo F) (rule : EvaluationRule F Regexp)
      → Memᴰ rule rules
      → process_event fl lib rule e ≡ some s
      → Memᴰ s (matched_events fl lib rules e)
  unfolding matched_events
  sent_complete [] e s rule m h = elim m [ ]
  sent_complete (r ∷ rules) e s rule (Memᴰ.head same) h =
      rw (← same, h, matched_events) (Memᴰ.head refl)
  sent_complete (r ∷ rules) e s rule (Memᴰ.tail m) h =
      elim (Option-cases (process_event fl lib r e)) [
        | inl missed ↦ rw (missed, matched_events) (sent_complete rules e s rule m h)
        | inr (t, got) ↦ rw (got, matched_events) (Memᴰ.tail (sent_complete rules e s rule m h))
      ]

  -- The evaluator sends an SLO event exactly when the event is classified and some rule makes it.
  pub evaluate_rules-sent_iff :
      (rules : Rules fl lib) (e : Raw F) (m : ProducerMetrics) (s : Slo F)
      → Memᴰ s (evaluate_rules fl lib rules e m).1 ↔ (
          (is_classified e ≡ true)
          × ((rule : EvaluationRule F Regexp) × Memᴰ rule rules
              × (process_event fl lib rule e ≡ some s)))
  unfolding evaluate_rules
  evaluate_rules-sent_iff rules e m s = elim (Bool-cases (is_classified e)) [
    | inl classified ↦
        let same : (evaluate_rules fl lib rules e m).1 ≡ matched_events fl lib rules e =
          ground arith in
        rw same (
          (λ sent. (classified, sent_sound rules e s sent)),
          (λ w. sent_complete rules e s w.1.0 w.1.1 w.1.2),
        )
    | inr unclassified ↦
        let none_sent : (evaluate_rules fl lib rules e m).1 ≡ [] = ground arith in
        rw none_sent ((λ sent. elim sent [ ]), (λ w. absurd (ground arith)))
  ]

  first_of_list : (l : List (Slo F)) → nat_eq (length l) 0 ≡ false → (s : Slo F) × Memᴰ s l
  first_of_list [] h = absurd (cc h)
  first_of_list (s ∷ l) h = (s, Memᴰ.head refl)

  SomeAccepts-sends :
      (rules : Rules fl lib) (e : Raw F)
      → SomeAccepts rules e
      → nat_eq (length (matched_events fl lib rules e)) 0 ≡ false
  SomeAccepts-sends rules e a =
      let (s, made) = (process_event_iff fl lib a.rule e).1 (a.classification, a.accepts) in
      not_empty (matched_events fl lib rules e) s (sent_complete rules e s a.rule a.listed made)
    where
      not_empty : (l : List (Slo F)) (s : Slo F) → Memᴰ s l → nat_eq (length l) 0 ≡ false
      not_empty [] s m = elim m [ ]
      not_empty (t ∷ l) s m = ground arith

  sends-SomeAccepts :
      (rules : Rules fl lib) (e : Raw F)
      → nat_eq (length (matched_events fl lib rules e)) 0 ≡ false
      → SomeAccepts rules e
  sends-SomeAccepts rules e h =
      let (s, sent) = first_of_list (matched_events fl lib rules e) h in
      let (rule, listed, made) = sent_sound rules e s sent in
      let (c, accepts) = (process_event_iff fl lib rule e).0 (s, made) in
      record { rule = rule; listed = listed; classification = c; accepts = accepts }

  -- The counters after an event: it is counted as unclassified exactly when it is not classified, as
  -- unmatched exactly when it is classified and no rule accepts it, and the counters stay exactly
  -- when a rule accepts it.
  pub evaluate_rules-counters :
      (rules : Rules fl lib) (e : Raw F) (m : ProducerMetrics)
      → (((evaluate_rules fl lib rules e m).0.unclassified_events_total
            ≡ m.unclassified_events_total + 1)
          ↔ (is_classified e ≡ false))
        × (((evaluate_rules fl lib rules e m).0.did_not_match_any_rule
              ≡ m.did_not_match_any_rule + 1)
            ↔ ((is_classified e ≡ true) × (¬ SomeAccepts rules e)))
        × (((evaluate_rules fl lib rules e m).0 ≡ m) ↔ SomeAccepts rules e)
  unfolding evaluate_rules
  evaluate_rules-counters rules e m = elim (Bool-cases (is_classified e)) [
    | inr unclassified ↦
        let none_accepts : ¬ SomeAccepts rules e = λ a. cc a.accepts.complete in
        (
          ((λ h. unclassified), (λ h. ground arith)),
          ((λ h. absurd (ground arith)), (λ w. absurd (ground arith))),
          ((λ h. absurd (ground arith)), (λ a. absurd (none_accepts a))),
        )
    | inl classified ↦ elim (Bool-cases (nat_eq (length (matched_events fl lib rules e)) 0)) [
      | inl empty ↦
          let none_accepts : ¬ SomeAccepts rules e = λ a. cc (SomeAccepts-sends rules e a) in
          (
            ((λ h. absurd (ground arith)), (λ h. absurd (ground arith))),
            ((λ h. (classified, none_accepts)), (λ w. ground arith)),
            ((λ h. absurd (ground arith)), (λ a. absurd (none_accepts a))),
          )
      | inr sent ↦
          let a = sends-SomeAccepts rules e sent in
          (
            ((λ h. absurd (ground arith)), (λ h. absurd (ground arith))),
            ((λ h. absurd (ground arith)), (λ w. absurd (w.1 a))),
            ((λ h. a), (λ b. ground arith)),
          )
    ]
  ]

  abbrev HasResult : Slo F → Type 0
  HasResult s = (s.result ≡ success) ⊎ (s.result ≡ fail)

  matched_events-results :
      (rules : Rules fl lib) (e : Raw F) → All HasResult (matched_events fl lib rules e)
  unfolding matched_events
  matched_events-results [] e = tt
  matched_events-results (rule ∷ rules) e = elim (Option-cases (process_event fl lib rule e)) [
    | inl missed ↦ rw (missed, matched_events) (matched_events-results rules e)
    | inr (s, made) ↦
        rw (made, matched_events)
          (ground (arith, result_of fl lib rule e s made), matched_events-results rules e)
  ]

  evaluate_rules-results :
      (rules : Rules fl lib) (e : Raw F) (m : ProducerMetrics)
      → All HasResult (evaluate_rules fl lib rules e m).1
  unfolding evaluate_rules
  evaluate_rules-results rules e m = elim (Bool-cases (is_classified e)) [
    | inr unclassified ↦ rw unclassified tt
    | inl classified ↦ elim (Bool-cases (nat_eq (length (matched_events fl lib rules e)) 0)) [
      | inl empty ↦ rw (classified, empty) (matched_events-results rules e)
      | inr sent ↦ rw (classified, sent) (matched_events-results rules e)
    ]
  ]

  -- Whatever events come in, every SLO event that is sent is a success or a failure.
  pub run-results :
      (rules : Rules fl lib) (m : ProducerMetrics) (es : List (Raw F))
      → All (λ s. (s.result ≡ success) ⊎ (s.result ≡ fail)) (run fl lib rules m es).1
  unfolding run
  run-results rules m [] = tt
  run-results rules m (e ∷ es) =
      All-append HasResult (evaluate_rules fl lib rules e m).1 _ (evaluate_rules-results rules e m)
        (run-results rules (evaluate_rules fl lib rules e m).0 es)

  -- The rules that a configuration makes and the errors that it leaves are together as many as its
  -- options records.
  pub new_event_evaluator-length :
      (options : List RuleOptions)
      → length (new_event_evaluator_from_config fl lib options).0
          + length (new_event_evaluator_from_config fl lib options).1
        ≡ length options
  unfolding new_event_evaluator_from_config
  new_event_evaluator-length [] = refl
  new_event_evaluator-length (o ∷ os) = ground (arith, new_event_evaluator-length os)
