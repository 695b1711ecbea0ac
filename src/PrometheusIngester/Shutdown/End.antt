-- ===== src/PrometheusIngester/Shutdown/End.antt =====
-- The ingester can always come to its end, and what a query without a positive interval does.
use mathlib.Core.List.{append_assoc}
use slo_exporter.Prelude.{
  ℤ, pos, gt_ℤ, ◌≡◌, refl, sym, ap, ◌∙◌, true, false, List, [], ◌∷◌, ◌++◌, All, arith, Bool-cases,
  inl, inr,
}
use slo_exporter.Prelude.Relations.{Reach, here, next, Reach-trans, Reach-one}
use slo_exporter.PrometheusIngester.Shutdown.{
  Executing, created, selecting, sending, returned, Runner, starting, waiting, closed, ended,
  Ingester, is_done, started, make_ticker, no_ticker, send, sent_all, finish, Step, stop, start,
  cancel, close, set_done, move,
}
use slo_exporter.PrometheusIngester.Shutdown.Laws.{HasInterval, IsPositive, active, Reach-IsSound}

module _ {E : Type 0} where
  -- A run of executors after the context is cancelled, which leaves these.
  record Cleared (s : Ingester E) (left : List (Executing E)) : Type 0 where
    state : Ingester E
    run : Reach (Step E) s state
    calm : state.panicked ≡ false
    at_wait : state.runner ≡ waiting
    executors_at : state.executors ≡ left

  after :
      {s t : Ingester E} {left : List (Executing E)}
      → Reach (Step E) s t
      → Cleared t left
      → Cleared s left
  after r c = record {
    state = c.state;
    run = Reach-trans r c.run;
    calm = c.calm;
    at_wait = c.at_wait;
    executors_at = c.executors_at;
  }

  module _ (before others : List (Executing E)) where
    clear_selecting :
        (s : Ingester E)
        → s.panicked ≡ false
        → s.runner ≡ waiting
        → s.executors ≡ before ++ selecting ∷ others
        → Cleared s (before ++ returned ∷ others)
    clear_selecting s calm wait at = record {
      state = _;
      run = Reach-one (move s before others calm at (finish (rw wait refl)));
      calm = refl;
      at_wait = wait;
      executors_at = refl;
    }

    clear_sending :
        (es : List E) (s : Ingester E)
        → s.panicked ≡ false
        → s.runner ≡ waiting
        → s.executors ≡ before ++ sending es ∷ others
        → Cleared s (before ++ returned ∷ others)
    clear_sending [] s calm wait at =
        after (Reach-one (move s before others calm at sent_all)) (clear_selecting _ refl wait refl)
    clear_sending (e ∷ es) s calm wait at =
        after (Reach-one (move s before others calm at (send (rw wait refl))))
          (clear_sending es _ refl wait refl)

    clear :
        (p : Executing E) (s : Ingester E)
        → s.panicked ≡ false
        → s.runner ≡ waiting
        → s.executors ≡ before ++ p ∷ others
        → HasInterval p
        → Cleared s (before ++ returned ∷ others)
    clear (created i) s calm wait at h =
        after (Reach-one (move s before others calm at (make_ticker h)))
          (clear_selecting _ refl wait refl)
    clear selecting s calm wait at h = clear_selecting s calm wait at
    clear (sending es) s calm wait at h = clear_sending es s calm wait at
    clear returned s calm wait at h = record {
      state = s;
      run = here;
      calm = calm;
      at_wait = wait;
      executors_at = at;
    }

  all_returned : List (Executing E) → List (Executing E)
  all_returned [] = []
  all_returned (p ∷ ps) = returned ∷ all_returned ps

  active-all_returned : (ps : List (Executing E)) → active (all_returned ps) ≡ 0
  unfolding all_returned
  active-all_returned [] = refl
  active-all_returned (p ∷ ps) = omega (arith, active-all_returned ps)

  clear_all :
      (before ps : List (Executing E)) (s : Ingester E)
      → s.panicked ≡ false
      → s.runner ≡ waiting
      → s.executors ≡ before ++ ps
      → All HasInterval ps
      → Cleared s (before ++ all_returned ps)
  unfolding all_returned
  clear_all before [] s calm wait at h = record {
    state = s;
    run = here;
    calm = calm;
    at_wait = wait;
    executors_at = at;
  }
  clear_all before (p ∷ ps) s calm wait at h =
      let c = clear before ps p s calm wait at h.0 in
      let d =
        clear_all (before ++ returned ∷ []) ps c.state c.calm c.at_wait
          (c.executors_at ∙ sym (append_assoc before (returned ∷ []) ps)) h.1 in
      record {
        state = d.state;
        run = Reach-trans c.run d.run;
        calm = d.calm;
        at_wait = d.at_wait;
        executors_at = d.executors_at ∙ append_assoc before (returned ∷ []) (all_returned ps);
      }

  -- A run that ends.
  abbrev Ends : Ingester E → Type 0
  Ends s = (t : Ingester E) × Reach (Step E) s t × (is_done t.runner ≡ true)

  Ends-after : {s t : Ingester E} → Reach (Step E) s t → Ends t → Ends s
  Ends-after r (u, q, done) = (u, Reach-trans r q, done)

  from_closed : (s : Ingester E) → s.panicked ≡ false → s.runner ≡ closed → Ends s
  from_closed s calm at = (_, Reach-one (set_done s calm at), refl)

  module _ (intervals : List ℤ) (h : All IsPositive intervals) where
    from_waiting :
        (s : Ingester E) → Reach (Step E) (started intervals) s → s.runner ≡ waiting → Ends s
    from_waiting s r at =
        let v = Reach-IsSound intervals h r in
        let c = clear_all [] s.executors s v.calm at refl v.to_tick in
        let w = Reach-IsSound intervals h (Reach-trans r c.run) in
        let idle : c.state.wait_group ≡ 0 =
          w.counted ∙ ap active c.executors_at ∙ active-all_returned s.executors in
        Ends-after (next c.run (close c.state c.calm c.at_wait idle)) (from_closed _ c.calm refl)

    from_started :
        (s : Ingester E) → Reach (Step E) (started intervals) s → s.runner ≡ starting [] → Ends s
    from_started s r at =
        let calm = (Reach-IsSound intervals h r).calm in
        elim (Bool-cases s.shutdown) [
          | inl asked ↦
              let st = cancel s calm at asked in
              Ends-after (Reach-one st) (from_waiting _ (next r st) refl)
          | inr unasked ↦
              let st = stop s calm unasked in
              let st' = cancel _ calm at refl in
              Ends-after (next (Reach-one st) st') (from_waiting _ (next (next r st) st') refl)
        ]

    from_starting :
        (is : List ℤ) (s : Ingester E)
        → Reach (Step E) (started intervals) s
        → s.runner ≡ starting is
        → Ends s
    from_starting [] s r at = from_started s r at
    from_starting (i ∷ is) s r at =
        let st = start s i is (Reach-IsSound intervals h r).calm at in
        Ends-after (Reach-one st) (from_starting is _ (next r st) refl)

    from_runner :
        (q : Runner) (s : Ingester E) → Reach (Step E) (started intervals) s → s.runner ≡ q → Ends s
    from_runner (starting is) s r at = from_starting is s r at
    from_runner waiting s r at = from_waiting s r at
    from_runner closed s r at = from_closed s (Reach-IsSound intervals h r).calm at
    from_runner ended s r at = (s, here, rw at refl)

  -- Where every query has a positive interval: from every state that Run reaches, some run ends
  -- with the ingester done.
  pub run-ends :
      (intervals : List ℤ) (s : Ingester E)
      → All IsPositive intervals
      → Reach (Step E) (started intervals) s
      → (t : Ingester E) × Reach (Step E) s t × (is_done t.runner ≡ true)
  run-ends intervals s h r = from_runner intervals h s.runner s r refl

  start_all :
      (is js : List ℤ) (s : Ingester E)
      → s.panicked ≡ false
      → s.runner ≡ starting (is ++ js)
      → (t : Ingester E) × Reach (Step E) s t × (t.panicked ≡ false) × (t.runner ≡ starting js)
  start_all [] js s calm at = (s, here, calm, at)
  start_all (i ∷ is) js s calm at =
      let (t, r, still, there) = start_all is js _ calm refl in
      (t, Reach-trans (Reach-one (start s i (is ++ js) calm at)) r, still, there)

  -- Where a query has an interval that is not above 0, some run panics.
  pub no_interval-panics :
      (is js : List ℤ) (i : ℤ)
      → gt_ℤ i (pos 0) ≡ false
      → (t : Ingester E) × Reach (Step E) (started (is ++ i ∷ js)) t × (t.panicked ≡ true)
  unfolding started
  no_interval-panics is js i h =
      let (t, r, calm, at) = start_all is (i ∷ js) (started (is ++ i ∷ js)) refl refl in
      (
        _,
        next (next r (start t i js calm at)) (move _ t.executors [] calm refl (no_ticker h)),
        refl,
      )
