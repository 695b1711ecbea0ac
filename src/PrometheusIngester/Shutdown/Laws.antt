-- ===== src/PrometheusIngester/Shutdown/Laws.antt =====
-- The output channel of the ingester is closed behind the last executor.
use slo_exporter.Prelude.{
  ℕ, ℤ, pos, gt_ℤ, ◌+◌, ◌-◌, ◌≡◌, refl, ap, Bool, true, false, List, [], ◌∷◌, ◌++◌, length,
  length-append, total_of, total_of-append, All, All-append, All-left, All-right, arith,
  if◌then◌else◌,
}
use slo_exporter.Prelude.Relations.{Reach, Reach-keeps}
use slo_exporter.PrometheusIngester.Shutdown.{
  Executing, created, selecting, sending, returned, Runner, starting, waiting, closed, ended,
  Ingester, is_open, started, Move, make_ticker, no_ticker, tick, send, send_closed, sent_all,
  finish, Step, stop, start, cancel, close, set_done, move,
}

-- Whether an executor has not called wg.Done yet, as a number.
abbrev pub weight : {E : Type 0} → Executing E → ℕ
weight (created i) = 1
weight selecting = 1
weight (sending es) = 1
weight returned = 0

-- How many executors have not called wg.Done.
abbrev pub active : {E : Type 0} → List (Executing E) → ℕ
active = total_of weight

-- The intervals of the executors that are still to be started.
abbrev pub unstarted : Runner → List ℤ
unstarted (starting is) = is
unstarted waiting = []
unstarted closed = []
unstarted ended = []

abbrev pub IsPositive : ℤ → Type 0
IsPositive i = gt_ℤ i (pos 0) ≡ true

-- An executor whose ticker is not made yet has a positive interval.
abbrev pub HasInterval : {E : Type 0} → Executing E → Type 0
HasInterval (created i) = IsPositive i
HasInterval selecting = Unit
HasInterval (sending es) = Unit
HasInterval returned = Unit

pub record IsSound {E : Type 0} (n : ℕ) (s : Ingester E) : Type 0 where
  pub calm : s.panicked ≡ false
  pub counted : s.wait_group ≡ active s.executors
  pub all_started : length s.executors + length (unstarted s.runner) ≡ n
  pub none_left : is_open s.runner ≡ false → active s.executors ≡ 0
  pub to_start : All IsPositive (unstarted s.runner)
  pub to_tick : All HasInterval s.executors

module _ {E : Type 0} where
  Move-weight :
      {r : Runner} {p q : Executing E} {out : List E} {left bad : Bool}
      → Move E r p q out left bad
      → weight p ≡ weight q + (if left then 1 else 0)
  Move-weight (make_ticker ticks) = omega arith
  Move-weight (no_ticker fails) = omega arith
  Move-weight (tick es) = omega arith
  Move-weight (send ready) = omega arith
  Move-weight (send_closed shut) = omega arith
  Move-weight sent_all = omega arith
  Move-weight (finish over) = omega arith

  -- With an interval, and no executor active behind the closing of the channel, nothing panics.
  Move-calm :
      {r : Runner} {p q : Executing E} {out : List E} {left bad : Bool}
      → Move E r p q out left bad
      → HasInterval p
      → (is_open r ≡ false → weight p ≡ 0)
      → bad ≡ false
  Move-calm (make_ticker ticks) h none_left = refl
  Move-calm (no_ticker fails) h none_left = absurd (cc (h, fails))
  Move-calm (tick es) h none_left = refl
  Move-calm (send ready) h none_left = refl
  Move-calm (send_closed shut) h none_left = absurd (omega (arith, none_left shut))
  Move-calm sent_all h none_left = refl
  Move-calm (finish over) h none_left = refl

  Move-interval :
      {r : Runner} {p q : Executing E} {out : List E} {left bad : Bool}
      → Move E r p q out left bad
      → HasInterval p
      → HasInterval q
  Move-interval (make_ticker ticks) h = tt
  Move-interval (no_ticker fails) h = h
  Move-interval (tick es) h = tt
  Move-interval (send ready) h = tt
  Move-interval (send_closed shut) h = tt
  Move-interval sent_all h = tt
  Move-interval (finish over) h = tt

  Move-IsSound :
      {n : ℕ} (s : Ingester E) (before after : List (Executing E)) {p q : Executing E}
      {out : List E} {left bad : Bool}
      → s.executors ≡ before ++ p ∷ after
      → Move E s.runner p q out left bad
      → IsSound n s
      → IsSound n (record s {
        executors = before ++ q ∷ after;
        wait_group = if left then s.wait_group - 1 else s.wait_group;
        sent = s.sent ++ out;
        panicked = bad;
      })
  Move-IsSound {n} s before after {p} {q} {out} {left} {bad} at m v =
      let had : All HasInterval (before ++ p ∷ after) = rw at at v.to_tick in
      let split : active s.executors ≡ active before + (weight p + active after) =
        rw at (total_of-append weight before (p ∷ after)) in
      let split' = total_of-append weight before (q ∷ after) in
      let same = Move-weight m in
      record {
        calm =
            Move-calm m (All-right HasInterval before (p ∷ after) had).0
              (λ shut. omega (arith, v.none_left shut));
        counted = ground (arith, v.counted);
        all_started = omega (
          arith,
          v.all_started,
          ap length at,
          length-append before (p ∷ after),
          length-append before (q ∷ after),
        );
        none_left = λ shut. omega (arith, v.none_left shut);
        to_start = v.to_start;
        to_tick =
            All-append HasInterval before (q ∷ after) (All-left HasInterval before (p ∷ after) had)
              (
                Move-interval m (All-right HasInterval before (p ∷ after) had).0,
                (All-right HasInterval before (p ∷ after) had).1,
              );
      }

  Step-IsSound : {n : ℕ} (s t : Ingester E) → Step E s t → IsSound n s → IsSound n t
  Step-IsSound s t (stop _ calm unasked) v = record {
    calm = v.calm;
    counted = v.counted;
    all_started = v.all_started;
    none_left = v.none_left;
    to_start = v.to_start;
    to_tick = v.to_tick;
  }
  Step-IsSound s t (start _ i is calm at) v =
      let left : All IsPositive (i ∷ is) = rw at at v.to_start in
      record {
        calm = v.calm;
        counted = omega (arith, v.counted, total_of-append weight s.executors (created i ∷ []));
        all_started = omega (
          arith,
          v.all_started,
          ap (λ (r : Runner). length (unstarted r)) at,
          length-append s.executors (created i ∷ []),
        );
        none_left = λ shut. cc;
        to_start = left.1;
        to_tick = All-append HasInterval s.executors (created i ∷ []) v.to_tick (left.0, tt);
      }
  Step-IsSound s t (cancel _ calm at asked) v = record {
    calm = v.calm;
    counted = v.counted;
    all_started = omega (arith, v.all_started, ap (λ (r : Runner). length (unstarted r)) at);
    none_left = λ shut. cc;
    to_start = tt;
    to_tick = v.to_tick;
  }
  Step-IsSound s t (close _ calm at zero_left) v = record {
    calm = v.calm;
    counted = v.counted;
    all_started = omega (arith, v.all_started, ap (λ (r : Runner). length (unstarted r)) at);
    none_left = λ shut. omega (arith, v.counted);
    to_start = tt;
    to_tick = v.to_tick;
  }
  Step-IsSound s t (set_done _ calm at) v = record {
    calm = v.calm;
    counted = v.counted;
    all_started = omega (arith, v.all_started, ap (λ (r : Runner). length (unstarted r)) at);
    none_left = λ shut. v.none_left (rw at);
    to_start = tt;
    to_tick = v.to_tick;
  }
  Step-IsSound s t (move _ before after calm at m) v = Move-IsSound s before after at m v

  started-IsSound :
      (intervals : List ℤ)
      → All IsPositive intervals
      → IsSound (length intervals) (started {E = E} intervals)
  unfolding started
  started-IsSound intervals h = record {
    calm = refl;
    counted = refl;
    all_started = omega arith;
    none_left = λ shut. refl;
    to_start = h;
    to_tick = tt;
  }

  pub Reach-IsSound :
      (intervals : List ℤ) {s : Ingester E}
      → All IsPositive intervals
      → Reach (Step E) (started intervals) s
      → IsSound (length intervals) s
  Reach-IsSound intervals h r =
      Reach-keeps (IsSound (length intervals)) Step-IsSound (started-IsSound intervals h) r

  -- Where every query has a positive interval: in every state that Run reaches nothing has
  -- panicked, so no executor sends on the closed output channel; the wait group counts the executors
  -- that have not returned; and when the channel is closed, an executor was started for each query
  -- and all of them have returned, so none holds an event.
  pub run-safe :
      (intervals : List ℤ) (s : Ingester E)
      → All IsPositive intervals
      → Reach (Step E) (started intervals) s
      → (s.panicked ≡ false)
        × (s.wait_group ≡ active s.executors)
        × (is_open s.runner ≡ false
            → (length s.executors ≡ length intervals) × (active s.executors ≡ 0))
  run-safe intervals s h r =
      let v = Reach-IsSound intervals h r in
      (
        v.calm,
        v.counted,
        λ shut. (omega (arith, v.all_started, unstarted_closed s.runner shut), v.none_left shut),
      )
    where
      unstarted_closed : (r : Runner) → is_open r ≡ false → length (unstarted r) ≡ 0
      unstarted_closed (starting is) h = cc
      unstarted_closed waiting h = refl
      unstarted_closed closed h = refl
      unstarted_closed ended h = refl
