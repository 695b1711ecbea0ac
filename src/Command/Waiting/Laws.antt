-- ===== src/Command/Waiting/Laws.antt =====
-- How the loop of main comes to its end.
use native.Mathlib.Decide.{dec_lt}
use slo_exporter.Prelude.{ℕ, suc, ◌+◌, ◌-◌, ◌≤◌, ◌<◌, ◌≡◌, refl, Bool, true, false, some, arith}
use slo_exporter.Prelude.Relations.{Reach, Reach-trans, Reach-one, Reach-keeps}
use slo_exporter.Prober.{Prober, handle_func, is_ok, not_ok, set_status}
use slo_exporter.Pipeline.Network.{wait_stopped}
use slo_exporter.Command.Waiting.{
  request_limit, signal_limit, Place, selecting, asking, stopping, waiting, delaying, returned,
  Main, waiting_main, Step, signal, serving_failed, take_signal, take_error, check_done,
  check_running, ask, take_request, stop_pipeline, poll, stopped, return,
}

-- Whether main has not taken a request yet.
abbrev pub is_serving : Place → Bool
is_serving selecting = true
is_serving asking = true
is_serving stopping = false
is_serving (waiting polls) = false
is_serving (delaying polls) = false
is_serving (returned polls) = false

-- How often StopPipeline was called by then.
abbrev pub stops_at : Place → ℕ
stops_at selecting = 0
stops_at asking = 0
stops_at stopping = 0
stops_at (waiting polls) = 1
stops_at (delaying polls) = 1
stops_at (returned polls) = 1

-- Behind `<-StopPipeline`, its goroutine has seen all modules done before the context expired.
abbrev pub HasStopped : Place → Type 0
HasStopped selecting = Unit
HasStopped asking = Unit
HasStopped stopping = Unit
HasStopped (waiting polls) = Unit
HasStopped (delaying polls) = wait_stopped polls ≡ some true
HasStopped (returned polls) = wait_stopped polls ≡ some true

module _ {L : Type 0} (shutting_down : L) where
  pub record IsSound (m : Main L) : Type 0 where
    pub requests_fit : m.requests ≤ request_limit
    pub signals_fit : m.signals ≤ signal_limit
    pub errors_fit : m.errors ≤ 1
    pub answers :
        (handle_func m.readiness).code ≡ elim (is_serving m.place) [ true ↦ 200 | false ↦ 503 ]
    pub stopped_once : m.stops ≡ stops_at m.place
    pub has_stopped : HasStopped m.place

  Step-IsSound : (m t : Main L) → Step L shutting_down m t → IsSound m → IsSound t
  unfolding handle_func not_ok set_status is_ok
  Step-IsSound m t (signal _ room) v = ground arith
  Step-IsSound m t (serving_failed _ first) v = ground arith
  Step-IsSound m t (take_signal _ n at some_left) v = ground arith
  Step-IsSound m t (take_error _ n at some_left) v = ground arith
  Step-IsSound m t (check_done _ at) v = ground arith
  Step-IsSound m t (check_running _ at) v = v
  Step-IsSound m t (ask _ at room) v = ground arith
  Step-IsSound m t (take_request _ n at some_left) v = ground arith
  Step-IsSound m t (stop_pipeline _ at) v = ground arith
  Step-IsSound m t (poll _ polls p at) v = ground arith
  Step-IsSound m t (stopped _ polls at done) v = ground arith
  Step-IsSound m t (return _ polls at) v = ground arith

  -- In every state of the loop of main, where the readiness probe answered 200 at its beginning: its
  -- channels hold what fits them; the readiness probe answers 200 until main takes a request of a
  -- shutdown, and 503 from then on; StopPipeline is called once and only then; and main gets past it
  -- only when its goroutine has seen all modules done before the context expired.
  pub main-bounds :
      (r : Prober L) (m : Main L)
      → (handle_func r).code ≡ 200
      → Reach (Step L shutting_down) (waiting_main r) m
      → (m.requests ≤ request_limit)
        × (m.signals ≤ signal_limit)
        × (m.errors ≤ 1)
        × ((handle_func m.readiness).code ≡ elim (is_serving m.place) [ true ↦ 200 | false ↦ 503 ])
        × (m.stops ≡ stops_at m.place)
        × HasStopped m.place
  unfolding waiting_main
  main-bounds r m ready reached =
      let start : IsSound (waiting_main r) = record {
        requests_fit = omega arith;
        signals_fit = omega arith;
        errors_fit = omega arith;
        answers = ready;
        stopped_once = refl;
        has_stopped = tt;
      } in
      let v = Reach-keeps IsSound Step-IsSound start reached in
      (v.requests_fit, v.signals_fit, v.errors_fit, v.answers, v.stopped_once, v.has_stopped)

  -- A run that takes a request.
  abbrev Stops : Main L → Type 0
  Stops m =
      (t : Main L) × Reach (Step L shutting_down) m t
      × (t.place ≡ stopping)
      × ((handle_func t.readiness).code ≡ 503)

  Stops-after : {m n : Main L} → Step L shutting_down m n → Stops n → Stops m
  Stops-after st (t, r, at, code) = (t, Reach-trans (Reach-one st) r, at, code)

  requested-Stops : (m : Main L) → m.place ≡ selecting → 0 < m.requests → Stops m
  unfolding handle_func not_ok set_status is_ok
  requested-Stops m at some_left =
      let one : m.requests ≡ suc (m.requests - 1) = omega arith in
      (_, Reach-one (take_request m (m.requests - 1) at one), refl, refl)

  asking-Stops : (m : Main L) → m.place ≡ asking → m.requests < request_limit → Stops m
  asking-Stops m at room = Stops-after (ask m at room) (requested-Stops _ refl (omega arith))

  from_select : (m : Main L) → m.place ≡ selecting → 0 < m.requests + m.signals + m.errors → Stops m
  from_select m at some_left = elim (dec_lt 0 m.requests) [
    | yes p ↦ requested-Stops m at p
    | no p ↦ elim (dec_lt 0 m.signals) [
      | yes q ↦
          let one : m.signals ≡ suc (m.signals - 1) = omega arith in
          Stops-after (take_signal m (m.signals - 1) at one) (asking-Stops _ refl (omega arith))
      | no q ↦
          let one : m.errors ≡ suc (m.errors - 1) = omega arith in
          Stops-after (take_error m (m.errors - 1) at one) (asking-Stops _ refl (omega arith))
    ]
  ]

  -- A full channel of requests that main itself sends to.
  abbrev IsStuck : Main L → Type 0
  IsStuck m = (m.place ≡ asking) × (m.requests ≡ request_limit)

  Step-IsStuck : (m t : Main L) → Step L shutting_down m t → IsStuck m → IsStuck t
  Step-IsStuck m t (signal _ room) v = v
  Step-IsStuck m t (serving_failed _ first) v = v
  Step-IsStuck m t (take_signal _ n at some_left) v = absurd (ground arith)
  Step-IsStuck m t (take_error _ n at some_left) v = absurd (ground arith)
  Step-IsStuck m t (check_done _ at) v = absurd (ground arith)
  Step-IsStuck m t (check_running _ at) v = v
  Step-IsStuck m t (ask _ at room) v = absurd (ground arith)
  Step-IsStuck m t (take_request _ n at some_left) v = absurd (ground arith)
  Step-IsStuck m t (stop_pipeline _ at) v = absurd (ground arith)
  Step-IsStuck m t (poll _ polls p at) v = absurd (ground arith)
  Step-IsStuck m t (stopped _ polls at done) v = absurd (ground arith)
  Step-IsStuck m t (return _ polls at) v = absurd (ground arith)

  -- Where main waits in its select, and a request, a signal or an error of the server is there, or
  -- where it sends a request that fits the channel: some run takes a request, and the readiness probe
  -- answers 503 then. Where a request does not fit, main stays in that send for ever.
  pub asked-Stops :
      (m : Main L)
      → (m.place ≡ selecting → 0 < m.requests + m.signals + m.errors → Stops m)
        × (m.place ≡ asking → m.requests < request_limit → Stops m)
        × (m.place ≡ asking
            → m.requests ≡ request_limit
            → (t : Main L) → Reach (Step L shutting_down) m t
            → t.place ≡ asking)
  asked-Stops m = (
    from_select m,
    asking-Stops m,
    (λ at full t r. (Reach-keeps IsStuck Step-IsStuck (at, full) r).0),
  )
