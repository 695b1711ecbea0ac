-- ===== src/Envoy/Server/Laws.antt =====
-- When the access log server ends without a panic, and when it cannot.
use mathlib.Core.List.{append-nil}
use slo_exporter.Prelude.{
  ◌<◌, ◌≡◌, refl, ap, Bool, true, false, not, ◌&&◌, ◌||◌, Option, some, is_some, List, ◌∷◌, ◌++◌,
  total_of, total_of-append, arith,
}
use slo_exporter.Prelude.Relations.{Reach, here, next, Reach-keeps}
use slo_exporter.Envoy.Server.{
  Handler, sending, Stopper, absent, draining, drained, cut, closed, ended, manager, serve, Server,
  has_closed, is_open, weight, started, Move, receive, send, send_closed, incomplete, sent_all,
  return, Step, connect, handle, stop, serve_fails, refuse, drain, time_out, server_stop, close,
  close_closed, set_done,
}

abbrev pub is_present : Stopper → Bool
is_present absent = false
is_present draining = true
is_present (drained b) = true
is_present (cut b) = true
is_present (closed b) = true
is_present (ended b) = true

-- Whether the timer ended the wait for the handlers.
abbrev pub is_late : Stopper → Bool
is_late absent = false
is_late draining = false
is_late (drained b) = not b
is_late (cut b) = not b
is_late (closed b) = not b
is_late (ended b) = not b

-- Whether the handlers had all returned when the select ended.
abbrev is_drained : Stopper → Bool
is_drained absent = false
is_drained draining = false
is_drained (drained b) = b
is_drained (cut b) = b
is_drained (closed b) = b
is_drained (ended b) = b

-- Whether Stop was called twice, or the timer ended a wait.
abbrev pub is_at_risk : {N E : Type 0} → Server N E → Bool
is_at_risk s =
    is_late s.by_manager || is_late s.by_serve || is_present s.by_manager && is_present s.by_serve

record IsSound {N E : Type 0} (s : Server N E) : Type 0 where
  drained_manager :
      is_drained s.by_manager ≡ true → (s.accepting ≡ false) × (total_of weight s.handlers ≡ 0)
  drained_serve :
      is_drained s.by_serve ≡ true → (s.accepting ≡ false) × (total_of weight s.handlers ≡ 0)
  calm : is_at_risk s ≡ false → s.panicked ≡ false

closed-drained : (p : Stopper) → has_closed p ≡ true → is_late p ≡ false → is_drained p ≡ true
closed-drained absent h k = cc
closed-drained draining h k = cc
closed-drained (drained b) h k = cc
closed-drained (cut b) h k = cc
closed-drained (closed true) h k = refl
closed-drained (closed false) h k = cc
closed-drained (ended true) h k = refl
closed-drained (ended false) h k = cc

drained-present : (p : Stopper) → has_closed p ≡ true → is_present p ≡ true
drained-present absent h = cc
drained-present draining h = cc
drained-present (drained b) h = cc
drained-present (cut b) h = refl
drained-present (closed b) h = refl
drained-present (ended b) h = refl

module _ {N E : Type 0} (emit : N → Option E) where
  -- A handler that moves has not returned.
  Move-weight :
      {b : Bool} {p q : Handler N} {out : List E} {bad : Bool}
      → Move N E emit b p q out bad
      → weight p ≡ 1
  Move-weight (receive es) = refl
  Move-weight (send made ready) = refl
  Move-weight (send_closed made shut) = refl
  Move-weight (incomplete lacks) = refl
  Move-weight sent_all = refl
  Move-weight return = refl

  Move-calm :
      {b : Bool} {p q : Handler N} {out : List E} {bad : Bool}
      → Move N E emit b p q out bad
      → ((n : N) → is_some (emit n) ≡ true)
      → b ≡ true
      → bad ≡ false
  Move-calm (receive es) complete h = refl
  Move-calm (send made ready) complete h = refl
  Move-calm (send_closed made shut) complete h = cc
  Move-calm (incomplete {n} lacks) complete h = absurd (ground (arith, complete n))
  Move-calm sent_all complete h = refl
  Move-calm return complete h = refl

  -- While a handler has not returned and no wait was cut short, the channel is open.
  open_while_busy :
      (s : Server N E)
      → IsSound s
      → is_at_risk s ≡ false
      → 0 < total_of weight s.handlers
      → is_open s ≡ true
  open_while_busy s v safe busy = ground (
    arith,
    v.drained_manager,
    v.drained_serve,
    closed-drained s.by_manager,
    closed-drained s.by_serve,
  )

  handle-IsSound :
      (s : Server N E) (before after : List (Handler N)) {p q : Handler N} {out : List E}
      {bad : Bool}
      → s.handlers ≡ before ++ p ∷ after
      → Move N E emit (is_open s) p q out bad
      → ((n : N) → is_some (emit n) ≡ true)
      → IsSound s
      → IsSound (record s { handlers = before ++ q ∷ after; sent = s.sent ++ out; panicked = bad })
  handle-IsSound s before after {p} at m complete v =
      let busy : 0 < total_of weight s.handlers = omega (
        arith,
        ap (total_of weight) at,
        total_of-append weight before (p ∷ after),
        Move-weight m,
      ) in
      record {
        drained_manager = λ h. absurd (omega (arith, (v.drained_manager h).1));
        drained_serve = λ h. absurd (omega (arith, (v.drained_serve h).1));
        calm = λ safe. Move-calm m complete (open_while_busy s v safe busy);
      }

  Step-IsSound :
      ((n : N) → is_some (emit n) ≡ true)
      → (s t : Server N E) → Step N E emit s t
      → IsSound s
      → IsSound t
  Step-IsSound complete s t (connect _ calm taken) v = record {
    drained_manager = λ h. let refused = (v.drained_manager h).0 in cc;
    drained_serve = λ h. let refused = (v.drained_serve h).0 in cc;
    calm = v.calm;
  }
  Step-IsSound complete s t (handle _ before after calm at m) v =
      handle-IsSound s before after at m complete v
  Step-IsSound complete s t (stop _ calm at) v = ground (arith, v.drained_manager, v.drained_serve)
  Step-IsSound complete s t (serve_fails _ calm at taken) v =
      ground (arith, v.drained_manager, v.drained_serve)
  Step-IsSound complete s t (refuse _ c calm at) v =
      ground (arith, v.drained_manager, v.drained_serve)
  Step-IsSound complete s t (drain _ manager calm at refused idle) v =
      ground (arith, v.drained_serve)
  Step-IsSound complete s t (drain _ serve calm at refused idle) v =
      ground (arith, v.drained_manager)
  Step-IsSound complete s t (time_out _ manager calm at) v = ground (arith, v.drained_serve)
  Step-IsSound complete s t (time_out _ serve calm at) v = ground (arith, v.drained_manager)
  Step-IsSound complete s t (server_stop _ manager b calm at) v =
      ground (arith, v.drained_manager, v.drained_serve)
  Step-IsSound complete s t (server_stop _ serve b calm at) v =
      ground (arith, v.drained_manager, v.drained_serve)
  Step-IsSound complete s t (close _ manager b calm at open_still) v =
      ground (arith, v.drained_manager, v.drained_serve)
  Step-IsSound complete s t (close _ serve b calm at open_still) v =
      ground (arith, v.drained_manager, v.drained_serve)
  Step-IsSound complete s t (close_closed _ manager b calm at shut) v =
      ground (arith, v.drained_manager, v.drained_serve, drained-present s.by_serve)
  Step-IsSound complete s t (close_closed _ serve b calm at shut) v =
      ground (arith, v.drained_manager, v.drained_serve, drained-present s.by_manager)
  Step-IsSound complete s t (set_done _ manager b calm at) v =
      ground (arith, v.drained_manager, v.drained_serve)
  Step-IsSound complete s t (set_done _ serve b calm at) v =
      ground (arith, v.drained_manager, v.drained_serve)

  Reach-IsSound :
      {s : Server N E}
      → ((n : N) → is_some (emit n) ≡ true)
      → Reach (Step N E emit) started s
      → IsSound s
  unfolding started
  Reach-IsSound complete r =
      Reach-keeps IsSound (Step-IsSound complete)
        (record { drained_manager = λ h. cc; drained_serve = λ h. cc; calm = λ h. refl }) r

  late_send-panics :
      (s : Server N E) (n : N) (e : E) (before after : List (Handler N)) (ns : List N)
      → emit n ≡ some e
      → s.panicked ≡ false
      → s.by_manager ≡ draining
      → s.by_serve ≡ absent
      → s.handlers ≡ before ++ sending (n ∷ ns) ∷ after
      → (t : Server N E) × Reach (Step N E emit) s t × (t.panicked ≡ true) × (t.sent ≡ s.sent)
  late_send-panics s n e before after ns made calm at none_else held =
      let late = next here (time_out s manager calm at) in
      let stopped = next late (server_stop _ manager false calm refl) in
      let shut = next stopped (close _ manager false calm refl (rw none_else refl)) in
      (_, next shut (handle _ before after calm held (send_closed made refl)), refl, append-nil _)

  stop_twice-panics :
      (s : Server N E)
      → s.panicked ≡ false
      → s.by_manager ≡ draining
      → s.by_serve ≡ draining
      → (t : Server N E) × Reach (Step N E emit) s t × (t.panicked ≡ true)
  stop_twice-panics s calm at at' =
      let late = next here (time_out s manager calm at) in
      let stopped = next late (server_stop _ manager false calm refl) in
      let shut = next stopped (close _ manager false calm refl (rw at' refl)) in
      let late' = next shut (time_out _ serve calm at') in
      let stopped' = next late' (server_stop _ serve false calm refl) in
      (_, next stopped' (close_closed _ serve false calm refl refl), refl)

  -- Where no log entry lacks the properties that its event is made of, in every state that the server
  -- reaches: where Stop was not called twice and the timer did not end the wait of one for the
  -- handlers, nothing has panicked, and when the output channel is closed all
  -- handlers have returned.
  pub stop-safe :
      (s : Server N E)
      → ((n : N) → is_some (emit n) ≡ true)
      → Reach (Step N E emit) started s
      → is_at_risk s ≡ false
      → (s.panicked ≡ false) × (is_open s ≡ false → total_of weight s.handlers ≡ 0)
  stop-safe s complete r safe =
      let v = Reach-IsSound complete r in
      (
        v.calm safe,
        λ shut. ground (
          arith,
          v.drained_manager,
          v.drained_serve,
          closed-drained s.by_manager,
          closed-drained s.by_serve,
        ),
      )

  -- In a state without a panic: where the manager's Stop waits, the other was not called, and a
  -- handler has an entry to send the event of, some run ends in a panic and the next module receives nothing more.
  -- Where both calls of Stop wait, some run ends in a panic.
  pub stop-panics :
      (s : Server N E) (n : N) (e : E) (before after : List (Handler N)) (ns : List N)
      → emit n ≡ some e
      → s.panicked ≡ false
      → s.by_manager ≡ draining
      → (s.by_serve ≡ absent
          → s.handlers ≡ before ++ sending (n ∷ ns) ∷ after
          → (t : Server N E) × Reach (Step N E emit) s t × (t.panicked ≡ true) × (t.sent ≡ s.sent))
        × (s.by_serve ≡ draining
            → (t : Server N E) × Reach (Step N E emit) s t × (t.panicked ≡ true))
  stop-panics s n e before after ns made calm at =
      (late_send-panics s n e before after ns made calm at, stop_twice-panics s calm at)
