-- ===== src/Tests/Shutdown.antt =====
-- The loop of main at concrete states.
use slo_exporter.Prelude.{
  String, ◌+◌, ◌≤◌, ◌<◌, ◌≡◌, refl, true, false, none, some, List, [], ◌∷◌, ◌++◌, arith,
}
use slo_exporter.Prelude.Relations.{Reach, here, next}
use slo_exporter.Prober.{Prober, handle_func}
use slo_exporter.Pipeline.Network.{Poll}
use slo_exporter.Command.Waiting.{
  request_limit, signal_limit, selecting, asking, stopping, waiting, returned, Main, waiting_main,
  Step, signal, take_signal, ask,
}
use slo_exporter.Command.Waiting.Laws.{is_serving, stops_at, HasStopped, main-bounds, asked-Stops}
use slo_exporter.Command.Waiting.Stopping.{waiting-returns}

abbrev ready : Prober String
ready = record { status = none; gauge = some 1 }

-- One request is there.
abbrev requested : Main String
requested = record {
  place = selecting;
  requests = 1;
  signals = 0;
  errors = 0;
  readiness = ready;
  stops = 0;
}

signalled : Reach (Step String "shutting down") (waiting_main ready) requested
unfolding waiting_main
signalled =
    next (next (next here (signal (waiting_main ready) (omega arith))) (take_signal _ 0 refl refl))
      (ask _ refl (omega arith))

ready-code : (handle_func ready).code ≡ 200
unfolding handle_func slo_exporter.Prober.is_ok
ready-code = refl

main-bounds_example :
    (requested.requests ≤ request_limit)
    × (requested.signals ≤ signal_limit)
    × (requested.errors ≤ 1)
    × ((handle_func requested.readiness).code
        ≡ elim (is_serving requested.place) [ true ↦ 200 | false ↦ 503 ])
    × (requested.stops ≡ stops_at requested.place)
    × HasStopped requested.place
main-bounds_example = main-bounds "shutting down" ready requested ready-code signalled

abbrev Stops : Main String → Type 0
Stops m =
    (t : Main String) × Reach (Step String "shutting down") m t
    × (t.place ≡ stopping)
    × ((handle_func t.readiness).code ≡ 503)

asked-Stops_example :
    (requested.place ≡ selecting
      → 0 < requested.requests + requested.signals + requested.errors
      → Stops requested)
    × (requested.place ≡ asking → requested.requests < request_limit → Stops requested)
    × (requested.place ≡ asking
        → requested.requests ≡ request_limit
        → (t : Main String) → Reach (Step String "shutting down") requested t
        → t.place ≡ asking)
asked-Stops_example = asked-Stops "shutting down" requested

-- A pass that sees neither, and one that sees the modules done and the context expired.
abbrev quiet : Poll
quiet = record { expired = false; done = false }

abbrev too_late : Poll
too_late = record { expired = true; done = true }

abbrev waited : Main String
waited = record requested { place = waiting (quiet ∷ too_late ∷ []); stops = 1 }

waiting-returns_example :
    (true ≡ false
      → true ≡ true
      → (t : Main String) → Reach (Step String "shutting down") waited t
      → (u : Main String) × (more : List Poll) × Reach (Step String "shutting down") t u
        × (u.place ≡ returned ((quiet ∷ too_late ∷ []) ++ more)))
    × (true ≡ true
        → (t : Main String) → Reach (Step String "shutting down") waited t
        → (more : List Poll) × (t.place ≡ waiting ((quiet ∷ too_late ∷ []) ++ more)))
waiting-returns_example =
    waiting-returns "shutting down" waited (quiet ∷ []) [] too_late ((refl, refl), tt) refl
