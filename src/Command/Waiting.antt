-- ===== src/Command/Waiting.antt =====
-- The loop of main in cmd/slo_exporter.go: a step relation. A channel of the loop is the number of
-- what it holds: requests of a graceful shutdown and signals, of which it takes ten and three, and
-- errors of the HTTP server, of which there is one at most. select takes any case that is ready.
pub mod Laws
pub mod Stopping
use slo_exporter.Prelude.{
  ℕ, zero, suc, ◌+◌, ◌<◌, ◌≡◌, Bool, true, false, Option, none, some, List, [], ◌∷◌, ◌++◌,
}
use slo_exporter.Prober.{Prober, set_ok, not_ok}
use slo_exporter.Pipeline.Network.{Poll, wait_stopped}

-- The buffers of make(chan ...) for the requests and for the signals.
abbrev pub request_limit : ℕ
request_limit = 10

abbrev pub signal_limit : ℕ
signal_limit = 3

-- Where main stands: in its select, in the send of a request from one of the cases, behind the receive
-- of a request, at `<-StopPipeline` (with the passes of its goroutine), at the delay with the HTTP
-- server's shutdown, and returned.
pub data Place : Type 0 where
  selecting : Place
  asking : Place
  stopping : Place
  waiting : List Poll → Place
  delaying : List Poll → Place
  returned : List Poll → Place

-- `stops` is how often main has called StopPipeline.
pub record Main (L : Type 0) : Type 0 where
  pub place : Place
  pub requests : ℕ
  pub signals : ℕ
  pub errors : ℕ
  pub readiness : Prober L
  pub stops : ℕ

unfoldable pub waiting_main : {L : Type 0} → Prober L → Main L
waiting_main readiness = record {
  place = selecting;
  requests = 0;
  signals = 0;
  errors = 0;
  readiness = readiness;
  stops = 0;
}

-- One step of main, or of what it listens to: the operating system, which drops a signal where the
-- channel is full, and the HTTP server. `shutting_down` is the error that NotOk is given.
pub data Step (L : Type 0) (shutting_down : L) : Main L → Main L → Type 0 where
  signal :
      (m : Main L)
      → m.signals < signal_limit
      → Step L shutting_down m (record m { signals = m.signals + 1 })
  serving_failed : (m : Main L) → m.errors ≡ 0 → Step L shutting_down m (record m { errors = 1 })
  take_signal :
      (m : Main L) (n : ℕ)
      → m.place ≡ selecting
      → m.signals ≡ suc n
      → Step L shutting_down m (record m { place = asking; signals = n })
  take_error :
      (m : Main L) (n : ℕ)
      → m.place ≡ selecting
      → m.errors ≡ suc n
      → Step L shutting_down m (record m { place = asking; errors = n })
  -- a tick of the check, with what Done answers
  check_done :
      (m : Main L) → m.place ≡ selecting → Step L shutting_down m (record m { place = asking })
  check_running : (m : Main L) → m.place ≡ selecting → Step L shutting_down m m
  ask :
      (m : Main L)
      → m.place ≡ asking
      → m.requests < request_limit
      → Step L shutting_down m (record m { place = selecting; requests = m.requests + 1 })
  take_request :
      (m : Main L) (n : ℕ)
      → m.place ≡ selecting
      → m.requests ≡ suc n
      → Step L shutting_down m (record m {
        place = stopping;
        requests = n;
        readiness = not_ok m.readiness (some shutting_down);
      })
  stop_pipeline :
      (m : Main L)
      → m.place ≡ stopping
      → Step L shutting_down m (record m { place = waiting []; stops = m.stops + 1 })
  -- a pass of the goroutine of StopPipeline
  poll :
      (m : Main L) (polls : List Poll) (p : Poll)
      → m.place ≡ waiting polls
      → Step L shutting_down m (record m { place = waiting (polls ++ p ∷ []) })
  -- the receive from the channel that the goroutine has closed
  stopped :
      (m : Main L) (polls : List Poll)
      → m.place ≡ waiting polls
      → wait_stopped polls ≡ some true
      → Step L shutting_down m (record m { place = delaying polls })
  return :
      (m : Main L) (polls : List Poll)
      → m.place ≡ delaying polls
      → Step L shutting_down m (record m { place = returned polls })
