-- ===== src/Tests/Servers.antt =====
-- The goroutines of the Prometheus ingester and of the access log server at concrete runs.
use slo_exporter.Prelude.{
  ℕ, suc, ℤ, pos, Option, some, ◌≡◌, refl, true, false, List, [], ◌∷◌, ◌++◌, length, total_of, All,
}
use slo_exporter.Prelude.Relations.{Reach, here, next}
use slo_exporter.PrometheusIngester.Shutdown as Ingester
use slo_exporter.PrometheusIngester.Shutdown.{start, move, make_ticker, tick}
use slo_exporter.PrometheusIngester.Shutdown.Laws.{IsPositive, active, run-safe}
use slo_exporter.PrometheusIngester.Shutdown.End.{run-ends}
use slo_exporter.Envoy.Server as Access
use slo_exporter.Envoy.Server.{
  receiving, sending, draining, absent, connect, handle, receive, stop, weight, is_open,
}
use slo_exporter.Envoy.Server.Laws.{stop-safe, stop-panics}

abbrev intervals : List ℤ
intervals = pos 5 ∷ pos 7 ∷ []

-- The first executor holds an event, and the other is not started yet.
abbrev ingesting : Ingester.Ingester ℕ
ingesting = record {
  runner = Ingester.starting (pos 7 ∷ []);
  executors = Ingester.sending (1 ∷ []) ∷ [];
  wait_group = 1;
  shutdown = false;
  sent = [];
  panicked = false;
}

positive : All IsPositive intervals
positive = (refl, (refl, tt))

ingested : Reach (Ingester.Step ℕ) (Ingester.started intervals) ingesting
unfolding Ingester.started
ingested =
    next
      (next (next here (start (Ingester.started intervals) (pos 5) (pos 7 ∷ []) refl refl))
        (move _ [] [] refl refl (make_ticker refl)))
      (move _ [] [] refl refl (tick (1 ∷ [])))

run-safe_example :
    (ingesting.panicked ≡ false)
    × (ingesting.wait_group ≡ active ingesting.executors)
    × (Ingester.is_open ingesting.runner ≡ false
        → (length ingesting.executors ≡ length intervals) × (active ingesting.executors ≡ 0))
run-safe_example = run-safe intervals ingesting positive ingested

run-ends_example :
    (t : Ingester.Ingester ℕ) × Reach (Ingester.Step ℕ) ingesting t
    × (Ingester.is_done t.runner ≡ true)
run-ends_example = run-ends intervals ingesting positive ingested

abbrev emitted : ℕ → Option ℕ
emitted n = some (suc n)

-- A handler holds an entry, and the manager has called Stop.
abbrev serving : Access.Server ℕ ℕ
serving = record {
  by_manager = draining;
  by_serve = absent;
  handlers = sending (1 ∷ []) ∷ [];
  accepting = true;
  sent = [];
  panicked = false;
}

served : Reach (Access.Step ℕ ℕ emitted) Access.started serving
unfolding Access.started
served =
    next
      (next (next here (connect Access.started refl refl))
        (handle _ [] [] refl refl (receive (1 ∷ []))))
      (stop _ refl refl)

stop-safe_example :
    (serving.panicked ≡ false) × (is_open serving ≡ false → total_of weight serving.handlers ≡ 0)
stop-safe_example = stop-safe emitted serving (λ n. refl) served refl

stop-panics_example :
    (serving.by_serve ≡ absent
      → serving.handlers ≡ [] ++ sending (1 ∷ []) ∷ []
      → (t : Access.Server ℕ ℕ) × Reach (Access.Step ℕ ℕ emitted) serving t
        × (t.panicked ≡ true)
        × (t.sent ≡ serving.sent))
    × (serving.by_serve ≡ draining
        → (t : Access.Server ℕ ℕ) × Reach (Access.Step ℕ ℕ emitted) serving t × (t.panicked ≡ true))
stop-panics_example = stop-panics emitted serving 1 2 [] [] [] refl refl refl
