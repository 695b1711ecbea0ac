-- ===== src/KafkaIngester/Shutdown.antt =====
-- The two goroutines of Run in pkg/kafka_ingester/kafka_ingester.go: the one that reads and sends, and
-- the one that waits for the shutdown and closes the output channel. An event that the reading
-- goroutine has made is held until the next module receives it.
use slo_exporter.Prelude.{◌≡◌, refl, Bool, true, false, List, [], ◌∷◌, ◌++◌, arith}
use slo_exporter.Prelude.Relations.{Reach, here, next}

pub data Reader (E : Type 0) : Type 0 where
  reading : Reader E
  holding : E → Reader E
  returned : Reader E

-- The goroutine of the shutdown: before the signal, behind cancel and Close, behind the closing of the
-- channel, and behind setting `done`.
pub data Watcher : Type 0 where
  waiting : Watcher
  cancelled : Watcher
  closed : Watcher
  ended : Watcher

pub record Ingester (E : Type 0) : Type 0 where
  pub reader : Reader E
  pub watcher : Watcher
  pub sent : List E
  pub panicked : Bool

-- KafkaIngester's `done`
abbrev pub is_done : {E : Type 0} → Ingester E → Bool
is_done i = elim i.watcher [ waiting ↦ false | cancelled ↦ false | closed ↦ false | ended ↦ true ]

-- Whether the output channel is open.
abbrev pub is_open : Watcher → Bool
is_open waiting = true
is_open cancelled = true
is_open closed = false
is_open ended = false

unfoldable pub started : {E : Type 0} → Ingester E
started = record { reader = reading; watcher = waiting; sent = []; panicked = false }

-- One step of one of the goroutines of a program that has not panicked. ReadMessage may return a
-- message that it has fetched whatever the other goroutine does.
pub data Step (E : Type 0) : Ingester E → Ingester E → Type 0 where
  read :
      {w : Watcher} {out : List E} (e : E)
      → Step E
          (record { reader = reading; watcher = w; sent = out; panicked = false })
          (record { reader = holding e; watcher = w; sent = out; panicked = false })
  read_end :
      {w : Watcher} {out : List E}
      → Step E
          (record { reader = reading; watcher = w; sent = out; panicked = false })
          (record { reader = returned; watcher = w; sent = out; panicked = false })
  send :
      {w : Watcher} {out : List E} {e : E}
      → is_open w ≡ true
      → Step E
          (record { reader = holding e; watcher = w; sent = out; panicked = false })
          (record { reader = reading; watcher = w; sent = out ++ e ∷ []; panicked = false })
  -- a send on the closed channel
  send_closed :
      {w : Watcher} {out : List E} {e : E}
      → is_open w ≡ false
      → Step E
          (record { reader = holding e; watcher = w; sent = out; panicked = false })
          (record { reader = holding e; watcher = w; sent = out; panicked = true })
  stop :
      {r : Reader E} {out : List E}
      → Step E
          (record { reader = r; watcher = waiting; sent = out; panicked = false })
          (record { reader = r; watcher = cancelled; sent = out; panicked = false })
  close :
      {r : Reader E} {out : List E}
      → Step E
          (record { reader = r; watcher = cancelled; sent = out; panicked = false })
          (record { reader = r; watcher = closed; sent = out; panicked = false })
  set_done :
      {r : Reader E} {out : List E}
      → Step E
          (record { reader = r; watcher = closed; sent = out; panicked = false })
          (record { reader = r; watcher = ended; sent = out; panicked = false })

module _ {E : Type 0} where
  panicked-closed :
      {s : Ingester E} → Reach (Step E) started s → s.panicked ≡ true → is_open s.watcher ≡ false
  unfolding started
  panicked-closed here p = absurd (ground arith)
  panicked-closed (next before (read e)) p = absurd (ground arith)
  panicked-closed (next before read_end) p = absurd (ground arith)
  panicked-closed (next before (send ready)) p = absurd (ground arith)
  panicked-closed (next before (send_closed shut)) p = shut
  panicked-closed (next before stop) p = absurd (ground arith)
  panicked-closed (next before close) p = absurd (ground arith)
  panicked-closed (next before set_done) p = absurd (ground arith)

  holding-panics :
      (s : Ingester E) (e : E)
      → s.reader ≡ holding e
      → s.watcher ≡ waiting
      → s.panicked ≡ false
      → (t : Ingester E) × Reach (Step E) s t × (t.panicked ≡ true) × (t.sent ≡ s.sent)
  holding-panics s e held calm running =
      let start : Ingester E = record {
        reader = holding e;
        watcher = waiting;
        sent = s.sent;
        panicked = false;
      } in
      let same : s ≡ start = ground arith in
      rw same (_, next (next (next here stop) close) (send_closed refl), refl, refl)

  -- In every state that Run reaches: if it has panicked, the shutdown has closed the output channel.
  -- And the shutdown can make it panic: where it has not been signalled and an event is held that
  -- the next module has not received, some run ends in a panic and the event is never sent.
  pub shutdown-panics :
      (s : Ingester E) (e : E)
      → Reach (Step E) started s
      → (s.panicked ≡ true → is_open s.watcher ≡ false)
        × (s.reader ≡ holding e
            → s.watcher ≡ waiting
            → s.panicked ≡ false
            → (t : Ingester E) × Reach (Step E) s t × (t.panicked ≡ true) × (t.sent ≡ s.sent))
  shutdown-panics s e reached = (panicked-closed reached, holding-panics s e)
