-- ===== src/Envoy/Server.antt =====
-- Run, Stop and Done of pkg/envoy_access_log_server/access_log_server.go with the handlers of
-- StreamAccessLogs: a step relation. The gRPC server is a parameter: GracefulStop refuses new streams
-- and waits for the handlers; Stop does not wait for them; Serve fails only on its own before either.
-- Stop of the access log server is called by the manager, and by the goroutine of Serve when that
-- fails, each of them once at most.
pub mod Laws
use slo_exporter.Prelude.{
  ℕ, ◌+◌, ◌≡◌, Bool, true, false, not, ◌||◌, Option, none, some, List, [], ◌∷◌, ◌++◌, total_of,
}

-- The goroutine of a stream: in Recv, with log entries of a message to send the events of, and behind its return.
pub data Handler (N : Type 0) : Type 0 where
  receiving : Handler N
  sending : List N → Handler N
  returned : Handler N

-- The goroutine that a call of Stop starts: before the call, in the select, behind it (with whether
-- GracefulStop came to its end before the timer), behind the server's Stop, behind the closing of the
-- channel, and behind the setting of `done`.
pub data Stopper : Type 0 where
  absent : Stopper
  draining : Stopper
  drained : Bool → Stopper
  cut : Bool → Stopper
  closed : Bool → Stopper
  ended : Bool → Stopper

-- Who calls Stop.
pub data Caller : Type 0 where
  manager : Caller
  serve : Caller

-- `accepting` is whether the gRPC server takes new streams, and `sent` what the next module has
-- received.
pub record Server (N E : Type 0) : Type 0 where
  pub by_manager : Stopper
  pub by_serve : Stopper
  pub handlers : List (Handler N)
  pub accepting : Bool
  pub sent : List E
  pub panicked : Bool

abbrev pub stopper : {N E : Type 0} → Caller → Server N E → Stopper
stopper manager s = s.by_manager
stopper serve s = s.by_serve

abbrev pub set_stopper : {N E : Type 0} → Caller → Stopper → Server N E → Server N E
set_stopper manager p s = record s { by_manager = p }
set_stopper serve p s = record s { by_serve = p }

abbrev pub has_closed : Stopper → Bool
has_closed absent = false
has_closed draining = false
has_closed (drained b) = false
has_closed (cut b) = false
has_closed (closed b) = true
has_closed (ended b) = true

abbrev pub has_ended : Stopper → Bool
has_ended absent = false
has_ended draining = false
has_ended (drained b) = false
has_ended (cut b) = false
has_ended (closed b) = false
has_ended (ended b) = true

-- Whether the output channel is open.
abbrev pub is_open : {N E : Type 0} → Server N E → Bool
is_open s = not (has_closed s.by_manager || has_closed s.by_serve)

-- Done
abbrev pub is_done : {N E : Type 0} → Server N E → Bool
is_done s = has_ended s.by_manager || has_ended s.by_serve

-- A handler that has not returned, as a number.
abbrev pub weight : {N : Type 0} → Handler N → ℕ
weight receiving = 1
weight (sending es) = 1
weight returned = 0

unfoldable pub started : {N E : Type 0} → Server N E
started = record {
  by_manager = absent;
  by_serve = absent;
  handlers = [];
  accepting = true;
  sent = [];
  panicked = false;
}

-- What one handler does: where it stands before and after, what the next module receives, and whether
-- it panics. Recv may end or fail at any time. `emit` makes the event of a log entry, and is `none`
-- where emitEvents panics: at an entry without its properties.
pub data Move (N E : Type 0) (emit : N → Option E) (is_channel_open : Bool)
    : Handler N → Handler N → List E → Bool → Type 0 where
  receive : (ns : List N) → Move N E emit is_channel_open receiving (sending ns) [] false
  send :
      {n : N} {e : E} {ns : List N}
      → emit n ≡ some e
      → is_channel_open ≡ true
      → Move N E emit is_channel_open (sending (n ∷ ns)) (sending ns) (e ∷ []) false
  send_closed :
      {n : N} {e : E} {ns : List N}
      → emit n ≡ some e
      → is_channel_open ≡ false
      → Move N E emit is_channel_open (sending (n ∷ ns)) (sending (n ∷ ns)) [] true
  incomplete :
      {n : N} {ns : List N}
      → emit n ≡ none
      → Move N E emit is_channel_open (sending (n ∷ ns)) (sending (n ∷ ns)) [] true
  sent_all : Move N E emit is_channel_open (sending []) receiving [] false
  return : Move N E emit is_channel_open receiving returned [] false

-- One step of a program that has not panicked.
pub data Step (N E : Type 0) (emit : N → Option E) : Server N E → Server N E → Type 0 where
  connect :
      (s : Server N E)
      → s.panicked ≡ false
      → s.accepting ≡ true
      → Step N E emit s (record s { handlers = s.handlers ++ receiving ∷ [] })
  handle :
      (s : Server N E) (before after : List (Handler N)) {p q : Handler N} {out : List E}
      {bad : Bool}
      → s.panicked ≡ false
      → s.handlers ≡ before ++ p ∷ after
      → Move N E emit (is_open s) p q out bad
      → Step N E emit s
          (record s { handlers = before ++ q ∷ after; sent = s.sent ++ out; panicked = bad })
  stop :
      (s : Server N E)
      → s.panicked ≡ false
      → s.by_manager ≡ absent
      → Step N E emit s (record s { by_manager = draining })
  serve_fails :
      (s : Server N E)
      → s.panicked ≡ false
      → s.by_serve ≡ absent
      → s.accepting ≡ true
      → Step N E emit s (record s { by_serve = draining })
  -- GracefulStop
  refuse :
      (s : Server N E) (c : Caller)
      → s.panicked ≡ false
      → stopper c s ≡ draining
      → Step N E emit s (record s { accepting = false })
  drain :
      (s : Server N E) (c : Caller)
      → s.panicked ≡ false
      → stopper c s ≡ draining
      → s.accepting ≡ false
      → total_of weight s.handlers ≡ 0
      → Step N E emit s (set_stopper c (drained true) s)
  -- the timer, or the end of GracefulStop by the server's Stop in the other goroutine
  time_out :
      (s : Server N E) (c : Caller)
      → s.panicked ≡ false
      → stopper c s ≡ draining
      → Step N E emit s (set_stopper c (drained false) s)
  server_stop :
      (s : Server N E) (c : Caller) (b : Bool)
      → s.panicked ≡ false
      → stopper c s ≡ drained b
      → Step N E emit s (set_stopper c (cut b) (record s { accepting = false }))
  close :
      (s : Server N E) (c : Caller) (b : Bool)
      → s.panicked ≡ false
      → stopper c s ≡ cut b
      → is_open s ≡ true
      → Step N E emit s (set_stopper c (closed b) s)
  close_closed :
      (s : Server N E) (c : Caller) (b : Bool)
      → s.panicked ≡ false
      → stopper c s ≡ cut b
      → is_open s ≡ false
      → Step N E emit s (record s { panicked = true })
  set_done :
      (s : Server N E) (c : Caller) (b : Bool)
      → s.panicked ≡ false
      → stopper c s ≡ closed b
      → Step N E emit s (set_stopper c (ended b) s)
