-- ===== src/PrometheusIngester/Shutdown.antt =====
-- Run, Stop and Done of pkg/prometheus_ingester/prometheus_ingester.go, with the goroutines of the
-- query executors: a step relation. What an executor sends after a tick is any list of events; it
-- holds them until the next module has received each of them. The streams of an answer of the API are
-- taken to have a first value, which ProcessResult reads without a test.
pub mod Laws
pub mod End
use slo_exporter.Prelude.{
  ℕ, ℤ, pos, gt_ℤ, ◌+◌, ◌-◌, ◌≡◌, Bool, true, false, List, [], ◌∷◌, ◌++◌, if◌then◌else◌,
}

-- The goroutine of an executor: before its ticker is made (with the interval), in the select, with
-- events to send, and after wg.Done.
pub data Executing (E : Type 0) : Type 0 where
  created : ℤ → Executing E
  selecting : Executing E
  sending : List E → Executing E
  returned : Executing E

-- The goroutine of Run: the intervals of the executors that are still to be started, before it waits
-- for the shutdown; behind the cancelling of the context; behind the closing of the channel; behind
-- the setting of `done`.
pub data Runner : Type 0 where
  starting : List ℤ → Runner
  waiting : Runner
  closed : Runner
  ended : Runner

-- `shutdown` is whether the shutdown channel is closed, and `sent` what the next module has received.
pub record Ingester (E : Type 0) : Type 0 where
  pub runner : Runner
  pub executors : List (Executing E)
  pub wait_group : ℕ
  pub shutdown : Bool
  pub sent : List E
  pub panicked : Bool

-- Whether the context of the queries is cancelled.
abbrev pub is_cancelled : Runner → Bool
is_cancelled (starting is) = false
is_cancelled waiting = true
is_cancelled closed = true
is_cancelled ended = true

-- Whether the output channel is open.
abbrev pub is_open : Runner → Bool
is_open (starting is) = true
is_open waiting = true
is_open closed = false
is_open ended = false

-- Done
abbrev pub is_done : Runner → Bool
is_done (starting is) = false
is_done waiting = false
is_done closed = false
is_done ended = true

unfoldable pub started : {E : Type 0} → List ℤ → Ingester E
started intervals = record {
  runner = starting intervals;
  executors = [];
  wait_group = 0;
  shutdown = false;
  sent = [];
  panicked = false;
}

-- What one executor does: where it stands before and after, what the next module receives, whether it
-- calls wg.Done, and whether it panics. time.NewTicker panics at an interval that is not above 0.
pub data Move (E : Type 0) (r : Runner)
    : Executing E → Executing E → List E → Bool → Bool → Type 0 where
  make_ticker : {i : ℤ} → gt_ℤ i (pos 0) ≡ true → Move E r (created i) selecting [] false false
  no_ticker : {i : ℤ} → gt_ℤ i (pos 0) ≡ false → Move E r (created i) (created i) [] false true
  tick : (es : List E) → Move E r selecting (sending es) [] false false
  send :
      {e : E} {es : List E}
      → is_open r ≡ true
      → Move E r (sending (e ∷ es)) (sending es) (e ∷ []) false false
  send_closed :
      {e : E} {es : List E}
      → is_open r ≡ false
      → Move E r (sending (e ∷ es)) (sending (e ∷ es)) [] false true
  sent_all : Move E r (sending []) selecting [] false false
  finish : is_cancelled r ≡ true → Move E r selecting returned [] true false

-- One step of a program that has not panicked: of the pipeline's manager, which stops the ingester
-- once, of the goroutine of Run, or of one executor.
pub data Step (E : Type 0) : Ingester E → Ingester E → Type 0 where
  stop :
      (s : Ingester E)
      → s.panicked ≡ false
      → s.shutdown ≡ false
      → Step E s (record s { shutdown = true })
  start :
      (s : Ingester E) (i : ℤ) (is : List ℤ)
      → s.panicked ≡ false
      → s.runner ≡ starting (i ∷ is)
      → Step E s (record s {
        runner = starting is;
        executors = s.executors ++ created i ∷ [];
        wait_group = s.wait_group + 1;
      })
  cancel :
      (s : Ingester E)
      → s.panicked ≡ false
      → s.runner ≡ starting []
      → s.shutdown ≡ true
      → Step E s (record s { runner = waiting })
  close :
      (s : Ingester E)
      → s.panicked ≡ false
      → s.runner ≡ waiting
      → s.wait_group ≡ 0
      → Step E s (record s { runner = closed })
  set_done :
      (s : Ingester E)
      → s.panicked ≡ false
      → s.runner ≡ closed
      → Step E s (record s { runner = ended })
  move :
      (s : Ingester E) (before after : List (Executing E)) {p q : Executing E} {out : List E}
      {left bad : Bool}
      → s.panicked ≡ false
      → s.executors ≡ before ++ p ∷ after
      → Move E s.runner p q out left bad
      → Step E s (record s {
        executors = before ++ q ∷ after;
        wait_group = if left then s.wait_group - 1 else s.wait_group;
        sent = s.sent ++ out;
        panicked = bad;
      })
