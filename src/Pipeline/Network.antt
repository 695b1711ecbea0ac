-- ===== src/Pipeline/Network.antt =====
-- The modules of a running pipeline as goroutines (the Run loops that pkg/pipeline/manager.go starts),
-- and StopPipeline's wait for them. A channel is unbuffered: a send and the receive that it meets are
-- one step, and the receiver has processed the event before it receives another. What happens between
-- a receive and the next send or receive touches the module's own state only, and is part of the
-- receive. An event is of any type, and a module's state too.
pub mod Laws
pub mod Progress
pub mod Shutdown
use slo_exporter.Prelude.{
  ℕ, zero, suc, ◌+◌, ◌≡◌, Bool, true, false, Option, none, some, List, [], ◌∷◌, ◌++◌, length,
  if◌then◌else◌,
}

-- How far the end of a Run loop is: in the loop, the output channel closed, and `done` set.
pub data Phase : Type 0 where
  looping : Phase
  closed : Phase
  finished : Phase

-- The steps of a loop's end that are left.
abbrev pub phase_steps : Phase → ℕ
phase_steps looping = 2
phase_steps closed = 1
phase_steps finished = 0

-- The modules in the order of the pipeline. A stage has its state, what one pass of its loop does to
-- the state and sends, its phase, and what it has still to send before it receives again; the list
-- behind the last stage is what was sent to the channel of the last module. The first stage receives
-- nothing: what it has to send is all that it reads until it ends.
pub data Network (E : Type 0) : Type 1 where
  sink : List E → Network E
  stage : {S : Type 0} → (S → E → S × List E) → S → Phase → List E → Network E → Network E

abbrev pub is_finished : Phase → Bool
is_finished looping = false
is_finished closed = false
is_finished finished = true

-- Whether `range` over the output channel ends once the channel is empty.
abbrev pub is_closed : Phase → Bool
is_closed looping = false
is_closed closed = true
is_closed finished = true

-- One step of one goroutine, or of two that meet at a channel. The flag is whether the input of the
-- outermost stage has ended: for the first module, that it was stopped or that its source is at an end.
pub data Step (E : Type 0) : Bool → Network E → Network E → Type 1 where
  send :
      {b : Bool} {S T : Type 0} {f : S → E → S × List E} {g : T → E → T × List E} {s : S} {t : T}
      {e : E} {es : List E} {rest : Network E}
      → Step E b
          (stage f s looping (e ∷ es) (stage g t looping [] rest))
          (stage f s looping es (stage g (g t e).0 looping (g t e).1 rest))
  send_last :
      {b : Bool} {S : Type 0} {f : S → E → S × List E} {s : S} {e : E} {es out : List E}
      → Step E b
          (stage f s looping (e ∷ es) (sink out))
          (stage f s looping es (sink (out ++ e ∷ [])))
  close :
      {S : Type 0} {f : S → E → S × List E} {s : S} {rest : Network E}
      → Step E true (stage f s looping [] rest) (stage f s closed [] rest)
  set_done :
      {b : Bool} {S : Type 0} {f : S → E → S × List E} {s : S} {es : List E} {rest : Network E}
      → Step E b (stage f s closed es rest) (stage f s finished es rest)
  later :
      {b : Bool} {S : Type 0} {f : S → E → S × List E} {s : S} {p : Phase} {es : List E}
      {n m : Network E}
      → Step E (is_closed p) n m
      → Step E b (stage f s p es n) (stage f s p es m)

-- Some number of steps, one after another, in any order that the scheduler takes.
pub data Steps (E : Type 0) (b : Bool) : ℕ → Network E → Network E → Type 1 where
  here : {n : Network E} → Steps E b 0 n n
  then : {k : ℕ} {n m l : Network E} → Step E b n m → Steps E b k m l → Steps E b (suc k) n l

module _ {E : Type 0} where
  -- (*Manager).Done
  unfoldable pub all_done : Network E → Bool
  all_done (sink out) = true
  all_done (stage f s p es rest) =
      let others = all_done rest in if is_finished p then others else false

  -- The events that a loop sends for the events that it receives, and its state behind them.
  unfoldable pub loop : {S : Type 0} → (S → E → S × List E) → S → List E → S × List E
  loop f s [] = (s, [])
  loop f s (e ∷ es) =
      let next = f s e in let others = loop f next.0 es in (others.0, next.1 ++ others.1)

  -- The modules run one after another: each reads all that the one before it sends, and then ends.
  unfoldable pub drain : List E → Network E → Network E
  drain input (sink out) = sink (out ++ input)
  drain input (stage f s p es rest) =
      let behind = loop f s input in stage f behind.0 finished [] (drain (es ++ behind.1) rest)

  -- The steps that a network has left when its input brings these events.
  unfoldable pub remaining : List E → Network E → ℕ
  remaining input (sink out) = length input
  remaining input (stage f s p es rest) =
      length input + phase_steps p + remaining (es ++ (loop f s input).1) rest

-- What one pass of StopPipeline's loop sees: whether the context has expired, and what Done returns.
pub record Poll : Type 0 where
  pub expired : Bool
  pub done : Bool

-- The loop of StopPipeline: whether it closed the channel that it returned, or returned without; `none`
-- as long as it runs.
unfoldable pub wait_stopped : List Poll → Option Bool
wait_stopped [] = none
wait_stopped (poll ∷ polls) =
    let others = wait_stopped polls in
    if poll.expired then some false else if poll.done then some true else others
