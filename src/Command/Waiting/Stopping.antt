-- ===== src/Command/Waiting/Stopping.antt =====
-- How the wait of main for StopPipeline ends.
use mathlib.Core.List.{append-nil, append_assoc}
use slo_exporter.Prelude.{◌≡◌, refl, Bool, true, false, some, List, [], ◌∷◌, ◌++◌, ◌∙◌, All, arith}
use slo_exporter.Prelude.Relations.{Reach, here, next, Reach-one, Reach-keeps}
use slo_exporter.Pipeline.Network.{Poll, wait_stopped}
use slo_exporter.Pipeline.Network.Shutdown.{IsWaiting, wait_stopped-IsWaiting}
use slo_exporter.Command.Waiting.{
  waiting, delaying, returned, Main, Step, signal, serving_failed, take_signal, take_error,
  check_done, check_running, ask, take_request, stop_pipeline, poll, stopped, return,
}

-- What comes after the end of the goroutine changes nothing.
wait_stopped-append :
    (polls more : List Poll) (b : Bool)
    → wait_stopped polls ≡ some b
    → wait_stopped (polls ++ more) ≡ some b
unfolding wait_stopped
wait_stopped-append [] more b e = cc
wait_stopped-append (p ∷ polls) more b e = ground (arith, wait_stopped-append polls more b)

module _ {L : Type 0} (shutting_down : L) where
  abbrev WaitsFrom : List Poll → Main L → Type 0
  WaitsFrom polls m = (more : List Poll) × (m.place ≡ waiting (polls ++ more))

  Step-WaitsFrom :
      (polls : List Poll)
      → wait_stopped polls ≡ some false
      → (m t : Main L) → Step L shutting_down m t
      → WaitsFrom polls m
      → WaitsFrom polls t
  Step-WaitsFrom polls e m t (signal _ room) w = w
  Step-WaitsFrom polls e m t (serving_failed _ first) w = w
  Step-WaitsFrom polls e m t (take_signal _ n at some_left) (more, w) = absurd (ground arith)
  Step-WaitsFrom polls e m t (take_error _ n at some_left) (more, w) = absurd (ground arith)
  Step-WaitsFrom polls e m t (check_done _ at) (more, w) = absurd (ground arith)
  Step-WaitsFrom polls e m t (check_running _ at) w = w
  Step-WaitsFrom polls e m t (ask _ at room) (more, w) = absurd (ground arith)
  Step-WaitsFrom polls e m t (take_request _ n at some_left) (more, w) = absurd (ground arith)
  Step-WaitsFrom polls e m t (stop_pipeline _ at) (more, w) = absurd (ground arith)
  Step-WaitsFrom polls e m t (poll _ seen p at) (more, w) =
      (more ++ p ∷ [], ground (arith, append_assoc polls more (p ∷ [])))
  Step-WaitsFrom polls e m t (stopped _ seen at done) (more, w) =
      absurd (ground (arith, wait_stopped-append polls more false e))
  Step-WaitsFrom polls e m t (return _ seen at) (more, w) = absurd (ground arith)

  -- Main is in the wait, or behind it.
  data Leaves (polls : List Poll) (m : Main L) : Type 0 where
    waits : (more : List Poll) → m.place ≡ waiting (polls ++ more) → Leaves polls m
    delays : (more : List Poll) → m.place ≡ delaying (polls ++ more) → Leaves polls m
    left : (more : List Poll) → m.place ≡ returned (polls ++ more) → Leaves polls m

  Step-Leaves :
      (polls : List Poll) (m t : Main L)
      → Step L shutting_down m t
      → Leaves polls m
      → Leaves polls t
  Step-Leaves polls m t (signal _ room) (waits more w) = waits more w
  Step-Leaves polls m t (signal _ room) (delays more w) = delays more w
  Step-Leaves polls m t (signal _ room) (left more w) = left more w
  Step-Leaves polls m t (serving_failed _ first) (waits more w) = waits more w
  Step-Leaves polls m t (serving_failed _ first) (delays more w) = delays more w
  Step-Leaves polls m t (serving_failed _ first) (left more w) = left more w
  Step-Leaves polls m t (take_signal _ n at some_left) (waits more w) = absurd (ground arith)
  Step-Leaves polls m t (take_signal _ n at some_left) (delays more w) = absurd (ground arith)
  Step-Leaves polls m t (take_signal _ n at some_left) (left more w) = absurd (ground arith)
  Step-Leaves polls m t (take_error _ n at some_left) (waits more w) = absurd (ground arith)
  Step-Leaves polls m t (take_error _ n at some_left) (delays more w) = absurd (ground arith)
  Step-Leaves polls m t (take_error _ n at some_left) (left more w) = absurd (ground arith)
  Step-Leaves polls m t (check_done _ at) (waits more w) = absurd (ground arith)
  Step-Leaves polls m t (check_done _ at) (delays more w) = absurd (ground arith)
  Step-Leaves polls m t (check_done _ at) (left more w) = absurd (ground arith)
  Step-Leaves polls m t (check_running _ at) (waits more w) = waits more w
  Step-Leaves polls m t (check_running _ at) (delays more w) = delays more w
  Step-Leaves polls m t (check_running _ at) (left more w) = left more w
  Step-Leaves polls m t (ask _ at room) (waits more w) = absurd (ground arith)
  Step-Leaves polls m t (ask _ at room) (delays more w) = absurd (ground arith)
  Step-Leaves polls m t (ask _ at room) (left more w) = absurd (ground arith)
  Step-Leaves polls m t (take_request _ n at some_left) (waits more w) = absurd (ground arith)
  Step-Leaves polls m t (take_request _ n at some_left) (delays more w) = absurd (ground arith)
  Step-Leaves polls m t (take_request _ n at some_left) (left more w) = absurd (ground arith)
  Step-Leaves polls m t (stop_pipeline _ at) (waits more w) = absurd (ground arith)
  Step-Leaves polls m t (stop_pipeline _ at) (delays more w) = absurd (ground arith)
  Step-Leaves polls m t (stop_pipeline _ at) (left more w) = absurd (ground arith)
  Step-Leaves polls m t (poll _ seen p at) (waits more w) =
      waits (more ++ p ∷ []) (ground (arith, append_assoc polls more (p ∷ [])))
  Step-Leaves polls m t (poll _ seen p at) (delays more w) = absurd (ground arith)
  Step-Leaves polls m t (poll _ seen p at) (left more w) = absurd (ground arith)
  Step-Leaves polls m t (stopped _ seen at done) (waits more w) = delays more (ground arith)
  Step-Leaves polls m t (stopped _ seen at done) (delays more w) = absurd (ground arith)
  Step-Leaves polls m t (stopped _ seen at done) (left more w) = absurd (ground arith)
  Step-Leaves polls m t (return _ seen at) (waits more w) = absurd (ground arith)
  Step-Leaves polls m t (return _ seen at) (delays more w) = left more (ground arith)
  Step-Leaves polls m t (return _ seen at) (left more w) = absurd (ground arith)

  Returns : List Poll → Main L → Type 0
  Returns polls m =
      (u : Main L) × (more : List Poll) × Reach (Step L shutting_down) m u
      × (u.place ≡ returned (polls ++ more))

  Leaves-Returns :
      (polls : List Poll) (m : Main L)
      → wait_stopped polls ≡ some true
      → Leaves polls m
      → Returns polls m
  unfolding Returns
  Leaves-Returns polls m e (left more w) = (m, more, here, w)
  Leaves-Returns polls m e (delays more w) = (_, more, Reach-one (return m (polls ++ more) w), refl)
  Leaves-Returns polls m e (waits more w) =
      let done = stopped m (polls ++ more) w (wait_stopped-append polls more true e) in
      (_, more, next (Reach-one done) (return _ (polls ++ more) refl), refl)

  -- Where main waits for StopPipeline, and each pass that its goroutine has made so far saw the context
  -- not expired and some module not done, up to one pass: if that one sees the modules done and the
  -- context not expired, then from every state that main reaches later some run of main returns;
  -- if it sees the context expired, main waits for ever, whatever the goroutine sees in that pass and would see later.
  pub waiting-returns :
      (m : Main L) (early late : List Poll) (pass : Poll)
      → All IsWaiting early
      → m.place ≡ waiting (early ++ pass ∷ late)
      → (pass.expired ≡ false
          → pass.done ≡ true
          → (t : Main L) → Reach (Step L shutting_down) m t
          → (u : Main L) × (more : List Poll) × Reach (Step L shutting_down) t u
            × (u.place ≡ returned ((early ++ pass ∷ late) ++ more)))
        × (pass.expired ≡ true
            → (t : Main L) → Reach (Step L shutting_down) m t
            → (more : List Poll) × (t.place ≡ waiting ((early ++ pass ∷ late) ++ more)))
  unfolding wait_stopped Returns
  waiting-returns m early late pass quiet at =
      let polls = early ++ pass ∷ late in
      let here_at : m.place ≡ waiting (polls ++ []) = rw (append-nil polls) at in
      let from_pass = wait_stopped-IsWaiting early (pass ∷ late) quiet in
      (
        (λ alive done t r.
            Leaves-Returns polls t (from_pass ∙ ground arith)
              (Reach-keeps (Leaves polls) (Step-Leaves polls) (waits [] here_at) r)),
        (λ expired t r.
            Reach-keeps (WaitsFrom polls) (Step-WaitsFrom polls (from_pass ∙ ground arith))
              ([], here_at) r),
      )
