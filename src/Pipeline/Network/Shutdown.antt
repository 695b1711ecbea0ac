-- ===== src/Pipeline/Network/Shutdown.antt =====
-- StopPipeline's wait for the modules of the pipeline, and the context of the shutdown.
use slo_exporter.Prelude.{ℕ, ◌≡◌, refl, Bool, true, false, not, some, List, [], ◌∷◌, ◌++◌, ◌∙◌, All}
use slo_exporter.Pipeline.Network.{Network, Steps, all_done, remaining, Poll, wait_stopped}
use slo_exporter.Pipeline.Network.Progress.{IsOrdered, Steps-all_done}

-- A pass of the loop before the context expires and before the pipeline is done.
abbrev pub IsWaiting : Poll → Type 0
IsWaiting poll = (poll.expired ≡ false) × (poll.done ≡ false)

pub wait_stopped-IsWaiting :
    (early late : List Poll)
    → All IsWaiting early
    → wait_stopped (early ++ late) ≡ wait_stopped late
unfolding wait_stopped
wait_stopped-IsWaiting [] late h = refl
wait_stopped-IsWaiting (poll ∷ polls) late ((alive, running), h) =
    rw (alive, running) (wait_stopped-IsWaiting polls late h)

wait_stopped_done :
    (expired : Bool) (late : List Poll)
    → wait_stopped (record { expired = expired; done = true } ∷ late) ≡ some (not expired)
unfolding wait_stopped
wait_stopped_done true late = refl
wait_stopped_done false late = refl

module _ {E : Type 0} where
  -- Where the input of the first module has ended, and each module that has closed its channel has
  -- nothing left to send and an input that has ended: when the modules have taken all their steps,
  -- the next pass of StopPipeline's loop ends it. It closes the channel that StopPipeline returned
  -- unless the context has expired, and when it has, the loop ends and leaves the channel open.
  -- What comes later changes nothing.
  pub wait_stopped-Steps :
      {k : ℕ} {n m : Network E}
      → IsOrdered true n
      → Steps E true k n m
      → k ≡ remaining [] n
      → (expired : Bool) (early late : List Poll) → All IsWaiting early
      → wait_stopped (early ++ record { expired = expired; done = all_done m } ∷ late)
        ≡ some (not expired)
  wait_stopped-Steps {m} h moves e expired early late waiting =
      rw ((Steps-all_done h moves).1.1 e)
        (wait_stopped-IsWaiting early _ waiting ∙ wait_stopped_done expired late)
