-- ===== src/Prober.antt =====
-- The probes of pkg/prober/prober.go. The gauge vector is that of all probes; a probe reads and writes
-- the value under its own name only, and `none` is a value that was never set. The mutex makes each
-- operation one step.
pub mod Laws
use slo_exporter.Prelude.{
  ℕ, ◌≡◌, refl, String, Bool, true, false, not, ◌&&◌, ◌||◌, Option, none, some, List, [], ◌∷◌,
  is_some, arith, ◌↔◌, if◌then◌else◌,
}
use slo_exporter.Prelude.Results.{Result, ok, err}

-- `status` is the error that Go's field holds, with `none` for nil.
pub record Prober (L : Type 0) : Type 0 where
  pub status : Option L
  pub gauge : Option ℕ

-- What net/http is given: the status code and the text.
pub record Response (L : Type 0) : Type 0 where
  pub code : ℕ
  pub failure : Option L

-- Registering the gauge vector: it is new, it is there already, or another error.
pub data Registration : Type 0 where
  registered : Registration
  already_registered : Registration
  refused : Registration

-- A call of Ok or NotOk.
pub data Call (L : Type 0) : Type 0 where
  call_ok : Call L
  call_not_ok : Option L → Call L

module _ {L : Type 0} where
  -- The gauge that setStatus leaves.
  abbrev pub gauge_after : Option L → Option L → Option ℕ → Option ℕ
  gauge_after (some old) none gauge = some 1
  gauge_after none (some new) gauge = some 0
  gauge_after none none gauge = gauge
  gauge_after (some old) (some new) gauge = gauge

  unfoldable pub set_status : Prober L → Option L → Prober L
  set_status p e = record { status = e; gauge = gauge_after p.status e p.gauge }

  -- Ok
  unfoldable pub set_ok : Prober L → Prober L
  set_ok p = set_status p none

  -- NotOk, whose argument may be nil
  unfoldable pub not_ok : Prober L → Option L → Prober L
  not_ok p e = set_status p e

  -- IsOk
  unfoldable pub is_ok : Prober L → Option L
  is_ok p = p.status

  unfoldable pub handle_func : Prober L → Response L
  handle_func p = elim (is_ok p) [
    | some e ↦ record { code = 503; failure = some e }
    | none ↦ record { code = 200; failure = none }
  ]

  unfoldable pub new_prober : Registration → Option (Prober L)
  new_prober registered = some (record { status = none; gauge = none })
  new_prober already_registered = some (record { status = none; gauge = none })
  new_prober refused = none

  unfoldable pub new_liveness : Registration → Option (Prober L)
  new_liveness registration = elim (new_prober registration) [
    | none ↦ none
    | some p ↦ some (set_ok p)
  ]

  -- NewReadiness, with ErrorDefault
  unfoldable pub new_readiness : L → Registration → Option (Prober L)
  new_readiness error_default registration = elim (new_prober registration) [
    | none ↦ none
    | some p ↦ some (not_ok p (some error_default))
  ]

  unfoldable pub call : Prober L → Call L → Prober L
  call p call_ok = set_ok p
  call p (call_not_ok e) = not_ok p e

  unfoldable pub call_all : Prober L → List (Call L) → Prober L
  call_all p [] = p
  call_all p (c ∷ cs) = call_all (call p c) cs
