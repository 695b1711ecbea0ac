-- ===== src/Prober/Laws.antt =====
-- What a probe of pkg/prober/prober.go reports, and what its gauge shows.
use slo_exporter.Prelude.{
  ℕ, ◌≡◌, refl, ◌∙◌, ap, sym, Bool, false, ◌||◌, Option, none, some, List, [], ◌∷◌, is_some, arith,
  if◌then◌else◌,
}
use slo_exporter.Prober.{
  Prober, Registration, Call, call_ok, call_not_ok, set_status, set_ok, not_ok, is_ok, handle_func,
  new_prober, new_liveness, new_readiness, call, call_all, gauge_after,
}

module _ {L : Type 0} where
  -- What a call sets.
  abbrev pub set_by : Call L → Option L
  set_by call_ok = none
  set_by (call_not_ok e) = e

  -- The status that the calls leave: what the last one sets.
  abbrev pub last_set : Option L → List (Call L) → Option L
  last_set e [] = e
  last_set e (c ∷ cs) = last_set (set_by c) cs

  -- Whether a call sets an error.
  abbrev pub any_error : List (Call L) → Bool
  any_error [] = false
  any_error (c ∷ cs) = is_some (set_by c) || any_error cs

  -- The gauge of a probe whose status was an error once.
  abbrev pub gauge_of : Option L → Option ℕ
  gauge_of none = some 1
  gauge_of (some e) = some 0

  new_liveness-start :
      (registration : Registration) (p : Prober L)
      → new_liveness registration ≡ some p
      → (p.status ≡ none) × (p.gauge ≡ none)
  unfolding new_liveness new_prober set_ok set_status
  new_liveness-start registration p e = ground arith

  new_readiness-start :
      (error_default : L) (registration : Registration) (p : Prober L)
      → new_readiness error_default registration ≡ some p
      → (p.status ≡ some error_default) × (p.gauge ≡ some 0)
  unfolding new_readiness new_prober not_ok set_status
  new_readiness-start error_default registration p e = ground arith

  -- The status code that stands for a status.
  abbrev pub code_of : Option L → ℕ
  code_of none = 200
  code_of (some e) = 503

  handle_func-code :
      (p : Prober L)
      → ((handle_func p).code ≡ code_of p.status) × ((handle_func p).failure ≡ p.status)
  unfolding handle_func is_ok
  handle_func-code p = (ground arith, ground arith)

  call-set_by :
      (p : Prober L) (c : Call L)
      → call p c ≡ record { status = set_by c; gauge = gauge_after p.status (set_by c) p.gauge }
  unfolding call set_ok not_ok set_status
  call-set_by p call_ok = refl
  call-set_by p (call_not_ok e) = refl

  -- The gauge in terms of the status, once it was set.
  gauge_after-gauge_of : (old new : Option L) → gauge_after old new (gauge_of old) ≡ gauge_of new
  gauge_after-gauge_of none none = refl
  gauge_after-gauge_of none (some e) = refl
  gauge_after-gauge_of (some e) none = refl
  gauge_after-gauge_of (some e) (some f) = refl

  call_all-status :
      (p : Prober L) (cs : List (Call L)) → (call_all p cs).status ≡ last_set p.status cs
  unfolding call_all
  call_all-status p [] = refl
  call_all-status p (c ∷ cs) = call_all-status (call p c) cs ∙ rw (call-set_by p c) refl

  call_all-gauge :
      (p : Prober L) (cs : List (Call L))
      → p.gauge ≡ gauge_of p.status
      → (call_all p cs).gauge ≡ gauge_of (last_set p.status cs)
  unfolding call_all
  call_all-gauge p [] h = h
  call_all-gauge p (c ∷ cs) h =
      let now : (call p c).gauge ≡ gauge_of (call p c).status =
        rw (call-set_by p c)
          (ap (gauge_after p.status (set_by c)) h ∙ gauge_after-gauge_of p.status (set_by c)) in
      call_all-gauge (call p c) cs now ∙ rw (call-set_by p c) refl

  unset-gauge :
      (p : Prober L) (cs : List (Call L))
      → p.status ≡ none
      → p.gauge ≡ none
      → (call_all p cs).gauge ≡ (if any_error cs then gauge_of (last_set none cs) else none)
  unfolding call_all call set_ok not_ok set_status
  unset-gauge p [] h g = g
  unset-gauge p (call_ok ∷ cs) h g = unset-gauge (call p call_ok) cs refl (rw (h, g) refl)
  unset-gauge p (call_not_ok none ∷ cs) h g =
      unset-gauge (call p (call_not_ok none)) cs refl (rw (h, g) refl)
  unset-gauge p (call_not_ok (some e) ∷ cs) h g =
      call_all-gauge (call p (call_not_ok (some e))) cs (rw h refl)

  -- After any calls of Ok and NotOk each of the two probes reports what the last call set, or before
  -- the first call what it began with: no error for the liveness probe, and the default error for the
  -- readiness probe. Its handler answers 200 where that is no error, and else 503 with the error. The
  -- gauge of the readiness probe shows the same
  -- from the beginning, that of the liveness probe only once an error was set: until then it is
  -- not set at all, though the probe is ok.
  pub probes-gauge :
      (error_default : L) (registration : Registration) (live ready : Prober L) (cs : List (Call L))
      → new_liveness registration ≡ some live
      → new_readiness error_default registration ≡ some ready
      → (is_ok (call_all live cs) ≡ last_set none cs)
        × (is_ok (call_all ready cs) ≡ last_set (some error_default) cs)
        × ((handle_func (call_all live cs)).code ≡ code_of (last_set none cs))
        × ((handle_func (call_all live cs)).failure ≡ last_set none cs)
        × ((handle_func (call_all ready cs)).code ≡ code_of (last_set (some error_default) cs))
        × ((handle_func (call_all ready cs)).failure ≡ last_set (some error_default) cs)
        × ((call_all ready cs).gauge ≡ gauge_of (last_set (some error_default) cs))
        × ((call_all live cs).gauge ≡ (if any_error cs then gauge_of (last_set none cs) else none))
  unfolding is_ok
  probes-gauge error_default registration live ready cs l r =
      let live_start = new_liveness-start registration live l in
      let ready_start = new_readiness-start error_default registration ready r in
      let live_status : (call_all live cs).status ≡ last_set none cs =
        call_all-status live cs ∙ ap (λ s. last_set s cs) live_start.0 in
      let ready_status : (call_all ready cs).status ≡ last_set (some error_default) cs =
        call_all-status ready cs ∙ ap (λ s. last_set s cs) ready_start.0 in
      let live_answer = handle_func-code (call_all live cs) in
      let ready_answer = handle_func-code (call_all ready cs) in
      (
        live_status,
        ready_status,
        live_answer.0 ∙ ap code_of live_status,
        live_answer.1 ∙ live_status,
        ready_answer.0 ∙ ap code_of ready_status,
        ready_answer.1 ∙ ready_status,
        call_all-gauge ready cs (ready_start.1 ∙ sym (ap gauge_of ready_start.0))
            ∙ ap (λ s. gauge_of (last_set s cs)) ready_start.0,
        unset-gauge live cs live_start.0 live_start.1,
      )
