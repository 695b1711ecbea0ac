-- ===== src/Pipeline/Network/Progress.antt =====
-- A stopped pipeline comes to its end, whatever order the goroutines run in.
use mathlib.Core.List.{append-nil}
use slo_exporter.Prelude.{
  ℕ, zero, suc, ◌+◌, ◌≡◌, ap, sym, ◌∙◌, ◌↔◌, ◌≤◌, ◌<◌, refl, Bool, true, false, List, [], ◌∷◌, ◌++◌,
  arith, Bool-cases, inl, inr,
}
use slo_exporter.Pipeline.Network.{
  looping, closed, finished, is_closed, Network, sink, stage, Step, send, send_last, close,
  set_done, later, Steps, here, then, all_done, loop, drain, remaining,
}
use slo_exporter.Pipeline.Network.Laws.{Step-remaining, Steps-remaining, Steps-drain}

module _ {E : Type 0} where
  -- A module whose output channel is closed has sent all that it had to, and its input has ended.
  abbrev pub IsOrdered : Bool → Network E → Type 0
  IsOrdered b (sink out) = Unit
  IsOrdered b (stage f s p es rest) =
      (is_closed p ≡ true → (es ≡ []) × (b ≡ true)) × IsOrdered (is_closed p) rest

  IsOrdered-ended : (b : Bool) (n : Network E) → IsOrdered b n → IsOrdered true n
  IsOrdered-ended b (sink out) h = tt
  IsOrdered-ended b (stage f s p es rest) h = ((λ e. ((h.0 e).0, refl)), h.1)

  pub Step-IsOrdered : {b : Bool} {n m : Network E} → Step E b n m → IsOrdered b n → IsOrdered b m
  Step-IsOrdered send h = ground arith
  Step-IsOrdered send_last h = ground arith
  Step-IsOrdered (close {rest}) h = ((λ e. (refl, refl)), IsOrdered-ended false rest h.1)
  Step-IsOrdered set_done h = ground arith
  Step-IsOrdered (later move) h = (h.0, Step-IsOrdered move h.1)

  pub Steps-IsOrdered :
      {b : Bool} {k : ℕ} {n m : Network E} → Steps E b k n m → IsOrdered b n → IsOrdered b m
  Steps-IsOrdered here h = h
  Steps-IsOrdered (then move moves) h = Steps-IsOrdered moves (Step-IsOrdered move h)

  -- A module that has something to send sends it, or a module behind it moves.
  sends :
      {S : Type 0} (b : Bool) (f : S → E → S × List E) (s : S) (e : E) (es : List E)
      → (rest : Network E) → IsOrdered false rest
      → (m : Network E) × Step E b (stage f s looping (e ∷ es) rest) m
  sends b f s e es (sink out) h = (_, send_last)
  sends b f s e es (stage g t closed ys rest) h = absurd (ground arith)
  sends b f s e es (stage g t finished ys rest) h = absurd (ground arith)
  sends b f s e es (stage g t looping [] rest) h = (_, send)
  sends b f s e es (stage g t looping (y ∷ ys) rest) h =
      let inner = sends false g t y ys rest h.1 in (_, later inner.1)

  pub progress :
      (n : Network E) → IsOrdered true n → all_done n ≡ false → (m : Network E) × Step E true n m
  unfolding all_done
  progress (sink out) h e = absurd (ground arith)
  progress (stage f s looping [] rest) h e = (_, close)
  progress (stage f s looping (y ∷ ys) rest) h e = sends true f s y ys rest h.1
  progress (stage f s closed es rest) h e = (_, set_done)
  progress (stage f s finished es rest) h e = let inner = progress rest h.1 e in (_, later inner.1)

  -- A pipeline is done when it has no step left, and then it is what it is drained to.
  remaining-all_done : (input : List E) (n : Network E) → remaining input n ≡ 0 → all_done n ≡ true
  unfolding remaining all_done
  remaining-all_done input (sink out) e = refl
  remaining-all_done input (stage f s looping es rest) e = absurd (omega arith)
  remaining-all_done input (stage f s closed es rest) e = absurd (omega arith)
  remaining-all_done input (stage f s finished es rest) e =
      remaining-all_done (es ++ (loop f s input).1) rest (omega arith)

  all_done-remaining : (n : Network E) → IsOrdered true n → all_done n ≡ true → remaining [] n ≡ 0
  unfolding remaining all_done loop
  all_done-remaining (sink out) h e = refl
  all_done-remaining (stage f s looping es rest) h e = absurd (ground arith)
  all_done-remaining (stage f s closed es rest) h e = absurd (ground arith)
  all_done-remaining (stage f s finished es rest) h e =
      rw ((h.0 refl).0) (omega (arith, all_done-remaining rest h.1 e))

  all_done-drain : (n : Network E) → IsOrdered true n → all_done n ≡ true → drain [] n ≡ n
  unfolding drain all_done loop
  all_done-drain (sink out) h e = ap sink (append-nil out)
  all_done-drain (stage f s looping es rest) h e = absurd (ground arith)
  all_done-drain (stage f s closed es rest) h e = absurd (ground arith)
  all_done-drain (stage f s finished es rest) h e =
      rw ((h.0 refl).0) (ap (stage f s finished []) (all_done-drain rest h.1 e))

  -- Where the input of the first module has ended, and each module that has closed its channel has
  -- nothing left to send and an input that has ended: every run takes at most the steps that are
  -- left, the pipeline is done exactly when the run has taken them all, and until then some
  -- step can be taken.
  pub Steps-all_done :
      {k : ℕ} {n m : Network E}
      → IsOrdered true n
      → Steps E true k n m
      → (k ≤ remaining [] n)
        × (all_done m ≡ true ↔ k ≡ remaining [] n)
        × (k < remaining [] n → (l : Network E) × Step E true m l)
  Steps-all_done {k} {n} {m} h moves =
      let total : remaining [] n ≡ k + remaining [] m = Steps-remaining moves in
      let kept : IsOrdered true m = Steps-IsOrdered moves h in
      let ends : all_done m ≡ true → k ≡ remaining [] n =
        λ e. omega (arith, all_done-remaining m kept e) in
      let is_end : k ≡ remaining [] n → all_done m ≡ true =
        λ e. remaining-all_done [] m (omega arith) in
      (
        omega arith,
        (ends, is_end),
        λ lt. elim (Bool-cases (all_done m)) [
          | inl is_done ↦ absurd (omega (arith, ends is_done))
          | inr not_done ↦ progress m kept not_done
        ],
      )

  -- Where the input of the first module has ended, and each module that has closed its channel has
  -- nothing left to send and an input that has ended: whatever order the goroutines run in, once the pipeline is
  -- done the state of each module and what the last one has sent are what the modules, run one after
  -- another, end with, where each reads the list of all events that the one before it sends.
  pub Steps-drained :
      {k : ℕ} {n m : Network E}
      → IsOrdered true n
      → Steps E true k n m
      → all_done m ≡ true
      → m ≡ drain [] n
  Steps-drained {m} h moves e =
      sym (Steps-drain moves ∙ all_done-drain m (Steps-IsOrdered moves h) e)

  -- From every network whose input has ended there is a run to the end.
  pub complete :
      (k : ℕ) (n : Network E)
      → IsOrdered true n
      → remaining [] n ≡ k
      → (m : Network E) × Steps E true k n m × (all_done m ≡ true)
  complete zero n h e = (n, here, remaining-all_done [] n e)
  complete (suc k) n h e = elim (Bool-cases (all_done n)) [
    | inl is_done ↦ absurd (omega (arith, all_done-remaining n h is_done))
    | inr not_done ↦
        let now = progress n h not_done in
        let left = Step-remaining now.1 [] in
        let later = complete k now.0 (Step-IsOrdered now.1 h) (omega (arith, left)) in
        (later.0, then now.1 later.1, later.2)
  ]
