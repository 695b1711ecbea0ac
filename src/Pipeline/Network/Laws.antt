-- ===== src/Pipeline/Network/Laws.antt =====
-- Every interleaving of a pipeline's goroutines does what the modules do one after another.
use mathlib.Core.List.{append_assoc}
use slo_exporter.Prelude.{
  ℕ, suc, ◌+◌, ◌≡◌, ap, sym, ◌∙◌, ◌≤◌, refl, Bool, List, [], ◌∷◌, ◌++◌, length, arith,
}
use slo_exporter.Pipeline.Network.{
  finished, Network, sink, stage, Step, send, send_last, close, set_done, later, Steps, here, then,
  loop, drain, remaining,
}

module _ {E : Type 0} where
  -- A step does not change what the modules would do one after another.
  pub Step-drain :
      {b : Bool} {n m : Network E} → Step E b n m → (input : List E) → drain input n ≡ drain input m
  unfolding drain loop
  Step-drain send input = refl
  Step-drain (send_last {f} {s} {e} {es} {out}) input =
      ap (λ sent. stage f (loop f s input).0 finished [] (sink sent))
        (sym (append_assoc out (e ∷ []) (es ++ (loop f s input).1)))
  Step-drain close input = refl
  Step-drain set_done input = refl
  Step-drain (later {f} {s} {es} move) input =
      ap (stage f (loop f s input).0 finished []) (Step-drain move (es ++ (loop f s input).1))

  -- Each step is one of those that are left.
  pub Step-remaining :
      {b : Bool} {n m : Network E}
      → Step E b n m
      → (input : List E) → remaining input n ≡ suc (remaining input m)
  unfolding remaining loop
  Step-remaining send input = omega arith
  Step-remaining send_last input = omega arith
  Step-remaining close input = omega arith
  Step-remaining set_done input = omega arith
  Step-remaining (later {f} {s} {es} move) input =
      omega (arith, Step-remaining move (es ++ (loop f s input).1))

  pub Steps-drain : {b : Bool} {k : ℕ} {n m : Network E} → Steps E b k n m → drain [] n ≡ drain [] m
  Steps-drain here = refl
  Steps-drain (then move moves) = Step-drain move [] ∙ Steps-drain moves

  pub Steps-remaining :
      {b : Bool} {k : ℕ} {n m : Network E} → Steps E b k n m → remaining [] n ≡ k + remaining [] m
  Steps-remaining here = omega arith
  Steps-remaining (then move moves) = omega (arith, Step-remaining move [], Steps-remaining moves)

  pub length-remaining : (input : List E) (n : Network E) → length input ≤ remaining input n
  unfolding remaining
  length-remaining input (sink out) = omega arith
  length-remaining input (stage f s p es rest) = omega arith
