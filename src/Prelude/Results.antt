-- ===== src/Prelude/Results.antt =====
-- Go's pairs of a value and an error, of which a caller reads the value only without an error.
use Prim.Native.Nat.{ℕ, suc, ◌+◌}
use mathlib.Core.Path.{◌≡◌, refl}
use mathlib.Core.Logic.{◌⊎◌, inl, inr}
use mathlib.Core.List.{List, [], ◌∷◌, ◌++◌}
use native.Mathlib.Omega.{arith}

pub data Result {ℓ} (E A : Type ℓ) : Type ℓ where
  ok : A → Result E A
  err : E → Result E A

pub Result-cases :
    {E A : Type 0} (r : Result E A) → ((a : A) × (r ≡ ok a)) ⊎ ((x : E) × (r ≡ err x))
Result-cases (ok a) = inl (a, refl)
Result-cases (err x) = inr (x, refl)

infixl 10 ◌>>=◌ ◌>>◌
abbrev pub ◌>>=◌ {ℓ} : {E A B : Type ℓ} → Result E A → (A → Result E B) → Result E B
ok a >>= f = f a
err e >>= f = err e

abbrev pub ◌>>◌ : {E A B : Type 0} → Result E A → Result E B → Result E B
m >> k = m >>= λ _. k

-- The results without the errors.
abbrev pub oks : {E A : Type 0} → List (Result E A) → List A
oks [] = []
oks (ok a ∷ rest) = a ∷ oks rest
oks (err e ∷ rest) = oks rest

-- The errors alone.
abbrev pub errs {ℓ} : {E A : Type ℓ} → List (Result E A) → List E
errs [] = []
errs (ok a ∷ rest) = errs rest
errs (err e ∷ rest) = e ∷ errs rest

abbrev pub count_errors : {E A : Type 0} → List (Result E A) → ℕ
count_errors [] = 0
count_errors (ok a ∷ rest) = count_errors rest
count_errors (err e ∷ rest) = suc (count_errors rest)

pub oks_cons :
    {E A : Type 0} (r : Result E A) (rest : List (Result E A))
    → oks (r ∷ []) ++ oks rest ≡ oks (r ∷ rest)
oks_cons (ok a) rest = refl
oks_cons (err e) rest = refl

pub errors_cons :
    {E A : Type 0} (r : Result E A) (rest : List (Result E A))
    → count_errors (r ∷ []) + count_errors rest ≡ count_errors (r ∷ rest)
errors_cons (ok a) rest = omega arith
errors_cons (err e) rest = omega arith
