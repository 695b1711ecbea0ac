-- ===== src/Prelude/Lists.antt =====
-- Lists measured by native numbers, and the Boolean quantifiers over them.
use Prim.Native.Nat.{ℕ, zero, suc, ◌+◌, ◌≤◌}
use Prim.Native.String.{String}
use mathlib.Core.Path.{◌≡◌, refl, ap}
use mathlib.Core.Bool.{Bool, false, ◌||◌}
use mathlib.Core.List.{List, [], ◌∷◌, ◌++◌}
use native.Mathlib.Omega.{arith}
use text.Mathlib.Text.{◌==◌}

module _ {ℓ} {A : Type ℓ} where
  abbrev pub length : List A → ℕ
  length [] = 0
  length (x ∷ xs) = suc (length xs)

  pub length-append : (xs ys : List A) → length (xs ++ ys) ≡ length xs + length ys
  length-append [] ys = omega arith
  length-append (x ∷ xs) ys = omega (arith, length-append xs ys)

module _ {ℓ} {A : Type ℓ} where
  abbrev pub take : ℕ → List A → List A
  take zero items = []
  take (suc count) [] = []
  take (suc count) (item ∷ items) = item ∷ take count items

  pub take_of_length-le : (n : ℕ) (xs : List A) → length xs ≤ n → take n xs ≡ xs
  take_of_length-le zero [] fits = refl
  take_of_length-le (suc count) [] fits = refl
  take_of_length-le zero (item ∷ items) fits = absurd (omega arith)
  take_of_length-le (suc count) (item ∷ items) fits =
      ap (◌∷◌ item) (take_of_length-le count items (omega arith))

  pub length-take-le : (n : ℕ) (xs : List A) → length (take n xs) ≤ n
  length-take-le zero items = omega arith
  length-take-le (suc count) [] = omega arith
  length-take-le (suc count) (item ∷ items) = omega (arith, length-take-le count items)

  pub take_of_take : (n : ℕ) (xs : List A) → take n (take (suc n) xs) ≡ take n xs
  take_of_take zero [] = refl
  take_of_take zero (item ∷ items) = refl
  take_of_take (suc count) [] = refl
  take_of_take (suc count) (item ∷ items) = ap (◌∷◌ item) (take_of_take count items)

module _ {ℓ} {A : Type ℓ} where
  abbrev pub drop : ℕ → List A → List A
  drop zero xs = xs
  drop (suc n) [] = []
  drop (suc n) (x ∷ xs) = drop n xs

-- A predicate on every element, by recursion.
abbrev pub All {ℓ κ} : {A : Type ℓ} → (A → Type κ) → List A → Type κ
All P [] = Unit
All P (x ∷ xs) = P x × All P xs

module _ {ℓ κ} {A : Type ℓ} (P : A → Type κ) where
  pub All-append : (xs ys : List A) → All P xs → All P ys → All P (xs ++ ys)
  All-append [] ys h k = k
  All-append (x ∷ xs) ys h k = (h.0, All-append xs ys h.1 k)

  pub All-left : (xs ys : List A) → All P (xs ++ ys) → All P xs
  All-left [] ys h = tt
  All-left (x ∷ xs) ys h = (h.0, All-left xs ys h.1)

  pub All-right : (xs ys : List A) → All P (xs ++ ys) → All P ys
  All-right [] ys h = h
  All-right (x ∷ xs) ys h = All-right xs ys h.1

-- The sum of a number for each element.
module _ {ℓ} {A : Type ℓ} (weight : A → ℕ) where
  abbrev pub total_of : List A → ℕ
  total_of [] = 0
  total_of (x ∷ xs) = weight x + total_of xs

  pub total_of-append : (xs ys : List A) → total_of (xs ++ ys) ≡ total_of xs + total_of ys
  total_of-append [] ys = omega arith
  total_of-append (x ∷ xs) ys = omega (arith, total_of-append xs ys)

-- Membership of a text in a list.
abbrev pub contains : String → List String → Bool
contains k [] = false
contains k (x ∷ xs) = x == k || contains k xs
