-- ===== src/Prelude/TextOrder.antt =====
-- The order by which `sort.Strings` sorts.
use Prim.Native.Nat.{Ordering}
use Prim.Native.String.compare
use Prim.Native.String.{String, compare}
use mathlib.Core.Path.{◌≡◌}
use mathlib.Core.Logic.{◌⊎◌}
use mathlib.Core.Bool.{Bool, true, false}
use native.Mathlib.Omega.{arith}
use text.Mathlib.Text.{is_lt}
use text.Mathlib.TextEquality.{path_by_compare}

abbrev pub str_lt : String → String → Bool
str_lt s t = is_lt (compare s t)

flip : Ordering → Ordering
flip Ordering.lt = Ordering.gt
flip Ordering.eq = Ordering.eq
flip Ordering.gt = Ordering.lt

compare_swap : (s t : String) → compare t s ≡ flip (compare s t)
unfolding flip
compare_swap String.[] String.[] = rw compare.nil-nil
compare_swap String.[] (String.◌∷◌ d t) = rw (compare.nil-cons, compare.cons-nil)
compare_swap (String.◌∷◌ c s) String.[] = rw (compare.nil-cons, compare.cons-nil)
compare_swap (String.◌∷◌ c s) (String.◌∷◌ d t) =
    rw (compare.cons-cons c d, compare.cons-cons d c) (ground (arith, compare_swap s t))

pub str_lt_trans : (s t u : String) → str_lt s t ≡ true → str_lt t u ≡ true → str_lt s u ≡ true
str_lt_trans String.[] String.[] u h k = k
str_lt_trans String.[] (String.◌∷◌ d t) String.[] h k =
    absurd (ground (arith, compare.cons-nil d t))
str_lt_trans String.[] (String.◌∷◌ d t) (String.◌∷◌ e u) h k = rw compare.nil-cons
str_lt_trans (String.◌∷◌ c s) String.[] u h k = absurd (ground (arith, compare.cons-nil c s))
str_lt_trans (String.◌∷◌ c s) (String.◌∷◌ d t) String.[] h k =
    absurd (ground (arith, compare.cons-nil d t))
str_lt_trans (String.◌∷◌ c s) (String.◌∷◌ d t) (String.◌∷◌ e u) h k = ground (
  arith,
  compare.cons-cons c d s t,
  compare.cons-cons d e t u,
  compare.cons-cons c e s u,
  str_lt_trans s t u,
  path_by_compare s t,
  path_by_compare t u,
)

pub str_lt_asymm : (s t : String) → str_lt s t ≡ true → str_lt t s ≡ false
unfolding flip
str_lt_asymm s t h = ground (arith, compare_swap s t)

pub str_lt_total : (s t : String) → str_lt s t ≡ false → (s ≡ t) ⊎ (str_lt t s ≡ true)
unfolding flip
str_lt_total s t h = ground (arith, compare_swap s t, path_by_compare s t)
