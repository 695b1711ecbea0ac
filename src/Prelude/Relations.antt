-- ===== src/Prelude/Relations.antt =====
-- Runs of a step relation.

-- Any number of steps, one after another.
pub data Reach {S : Type 0} (R : S → S → Type 0) (s : S) : S → Type 0 where
  here : Reach R s s
  next : {t u : S} → Reach R s t → R t u → Reach R s u

module _ {S : Type 0} {R : S → S → Type 0} where
  pub Reach-trans : {s t u : S} → Reach R s t → Reach R t u → Reach R s u
  Reach-trans r here = r
  Reach-trans r (next q st) = next (Reach-trans r q) st

  pub Reach-one : {s t : S} → R s t → Reach R s t
  Reach-one st = next here st

  -- A predicate that every step keeps holds in every state that a run from it reaches.
  pub Reach-keeps :
      (P : S → Type 0) → ((s t : S) → R s t → P s → P t) → {s t : S} → P s → Reach R s t → P t
  Reach-keeps P keep h here = h
  Reach-keeps P keep h (next {t} {u} r st) = keep t u st (Reach-keeps P keep h r)
