-- ===== src/Storage.antt =====
-- The capped container of pkg/storage/in_memory.go. The linked list is a list with its front first;
-- the lock makes each method atomic, and Stream holds it until the last item is read, so a stream
-- is the list at one moment.
pub mod Laws
use slo_exporter.Prelude.{ℕ, List, [], ◌∷◌, length, ℤ, exceeds, if◌then◌else◌}

pub record CappedContainer {ℓ} (A : Type ℓ) : Type ℓ where
  pub items : List A
  pub capacity : ℤ

module _ {ℓ} {A : Type ℓ} where
  unfoldable pub new_in_memory_capped_container : ℤ → CappedContainer A
  new_in_memory_capped_container capacity = record { items = []; capacity = capacity }

  unfoldable pub len : CappedContainer A → ℕ
  len h = length h.items

  -- list.Remove(list.Back())
  unfoldable pub remove_back : List A → List A
  remove_back [] = []
  remove_back (x ∷ []) = []
  remove_back (x ∷ y ∷ xs) = x ∷ remove_back (y ∷ xs)

  unfoldable pub add : CappedContainer A → A → CappedContainer A
  unfolding remove_back
  add h item =
      let pushed = item ∷ h.items in
      if exceeds (length pushed) h.capacity
      then record h { items = remove_back pushed }
      else record h { items = pushed }

  unfoldable pub stream : CappedContainer A → List A
  stream h = h.items

  -- A run of Add calls.
  unfoldable pub add_all : CappedContainer A → List A → CappedContainer A
  add_all h [] = h
  add_all h (x ∷ xs) = add_all (add h x) xs
