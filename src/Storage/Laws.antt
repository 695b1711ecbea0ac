-- ===== src/Storage/Laws.antt =====
-- The capped container of pkg/storage/in_memory.go keeps the newest items, newest first.
use mathlib.Core.List.{reverse, reverse_aux}
use slo_exporter.Prelude.{
  ℕ, zero, suc, ◌≤◌, ◌≡◌, refl, sym, ap, ◌∙◌, List, [], ◌∷◌, length, take, length-take-le,
  take_of_length-le, take_of_take, ℤ, pos, negsuc, room, arith, ltb, inl, inr, Bool-cases, ltb→lt,
  ltb→le,
}
use slo_exporter.Storage.{
  CappedContainer, new_in_memory_capped_container, len, remove_back, add, stream, add_all,
}

module _ {ℓ} {A : Type ℓ} where
  abbrev pub IsValid : CappedContainer A → Type 0
  IsValid h = length h.items ≤ room h.capacity

  remove_back-take : (n : ℕ) (xs : List A) → length xs ≡ suc n → remove_back xs ≡ take n xs
  unfolding remove_back
  remove_back-take n [] h = absurd (omega arith)
  remove_back-take zero (x ∷ []) h = refl
  remove_back-take (suc n) (x ∷ []) h = absurd (omega arith)
  remove_back-take zero (x ∷ y ∷ xs) h = absurd (omega arith)
  remove_back-take (suc n) (x ∷ y ∷ xs) h = ap (◌∷◌ x) (remove_back-take n (y ∷ xs) (omega arith))

  items-add_cap :
      (items : List A) (cap : ℤ) (x : A)
      → length items ≤ room cap
      → (add (record { items = items; capacity = cap }) x).items ≡ take (room cap) (x ∷ items)
  unfolding add
  items-add_cap items (pos n) x h = elim (Bool-cases (ltb n (suc (length items)))) [
    | inl over ↦ rw over (remove_back-take n (x ∷ items) (omega (arith, ltb→lt n _ over)))
    | inr fits ↦ rw fits (sym (take_of_length-le n (x ∷ items) (ltb→le n _ fits)))
  ]
  items-add_cap items (negsuc n) x h = remove_back-take 0 (x ∷ items) (omega arith)

  -- On a container within its capacity, Add leaves the newest items that fit, the added one first.
  pub items-add :
      (h : CappedContainer A) (x : A)
      → IsValid h
      → (add h x).items ≡ take (room h.capacity) (x ∷ h.items)
  items-add h x v = items-add_cap h.items h.capacity x v

  capacity-add : (h : CappedContainer A) (x : A) → (add h x).capacity ≡ h.capacity
  unfolding add
  capacity-add h x = ground arith

  pub add-IsValid : (h : CappedContainer A) (x : A) → IsValid h → IsValid (add h x)
  add-IsValid h x v =
      rw (capacity-add h x, items-add h x v) (length-take-le (room h.capacity) (x ∷ h.items))

  take-cons-take : (n : ℕ) (x : A) (xs : List A) → take n (x ∷ take n xs) ≡ take n (x ∷ xs)
  take-cons-take zero x xs = refl
  take-cons-take (suc n) x xs = ap (◌∷◌ x) (take_of_take n xs)

  add_all-take :
      (h : CappedContainer A) (xs seen : List A)
      → h.items ≡ take (room h.capacity) seen
      → (add_all h xs).items ≡ take (room h.capacity) (reverse_aux xs seen)
  unfolding add_all add
  add_all-take h [] seen e = e
  add_all-take h (x ∷ xs) seen e =
      let n = room h.capacity in
      let valid : IsValid h = rw e (length-take-le n seen) in
      let added : (add h x).items ≡ take n (x ∷ seen) =
        items-add h x valid ∙ ap (λ (l : List A). take n (x ∷ l)) e ∙ take-cons-take n x seen in
      rw (capacity-add h x) at (add_all-take (add h x) xs (x ∷ seen) (rw (capacity-add h x) added))

  -- The container refines a history: after any adds to a new container, it streams the newest items
  -- of the history that its capacity leaves room for, newest first, and reports their number.
  pub stream-add_all :
      (capacity : ℤ) (xs : List A)
      → (stream (add_all (new_in_memory_capped_container capacity) xs)
          ≡ take (room capacity) (reverse xs))
        × (len (add_all (new_in_memory_capped_container capacity) xs)
            ≡ length (take (room capacity) (reverse xs)))
  unfolding stream new_in_memory_capped_container len
  stream-add_all capacity xs =
      let whole =
        add_all-take (new_in_memory_capped_container capacity) xs []
          (sym (take_of_length-le (room capacity) [] (omega arith))) in
      (whole, ap length whole)
