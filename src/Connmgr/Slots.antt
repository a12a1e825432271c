-- ===== src/Connmgr/Slots.antt =====
-- The number of slots of the array of descriptors once one is taken out of it.
use btvnlinux.Prelude.{
  ℕ, zero, suc, ◌≤◌, ◌≡◌, refl, ap, ◌∙◌, Option, none, some, List, [], ◌∷◌, arith, length,
  length-set, get_elem?, set, take,
}
use btvnlinux.Connmgr.{copy_slot, skip, move_down, take_out}

length-take : {A : Type 0} (n : ℕ) (xs : List A) → n ≤ length xs → length (take n xs) ≡ n
length-take zero xs le = refl
length-take (suc n) [] le = absurd (omega arith)
length-take (suc n) (x ∷ xs) le = ap suc (length-take n xs (omega arith))

module _ {A : Type 0} where
  -- An array of `n` slots, where there is one.
  abbrev pub HasSlots : ℕ → Option (List A) → Type 0
  HasSlots n none = Unit {0}
  HasSlots n (some fds) = length fds ≡ n

  -- A step that may fail, and what follows it.
  HasSlots-then :
      (m n : ℕ) (o : Option (List A)) (k : List A → Option (List A))
      → HasSlots m o
      → ((fds : List A) → length fds ≡ m → HasSlots n (k fds))
      → HasSlots n (elim o [ none ↦ none | some fds ↦ k fds ])
  HasSlots-then m n none k e next = tt
  HasSlots-then m n (some fds) k e next = next fds e

  set-HasSlots :
      (n id1 : ℕ) (fds : List A) (u v : Option A)
      → length fds ≡ n
      → HasSlots n
          (elim v [ none ↦ none | some x ↦ elim u [ none ↦ none | some y ↦ some (set fds id1 x) ] ])
  set-HasSlots n id1 fds u none e = tt
  set-HasSlots n id1 fds none (some x) e = tt
  set-HasSlots n id1 fds (some y) (some x) e = length-set fds id1 x ∙ e

  copy_slot-HasSlots :
      (id1 id2 n : ℕ) (fds : List A) → length fds ≡ n → HasSlots n (copy_slot id1 id2 fds)
  unfolding copy_slot
  copy_slot-HasSlots id1 id2 n fds e =
      set-HasSlots n id1 fds (get_elem? fds id1) (get_elem? fds id2) e

  move_down-HasSlots :
      (rounds i id1 id2 n : ℕ) (fds : List A)
      → length fds ≡ n
      → HasSlots n (move_down rounds i id1 id2 fds)
  unfolding move_down
  move_down-HasSlots zero i id1 id2 n fds e = e
  move_down-HasSlots (suc k) i id1 id2 n fds e =
      HasSlots-then n n (copy_slot id1 (skip i id2) fds) _
        (copy_slot-HasSlots id1 (skip i id2) n fds e)
        λ fds' e'. move_down-HasSlots k i (suc id1) (suc (skip i id2)) n fds' e'

  pub take_out-HasSlots :
      (counter i : ℕ) (fds : List A)
      → length fds ≡ suc counter
      → HasSlots counter (take_out counter i fds)
  unfolding take_out
  take_out-HasSlots counter i fds e =
      HasSlots-then (suc counter) counter (move_down counter i 0 0 fds) _
        (move_down-HasSlots counter i 0 0 (suc counter) fds e)
        λ fds' e'. length-take counter fds' (omega (arith, e'))
