-- ===== src/Sbuffer/Interleaved/Ends.antt =====
-- How long a call of the shared buffer takes, in turns of its thread.
use btvnlinux.Prelude.{
  ℕ, ◌+◌, ◌-◌, ◌≤◌, ◌≡◌, refl, Option, none, some, inl, inr, List, [], ◌∷◌, ◌==◌, Bool-cases, arith,
}
use btvnlinux.Memory.{Ptr, null, Run, ok, fault, out_of_fuel, and_then, expect, object, resume, Cmd}
use btvnlinux.Memory.Returns
use btvnlinux.Memory.Returns.{Ensures, ensured, failed, hung}
use btvnlinux.Sbuffer.{Node, Status}
use btvnlinux.Sbuffer.Interleaved.{
  Shared, Pc, check_head, copy_data, keep_head, compare_ends, clear_tail, clear_head, advance_head,
  free_dummy, allocate, check_tail, set_tail, set_head, link_last, advance_tail, returned, step,
  load, System, Who, connmgr, datamgr, stormgr, turn, run, moved, at,
}

module _ {D : Type 0} where
  -- How many statements are left at most.
  abbrev pub todo : Pc D → ℕ
  todo check_head = 7
  todo copy_data = 6
  todo (keep_head d) = 5
  todo (compare_ends d p) = 4
  todo (clear_tail d p) = 3
  todo (clear_head d p) = 2
  todo (advance_head d p) = 2
  todo (free_dummy d p) = 1
  todo (allocate d) = 4
  todo (check_tail p) = 3
  todo (set_tail p) = 2
  todo (set_head p) = 1
  todo (link_last p) = 2
  todo advance_tail = 1
  todo (returned r o) = 0

  abbrev pub HasReturned : Pc D → Type 0
  HasReturned p = (r : Status) × (o : Option D) × (p ≡ returned r o)

  -- Behind a read of a node.
  loaded_from :
      {Q : Pc D → Shared D → Type 0} (o : Option (Node D)) (s : Shared D)
      (k : Node D → Cmd (Shared D) (Pc D))
      → ((n : Node D) → Ensures Q (k n s))
      → Ensures Q (and_then (expect o s) k)
  loaded_from none s k next = failed
  loaded_from (some n) s k next = next n

  pub loaded :
      {Q : Pc D → Shared D → Type 0} (p : Ptr) (s : Shared D) (k : Node D → Cmd (Shared D) (Pc D))
      → ((n : Node D) → Ensures Q (k n s))
      → Ensures Q (and_then (load p s) k)
  loaded p s k next = loaded_from (object s.nodes p) s k next

  step-Nearer :
      (fresh : Ptr) (p : Pc D) (s : Shared D)
      → Ensures (λ q t. todo q ≤ todo p - 1) (step fresh p s)
  unfolding step
  step-Nearer fresh check_head s = elim (Bool-cases (s.head == null)) [
    | inl e ↦ rw e (ensured (omega arith))
    | inr e ↦ rw e (ensured (omega arith))
  ]
  step-Nearer fresh copy_data s = loaded s.head s _ λ n. ensured (omega arith)
  step-Nearer fresh (keep_head d) s = ensured (omega arith)
  step-Nearer fresh (compare_ends d p) s = elim (Bool-cases (s.head == s.tail)) [
    | inl e ↦ rw e (ensured (omega arith))
    | inr e ↦ rw e (ensured (omega arith))
  ]
  step-Nearer fresh (clear_tail d p) s = ensured (omega arith)
  step-Nearer fresh (clear_head d p) s = ensured (omega arith)
  step-Nearer fresh (advance_head d p) s = loaded s.head s _ λ n. ensured (omega arith)
  step-Nearer fresh (free_dummy d p) s = loaded p s _ λ n. ensured (omega arith)
  step-Nearer fresh (allocate d) s = elim (Bool-cases (fresh == null)) [
    | inl e ↦ rw e (ensured (omega arith))
    | inr e ↦ rw e (ensured (omega arith))
  ]
  step-Nearer fresh (check_tail p) s = elim (Bool-cases (s.tail == null)) [
    | inl e ↦ rw e (ensured (omega arith))
    | inr e ↦ rw e (ensured (omega arith))
  ]
  step-Nearer fresh (set_tail p) s = ensured (omega arith)
  step-Nearer fresh (set_head p) s = ensured (omega arith)
  step-Nearer fresh (link_last p) s = loaded s.tail s _ λ n. ensured (omega arith)
  step-Nearer fresh advance_tail s = loaded s.tail s _ λ n. ensured (omega arith)
  step-Nearer fresh (returned r o) s = ensured (omega arith)

-- The turns of the thread `i` in a schedule.
abbrev pub spent : (i j : Who) → ℕ
spent connmgr connmgr = 1
spent datamgr datamgr = 1
spent stormgr stormgr = 1
spent i j = 0

abbrev pub turns : Who → List (Who × Ptr) → ℕ
turns i [] = 0
turns i ((j, fresh) ∷ is) = spent i j + turns i is

module _ {D : Type 0} where
  moved-Nearer :
      (s : System D) (i j : Who) (p : Pc D) (m : Shared D)
      → todo p ≤ todo (at s j) - 1
      → todo (at (moved s j p m) i) ≤ todo (at s i) - spent i j
  moved-Nearer s connmgr connmgr p m le = le
  moved-Nearer s connmgr datamgr p m le = omega arith
  moved-Nearer s connmgr stormgr p m le = omega arith
  moved-Nearer s datamgr connmgr p m le = omega arith
  moved-Nearer s datamgr datamgr p m le = le
  moved-Nearer s datamgr stormgr p m le = omega arith
  moved-Nearer s stormgr connmgr p m le = omega arith
  moved-Nearer s stormgr datamgr p m le = omega arith
  moved-Nearer s stormgr stormgr p m le = le

  turned-Nearer :
      (s : System D) (i j : Who) (r : Run (Shared D) (Pc D))
      → Ensures (λ q t. todo q ≤ todo (at s j) - 1) r
      → Ensures
          (λ _ t. todo (at t i) ≤ todo (at s i) - spent i j)
          (and_then (resume (λ m. record s { mem = m }) r) λ p t. ok tt (moved s j p t.mem))
  turned-Nearer s i j (ok p m) (ensured le) = ensured (moved-Nearer s i j p m le)
  turned-Nearer s i j (fault e) kept = failed
  turned-Nearer s i j out_of_fuel kept = hung

  run-Nearer :
      (is : List (Who × Ptr)) (s : System D) (i : Who)
      → Ensures (λ _ t. todo (at t i) ≤ todo (at s i) - turns i is) (run is s)
  unfolding run turn
  run-Nearer [] s i = ensured (omega arith)
  run-Nearer ((j, fresh) ∷ is) s i =
      Returns.ensures_bind
        (turned-Nearer s i j (step fresh (at s j) s.mem) (step-Nearer fresh (at s j) s.mem))
        λ x t le. Returns.ensures_mono (run-Nearer is t i) λ y u le'. omega arith

  done-HasReturned : (p : Pc D) → todo p ≡ 0 → HasReturned p
  done-HasReturned (returned r o) e = (r, o, refl)
  done-HasReturned p e = absurd (omega arith)

  -- However the statements of the three threads are interleaved, a removal returns within seven
  -- turns of its thread and an insertion within four, if the run has not failed by then: a thread
  -- that has had as many turns as it had statements left has returned.
  pub run-HasReturned :
      (is : List (Who × Ptr)) (s : System D) (i : Who)
      → todo (at s i) ≤ turns i is
      → Ensures (λ _ t. HasReturned (at t i)) (run is s)
  run-HasReturned is s i enough =
      Returns.ensures_mono (run-Nearer is s i) λ y t le. done-HasReturned (at t i) (omega arith)
