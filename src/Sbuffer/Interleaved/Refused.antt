-- ===== src/Sbuffer/Interleaved/Refused.antt =====
-- Why `sbuffer_insert` returns SBUFFER_FAILURE: only where `malloc` has answered NULL to it.
use btvnlinux.Prelude.{◌≡◌, refl, ◌⊎◌, inl, inr, ◌==◌, Bool-cases, arith}
use btvnlinux.Memory.{Ptr, null, Run, ok, fault, out_of_fuel, and_then, resume}
use btvnlinux.Memory.Returns
use btvnlinux.Memory.Returns.{Ensures, ensured, failed, hung}
use btvnlinux.Sbuffer.{failure}
use btvnlinux.Sbuffer.Interleaved.{
  Shared, Pc, check_head, copy_data, keep_head, compare_ends, clear_tail, clear_head, advance_head,
  free_dummy, allocate, check_tail, set_tail, set_head, link_last, advance_tail, returned, step,
  System, Who, connmgr, datamgr, stormgr, turn, moved, at, Reach, start, later,
}
use btvnlinux.Sbuffer.Interleaved.Ends.{loaded}

module _ {D : Type 0} where
  -- A call that has returned SBUFFER_FAILURE, and one that is about to call `malloc`.
  abbrev pub HasFailed : Pc D → Type 0
  HasFailed (returned failure o) = Unit {0}
  HasFailed p = ⊥

  abbrev pub Allocates : Pc D → Type 0
  Allocates (allocate d) = Unit {0}
  Allocates p = ⊥

  -- `malloc` has answered NULL to the thread that inserts, on the way to this state.
  abbrev pub Refused : {s t : System D} → Reach s t → Type 0
  Refused start = ⊥
  Refused (later {t} reach i fresh room e) =
      ((i ≡ connmgr) × (fresh ≡ null) × Allocates t.inserter) ⊎ Refused reach

  abbrev Blamed : Ptr → Pc D → Pc D → Type 0
  Blamed fresh p q = HasFailed q → HasFailed p ⊎ ((fresh ≡ null) × Allocates p)

  step-Blamed :
      (fresh : Ptr) (p : Pc D) (s : Shared D) → Ensures (λ q t. Blamed fresh p q) (step fresh p s)
  unfolding step
  step-Blamed fresh check_head s = elim (Bool-cases (s.head == null)) [
    | inl e ↦ rw e (ensured λ no. absurd no)
    | inr e ↦ rw e (ensured λ no. absurd no)
  ]
  step-Blamed fresh copy_data s = loaded s.head s _ λ n. ensured λ no. absurd no
  step-Blamed fresh (keep_head d) s = ensured λ no. absurd no
  step-Blamed fresh (compare_ends d p) s = elim (Bool-cases (s.head == s.tail)) [
    | inl e ↦ rw e (ensured λ no. absurd no)
    | inr e ↦ rw e (ensured λ no. absurd no)
  ]
  step-Blamed fresh (clear_tail d p) s = ensured λ no. absurd no
  step-Blamed fresh (clear_head d p) s = ensured λ no. absurd no
  step-Blamed fresh (advance_head d p) s = loaded s.head s _ λ n. ensured λ no. absurd no
  step-Blamed fresh (free_dummy d p) s = loaded p s _ λ n. ensured λ no. absurd no
  step-Blamed fresh (allocate d) s = elim (Bool-cases (fresh == null)) [
    | inl e ↦ rw e (ensured λ bad. inr (ground arith, tt))
    | inr e ↦ rw e (ensured λ no. absurd no)
  ]
  step-Blamed fresh (check_tail p) s = elim (Bool-cases (s.tail == null)) [
    | inl e ↦ rw e (ensured λ no. absurd no)
    | inr e ↦ rw e (ensured λ no. absurd no)
  ]
  step-Blamed fresh (set_tail p) s = ensured λ no. absurd no
  step-Blamed fresh (set_head p) s = ensured λ no. absurd no
  step-Blamed fresh (link_last p) s = loaded s.tail s _ λ n. ensured λ no. absurd no
  step-Blamed fresh advance_tail s = loaded s.tail s _ λ n. ensured λ no. absurd no
  step-Blamed fresh (returned r o) s = ensured λ bad. inl bad

  -- The same for a turn.
  abbrev BlamedTurn : Who → Ptr → System D → System D → Type 0
  BlamedTurn i fresh s t =
      HasFailed t.inserter
      → HasFailed s.inserter ⊎ ((i ≡ connmgr) × (fresh ≡ null) × Allocates s.inserter)

  moved-Blamed :
      (i : Who) (fresh : Ptr) (s : System D) (q : Pc D) (m : Shared D)
      → Blamed fresh (at s i) q
      → BlamedTurn i fresh s (moved s i q m)
  moved-Blamed connmgr fresh s q m blamed bad = elim (blamed bad) [
    | inl before ↦ inl before
    | inr (nil, at_malloc) ↦ inr (refl, nil, at_malloc)
  ]
  moved-Blamed datamgr fresh s q m blamed bad = inl bad
  moved-Blamed stormgr fresh s q m blamed bad = inl bad

  turned-Blamed :
      (i : Who) (fresh : Ptr) (s : System D) (r : Run (Shared D) (Pc D))
      → Ensures (λ q t. Blamed fresh (at s i) q) r
      → Ensures
          (λ _ t. BlamedTurn i fresh s t)
          (and_then (resume (λ m. record s { mem = m }) r) λ q t. ok tt (moved s i q t.mem))
  turned-Blamed i fresh s (ok q m) (ensured blamed) = ensured (moved-Blamed i fresh s q m blamed)
  turned-Blamed i fresh s (fault f) kept = failed
  turned-Blamed i fresh s out_of_fuel kept = hung

  pub turn-Blamed :
      (i : Who) (fresh : Ptr) (s t : System D) → turn i fresh s ≡ ok tt t → BlamedTurn i fresh s t
  unfolding turn
  turn-Blamed i fresh s t e =
      Returns.ensures_holds
        (turned-Blamed i fresh s (step fresh (at s i) s.mem) (step-Blamed fresh (at s i) s.mem)) e

  -- An insertion that had not failed at first has failed because `malloc` answered NULL to it.
  pub reach-Refused :
      {s t : System D} (reach : Reach s t)
      → (HasFailed s.inserter → ⊥)
      → HasFailed t.inserter
      → Refused reach
  reach-Refused start good bad = good bad
  reach-Refused (later {t} {u} reach i fresh room e) good bad =
      elim (turn-Blamed i fresh t u e bad) [
        | inl before ↦ inr (reach-Refused reach good before)
        | inr now ↦ inl now
      ]
