-- ===== src/Sbuffer/Interleaved/Completed.antt =====
-- A removal and an insertion that overlap on a buffer of two readings or more: that both return.
use btvnlinux.Prelude.{◌≤◌, ◌≡◌, refl, ◌≢◌, inl, inr, Option, none, some, List, [], ◌∷◌, ◌++◌}
use mathlib.Core.Path.{subst}
use btvnlinux.Memory.{Ptr, null, Heap, Run, ok, fault, out_of_fuel}
use btvnlinux.Memory.Cells.{Cells}
use btvnlinux.Memory.Returns
use btvnlinux.Memory.Returns.{Returns, returns}
use btvnlinux.Sbuffer.{Node, Sbuffer, sbuffer, Status, success, failure}
use btvnlinux.Sbuffer.Queue.{IsBuffer}
use btvnlinux.Sbuffer.Interleaved.{returned, System, Who, connmgr, datamgr, turn, run}
use btvnlinux.Sbuffer.Interleaved.Alone.{shared}
use btvnlinux.Sbuffer.Interleaved.Disjoint.{Overlap, turn-Overlap}
use btvnlinux.Sbuffer.Interleaved.Ends.{turns, run-HasReturned}
use btvnlinux.Sbuffer.Interleaved.Finished.{Left, longer, same, one_each, begun, Overlap-Finished}
use btvnlinux.Sbuffer.Interleaved.Refused.{HasFailed, turn-Blamed}

-- What holds behind a run that returns.
abbrev pub After : {S A : Type 0} → (S → Type 0) → Run S A → Type 0
After Q (ok a s) = Q s
After Q (fault e) = Unit {0}
After Q out_of_fuel = Unit {0}

-- At every turn `malloc` would return the address of no node in use, and not NULL.
abbrev pub HasRoom : {D : Type 0} → List (Who × Ptr) → System D → Type 0
HasRoom [] s = Unit {0}
HasRoom ((i, fresh) ∷ is) s =
    (fresh ≢ null) × (s.mem.nodes fresh ≡ none) × After (HasRoom is) (turn i fresh s)

module _ {D : Type 0} (a : Ptr) (d : D) (c : Ptr) (e : D) (cs : Cells D) (x : D) where
  follow :
      (is : List (Who × Ptr)) (s : System D)
      → Overlap a d c e cs x s
      → (HasFailed s.inserter → ⊥)
      → HasRoom is s
      → Returns (λ _ t. Overlap a d c e cs x t × (HasFailed t.inserter → ⊥)) (run is s)
  unfolding run
  follow [] s o good room = returns (o, good)
  follow ((i, fresh) ∷ is) s o good (ne, unused, more) =
      let (v, t, ran, ot) = Returns.outcome (turn-Overlap a d c e cs x s i fresh (λ n. unused) o) in
      let good_t : HasFailed t.inserter → ⊥ = λ bad. elim (turn-Blamed i fresh s t ran bad) [
        | inl before ↦ good before
        | inr (who, nil, at_malloc) ↦ ne nil
      ] in
      rw ran (follow is t ot good_t (subst (λ r. After (HasRoom is) r) ran more))

  -- Both calls have returned: the first reading is handed out, and the buffer holds the others with
  -- the new one behind them.
  abbrev pub Completed : System D → Type 0
  Completed t =
      (t.reader ≡ returned success (some d))
      × (t.inserter ≡ returned success none)
      × (p : Ptr) × IsBuffer t.mem.nodes (sbuffer t.mem.head t.mem.tail)
          ((c, e) ∷ cs ++ (p, x) ∷ [])

  Left-longer :
      (tail : Ptr) (q : Status) (chain : Cells D)
      → Left a d c e cs x tail q chain
      → (q ≡ failure → ⊥)
      → (q ≡ success) × (p : Ptr) × (chain ≡ (c, e) ∷ cs ++ (p, x) ∷ [])
  Left-longer tail _ _ (longer p t) good = (refl, p, refl)
  Left-longer tail _ _ (same t) good = absurd (good refl)

  completed :
      (t : System D) (r q : Status) (o v : Option D)
      → Overlap a d c e cs x t
      → (HasFailed t.inserter → ⊥)
      → t.reader ≡ returned r o
      → t.inserter ≡ returned q v
      → Completed t
  completed t r q o v overlap good er ei =
      let (r_ok, o_ok, v_none, not_failed, chain, left, linked) =
        Overlap-Finished a d c e cs x ⊥ t good overlap r q o v er ei in
      let (q_ok, p, eq) = Left-longer t.mem.tail q chain left not_failed in
      (
        rw (er, r_ok, o_ok) refl,
        rw (ei, q_ok, v_none) refl,
        p,
        subst (λ ds. IsBuffer t.mem.nodes (sbuffer t.mem.head t.mem.tail) ds) eq linked,
      )

  -- A removal and an insertion that overlap on a buffer of two readings or more both return, in
  -- whatever order their statements come: where the schedule gives the reader seven turns and the
  -- inserter four, the whole run goes through without a fault, the first reading has been handed
  -- out, the insertion has succeeded, and the buffer is linked as it should be and holds the other
  -- readings with the new one behind them. The condition is that at each turn `malloc` would return
  -- an address, and that of no node in use.
  pub one_each-Completed :
      (h : Heap (Node D)) (b : Sbuffer) (r : Status) (o : Option D) (is : List (Who × Ptr))
      → IsBuffer h b ((a, d) ∷ (c, e) ∷ cs)
      → HasRoom is (one_each a d c e cs x (shared b h) r o)
      → 7 ≤ turns datamgr is
      → 4 ≤ turns connmgr is
      → Returns (λ _ t. Completed t) (run is (one_each a d c e cs x (shared b h) r o))
  one_each-Completed h b r o is linked room seven four =
      let s = one_each a d c e cs x (shared b h) r o in
      let (v, t, ran, (overlap, good)) =
        Returns.outcome (follow is s (begun a d c e cs x h b r o linked) (λ no. no) room) in
      let (r1, o1, er) = Returns.ensures_holds (run-HasReturned is s datamgr seven) ran in
      let (r2, o2, ei) = Returns.ensures_holds (run-HasReturned is s connmgr four) ran in
      rw ran (returns (completed t r1 r2 o1 o2 overlap good er ei))
