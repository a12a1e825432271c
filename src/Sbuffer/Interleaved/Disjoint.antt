-- ===== src/Sbuffer/Interleaved/Disjoint.antt =====
-- A removal and an insertion that overlap on a buffer of two readings or more do not disturb each
-- other, however their statements are interleaved.
use btvnlinux.Prelude.{
  ◌≡◌, refl, ◌≢◌, sym, false, Option, none, some, inl, inr, [], ◌==◌, Bool-cases, arith, ==_false,
}
use mathlib.Core.Path.{subst}
use btvnlinux.Memory.{Ptr, null}
use btvnlinux.Memory.Cells.{Cells, ne_of_has}
use btvnlinux.Memory.Returns
use btvnlinux.Memory.Returns.{Returns, returns}
use btvnlinux.Sbuffer.{node, Status}
use btvnlinux.Sbuffer.Interleaved.{
  Shared, Pc, returned, step, System, Who, connmgr, datamgr, stormgr, turn,
}
use btvnlinux.Sbuffer.Interleaved.{Reach, start, later}
use btvnlinux.Sbuffer.Interleaved.Layout.{
  Inserting, starting, filled, linking, linked, inserted, refused, Removing, checking, copying,
  keeping, comparing, advancing, freeing, removed, Layout, freed, allocated, end_of, linked_up,
  link_of, advanced,
}

module _ {D : Type 0} (a : Ptr) (d : D) (c : Ptr) (e : D) (cs : Cells D) (x : D) where
  -- A statement of the removal.
  abbrev Removes : Shared D → Cells D → Cells D → Pc D → Shared D → Type 0
  Removes m chain own q n =
      (taken : Cells D) × Removing a d c e cs x n.head q taken
      × Layout a d c e cs x n.nodes n.tail chain own taken
      × (n.tail ≡ m.tail)

  step-Removes :
      (fresh : Ptr) (m : Shared D) (chain own taken : Cells D) (p : Pc D)
      → Layout a d c e cs x m.nodes m.tail chain own taken
      → Removing a d c e cs x m.head p taken
      → Returns (Removes m chain own) (step fresh p m)
  unfolding step
  step-Removes fresh m chain own taken _ lay (checking e) =
      rw (e, ==_false lay.gone.0) (returns (_, copying refl, lay, refl))
  step-Removes fresh m chain own taken _ lay (copying e) =
      rw (e, ==_false lay.gone.0, lay.gone.1) (returns (_, keeping refl, lay, refl))
  step-Removes fresh m chain own taken _ lay (keeping h) =
      rw h (returns (_, comparing refl, lay, refl))
  step-Removes fresh m chain own taken _ lay (comparing h) =
      let many : (a == m.tail) ≡ false = ==_false (ne_of_has a m.tail chain lay.gone.2 lay.ends) in
      rw (h, many) (returns (_, advancing refl, lay, refl))
  step-Removes fresh m chain own taken _ lay (advancing h) =
      rw (h, ==_false lay.gone.0, lay.gone.1) (returns (_, freeing refl, lay, refl))
  step-Removes fresh m chain own taken _ lay (freeing h) =
      rw (==_false lay.gone.0, lay.gone.1)
        (returns ([], removed h, freed a d c e cs x m.nodes m.tail chain own lay, refl))
  step-Removes fresh m chain own taken _ lay (removed h) = returns (_, removed h, lay, refl)

  -- A statement of the insertion.
  abbrev Inserts : Shared D → Cells D → Pc D → Shared D → Type 0
  Inserts m taken q n =
      (chain : Cells D) × (own : Cells D) × Inserting a d c e cs x n.tail q chain own
      × Layout a d c e cs x n.nodes n.tail chain own taken
      × (n.head ≡ m.head)

  step-Inserts :
      (fresh : Ptr) (m : Shared D) (chain own taken : Cells D) (p : Pc D)
      → (fresh ≢ null → m.nodes fresh ≡ none)
      → Layout a d c e cs x m.nodes m.tail chain own taken
      → Inserting a d c e cs x m.tail p chain own
      → Returns (Inserts m taken) (step fresh p m)
  unfolding step
  step-Inserts fresh m _ _ taken _ room lay (starting t) = elim (Bool-cases (fresh == null)) [
    | inl full ↦ rw full (returns (_, _, refused t, lay, refl))
    | inr some_room ↦ rw some_room (
        returns (
          _,
          _,
          filled fresh t,
          allocated a d c e cs x m.nodes m.tail fresh taken (ground arith) (room (ground arith))
              lay,
          refl,
        ))
  ]
  step-Inserts fresh m _ _ taken _ room lay (filled p t) =
      let (f, at_tail, ne, inside) = end_of a d c e cs x m.nodes m.tail t lay.chained in
      rw (==_false ne) (returns (_, _, linking p t, lay, refl))
  step-Inserts fresh m _ _ taken _ room lay (linking p t) =
      let (f, at_tail, ne, inside) = end_of a d c e cs x m.nodes m.tail t lay.chained in
      rw (==_false ne, at_tail)
        (returns (
          _,
          _,
          linked p t,
          linked_up a d c e cs x m.nodes m.tail p f taken t at_tail inside lay,
          refl,
        ))
  step-Inserts fresh m _ _ taken _ room lay (linked p t) =
      let (f, at_end, ne_end) = link_of a d c e cs x m.nodes c e cs p lay.chained in
      let at_tail : m.nodes m.tail ≡ some (node p f) = rw t at_end in
      let ne : m.tail ≢ null = rw t ne_end in
      rw (==_false ne, at_tail)
        (returns (_, _, inserted p refl, advanced a d c e cs x m.nodes m.tail p taken lay, refl))
  step-Inserts fresh m _ _ taken _ room lay (inserted p t) = returns (_, _, inserted p t, lay, refl)
  step-Inserts fresh m _ _ taken _ room lay (refused t) = returns (_, _, refused t, lay, refl)

  pub record Overlap (s : System D) : Type 0 where
    pub chain : Cells D
    pub own : Cells D
    pub taken : Cells D
    pub inserting : Inserting a d c e cs x s.mem.tail s.inserter chain own
    pub removing : Removing a d c e cs x s.mem.head s.reader taken
    pub idle : (r : Status) × (o : Option D) × (s.storer ≡ returned r o)
    pub layout : Layout a d c e cs x s.mem.nodes s.mem.tail chain own taken

  -- Whose turn it is, it goes through.
  pub turn-Overlap :
      (s : System D) (i : Who) (fresh : Ptr)
      → (fresh ≢ null → s.mem.nodes fresh ≡ none)
      → Overlap s
      → Returns (λ _ t. Overlap t) (turn i fresh s)
  unfolding turn
  turn-Overlap s connmgr fresh room o =
      Returns.bind
        (Returns.resumed (λ m. record s { mem = m })
          (step-Inserts fresh s.mem o.chain o.own o.taken s.inserter room o.layout o.inserting))
        λ p t (m, et, (chain, own, ins, lay, same)). rw et (
          returns (record {
            chain = chain;
            own = own;
            taken = o.taken;
            inserting = ins;
            removing = subst (λ h. Removing a d c e cs x h s.reader o.taken) (sym same) o.removing;
            idle = o.idle;
            layout = lay;
          }))
  turn-Overlap s datamgr fresh room o =
      Returns.bind
        (Returns.resumed (λ m. record s { mem = m })
          (step-Removes fresh s.mem o.chain o.own o.taken s.reader o.layout o.removing))
        λ p t (m, et, (taken, rem, lay, same)). rw et (
          returns (record {
            chain = o.chain;
            own = o.own;
            taken = taken;
            inserting =
                subst (λ l. Inserting a d c e cs x l s.inserter o.chain o.own) (sym same)
                  o.inserting;
            removing = rem;
            idle = o.idle;
            layout = lay;
          }))
  turn-Overlap s stormgr fresh room o =
      let (r, v, es) = o.idle in
      rw es (
        returns (record {
          chain = o.chain;
          own = o.own;
          taken = o.taken;
          inserting = o.inserting;
          removing = o.removing;
          idle = (r, v, refl);
          layout = o.layout;
        }))

  pub Reach-Overlap : {s t : System D} → Overlap s → Reach s t → Overlap t
  Reach-Overlap o start = o
  Reach-Overlap o (later r i fresh room e) =
      Returns.holds (turn-Overlap _ i fresh room (Reach-Overlap o r)) e
