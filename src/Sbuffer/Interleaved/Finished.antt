-- ===== src/Sbuffer/Interleaved/Finished.antt =====
-- What a removal and an insertion leave that overlap on a buffer of two readings or more.
use btvnlinux.Prelude.{◌≡◌, refl, ◌≢◌, sym, ◌∙◌, true, Option, none, some, [], ◌∷◌, ◌++◌, arith}
use mathlib.Core.Path.{subst}
use btvnlinux.Memory.{Ptr, null, Heap, ok}
use btvnlinux.Memory.Cells.{Cells, last_or, has, ◌∉◌, last_or-append}
use btvnlinux.Memory.Returns
use btvnlinux.Sbuffer.{Node, Sbuffer, sbuffer, Status, failure, success}
use btvnlinux.Sbuffer.Queue.{IsBuffer, last-object}
use btvnlinux.Sbuffer.Interleaved.{Shared, Pc, check_head, allocate, returned, System, Who, turn}
use btvnlinux.Sbuffer.Interleaved.{Reach}
use btvnlinux.Sbuffer.Interleaved.Alone.{shared}
use btvnlinux.Sbuffer.Interleaved.Layout.{
  Inserting, starting, filled, linking, linked, inserted, refused, Removing, checking, copying,
  keeping, comparing, advancing, freeing, removed,
}
use btvnlinux.Sbuffer.Interleaved.Refused.{HasFailed, Refused, reach-Refused}
use btvnlinux.Sbuffer.Interleaved.Disjoint.{Overlap, turn-Overlap, Reach-Overlap}

module _ {D : Type 0} (a : Ptr) (d : D) (c : Ptr) (e : D) (cs : Cells D) (x : D) where
  -- A removal that has returned, and an insertion that has.
  abbrev AtRemoved : Ptr → Pc D → Cells D → Type 0
  AtRemoved head (returned r o) taken = (r ≡ success) × (o ≡ some d) × (head ≡ c) × (taken ≡ [])
  AtRemoved head p taken = Unit {0}

  at_removed :
      (head : Ptr) (p : Pc D) (taken : Cells D)
      → Removing a d c e cs x head p taken
      → AtRemoved head p taken
  at_removed head _ _ (checking h) = tt
  at_removed head _ _ (copying h) = tt
  at_removed head _ _ (keeping h) = tt
  at_removed head _ _ (comparing h) = tt
  at_removed head _ _ (advancing h) = tt
  at_removed head _ _ (freeing h) = tt
  at_removed head _ _ (removed h) = (refl, refl, h, refl)

  -- The list that an insertion leaves, by the code that it returns.
  pub data Left (tail : Ptr) : Status → Cells D → Type 0 where
    longer : (p : Ptr) → tail ≡ p → Left tail success ((c, e) ∷ cs ++ (p, x) ∷ [])
    same : tail ≡ last_or c cs → Left tail failure ((c, e) ∷ cs)

  abbrev AtInserted : Ptr → Pc D → Cells D → Cells D → Type 0
  AtInserted tail (returned r o) chain own = (o ≡ none) × (own ≡ []) × Left tail r chain
  AtInserted tail p chain own = Unit {0}

  at_inserted :
      (tail : Ptr) (p : Pc D) (chain own : Cells D)
      → Inserting a d c e cs x tail p chain own
      → AtInserted tail p chain own
  at_inserted tail _ _ _ (starting t) = tt
  at_inserted tail _ _ _ (filled p t) = tt
  at_inserted tail _ _ _ (linking p t) = tt
  at_inserted tail _ _ _ (linked p t) = tt
  at_inserted tail _ _ _ (inserted p t) = (refl, refl, longer p t)
  at_inserted tail _ _ _ (refused t) = (refl, refl, same t)

  -- What the calls leave once both have returned: the removal has handed out the first reading, and
  -- the new one stands behind the others, or there was no storage for it, which is `Full`.
  abbrev pub Finished : (Full : Type 0) → System D → Type 0
  Finished Full s =
      (r q : Status) (o v : Option D)
      → s.reader ≡ returned r o
      → s.inserter ≡ returned q v
      → (r ≡ success)
        × (o ≡ some d)
        × (v ≡ none)
        × (q ≡ failure → Full)
        × (chain : Cells D) × Left s.mem.tail q chain
        × IsBuffer s.mem.nodes (sbuffer s.mem.head s.mem.tail) chain

  Left-tail :
      (tail : Ptr) (q : Status) (chain : Cells D) → Left tail q chain → tail ≡ last_or null chain
  Left-tail tail _ _ (longer p t) = t ∙ sym (last_or-append c p x cs)
  Left-tail tail _ _ (same t) = t

  pub Overlap-Finished :
      (Full : Type 0) (s : System D)
      → (HasFailed s.inserter → Full)
      → Overlap a d c e cs x s
      → Finished Full s
  Overlap-Finished Full s full o r q v w er ei =
      let (r_ok, v_ok, at_front, no_taken) =
        subst (λ p. AtRemoved s.mem.head p o.taken) er
          (at_removed s.mem.head s.reader o.taken o.removing) in
      let (no_w, no_own, left) =
        subst (λ p. AtInserted s.mem.tail p o.chain o.own) ei
          (at_inserted s.mem.tail s.inserter o.chain o.own o.inserting) in
      (
        r_ok,
        v_ok,
        no_w,
        λ eq. full (rw (ei, eq) tt),
        o.chain,
        left,
        record {
          head = at_front ∙ sym o.layout.front;
          tail = Left-tail s.mem.tail q o.chain left;
          chain = o.layout.chained;
          owned = λ y out. o.layout.others y out (rw no_own refl) (rw no_taken refl);
        },
      )

  -- A removal and an insertion begin; the storage manager runs neither.
  abbrev pub one_each : Shared D → Status → Option D → System D
  one_each m r o = record {
    mem = m;
    inserter = allocate x;
    reader = check_head;
    storer = returned r o;
  }

  not-mem-cons : (y : Ptr) → y ∉ ((c, e) ∷ cs) → y ∉ ((a, d) ∷ []) → y ∉ ((a, d) ∷ (c, e) ∷ cs)
  not-mem-cons y out q = ground arith

  pub begun :
      (h : Heap (Node D)) (b : Sbuffer) (r : Status) (o : Option D)
      → IsBuffer h b ((a, d) ∷ (c, e) ∷ cs)
      → Overlap a d c e cs x (one_each (shared b h) r o)
  begun h b r o is =
      let (ne, at_a, apart, ch) = is.chain in
      let (f, at_last, ne_last, inside) = last-object h c e cs ch in
      record {
        chain = (c, e) ∷ cs;
        own = [];
        taken = (a, d) ∷ [];
        inserting = starting is.tail;
        removing = checking is.head;
        idle = (r, o, refl);
        layout = record {
          chained = ch;
          front = refl;
          ends = subst (λ l. has l ((c, e) ∷ cs) ≡ true) (sym is.tail) inside;
          private = tt;
          gone = (ne, at_a, apart, refl, refl);
          others = λ y out own q. is.owned y (not-mem-cons y out q);
        };
      }

  -- A removal and an insertion that overlap on a buffer of two readings or more, in any order of
  -- their statements: every turn goes through without a fault, and once both calls have returned the
  -- first reading is handed out, and the buffer is linked as it should be and holds the others, with
  -- the new one behind them; or the insertion has returned SBUFFER_FAILURE, which is only where
  -- `malloc` has answered NULL to it, and the buffer holds the others alone. The condition is that
  -- `malloc` returns NULL or the address of no node in use; that may be the address of the node just
  -- freed.
  pub one_each-Safe :
      (h : Heap (Node D)) (b : Sbuffer) (r : Status) (o : Option D) (t : System D)
      → IsBuffer h b ((a, d) ∷ (c, e) ∷ cs)
      → (reach : Reach (one_each (shared b h) r o) t)
      → Finished (Refused reach) t
        × ((i : Who) (fresh : Ptr)
            → (fresh ≢ null → t.mem.nodes fresh ≡ none)
            → (u : System D) × (turn i fresh t ≡ ok tt u))
  one_each-Safe h b r o t is reach =
      let overlap = Reach-Overlap a d c e cs x (begun h b r o is) reach in
      (
        Overlap-Finished (Refused reach) t (reach-Refused reach λ no. no) overlap,
        λ i fresh room.
            let (v, u, ran, ou) =
              Returns.outcome (turn-Overlap a d c e cs x t i fresh room overlap) in
            (u, ran),
      )
