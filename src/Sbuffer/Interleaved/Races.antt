-- ===== src/Sbuffer/Interleaved/Races.antt =====
-- What goes wrong when two users of the shared buffer overlap.
use btvnlinux.Prelude.{
  ◌≡◌, refl, ◌≢◌, none, some, List, [], ◌∷◌, ◌++◌, inl, inr, ◌==◌, if◌then◌else◌, Bool-cases, arith,
  replicate, ==_refl, ==_false, sym, ◌∙◌, false,
}
use btvnlinux.Memory.{Ptr, null, Heap, ok, fault, Fault, write}
use btvnlinux.Memory.Cells.{Cells, first, last_or, ne_of_has, not-mem-head, write_ne, write_self}
use btvnlinux.Sbuffer.{Node, node, Sbuffer, sbuffer, success}
use btvnlinux.Memory.Returns.{Returns, returns}
use btvnlinux.Sbuffer.Queue.{IsBuffer, last-object}
use btvnlinux.Sbuffer.Interleaved.{
  Shared, Pc, check_head, compare_ends, allocate, returned, step, System, Who, connmgr, datamgr,
  stormgr, turn, run,
}
use btvnlinux.Sbuffer.Interleaved.Alone.{shared}

-- Both readers begin a removal; `p` is where the connection manager is.
abbrev pub both_read : {D : Type 0} → Pc D → Shared D → System D
both_read p m = record { mem = m; inserter = p; reader = check_head; storer = check_head }

-- The connection manager and the data manager; `p` is where the storage manager is.
abbrev pub one_reads : {D : Type 0} → Pc D → Pc D → Shared D → System D
one_reads p q m = record { mem = m; inserter = q; reader = check_head; storer = p }

-- Both have read the head, and the data manager has gone on to the end.
abbrev pub overlapped : List (Who × Ptr)
overlapped =
    replicate 3 (datamgr, null) ++ replicate 3 (stormgr, null) ++ replicate 4 (datamgr, null)

-- Four statements of a removal, an insertion, and the rest of the removal.
abbrev pub between : (fresh : Ptr) → List (Who × Ptr)
between fresh =
    replicate 4 (datamgr, null) ++ replicate 4 (connmgr, fresh) ++ replicate 3 (datamgr, null)

module _ {D : Type 0} where
  -- Each reader has the reading.
  overlapped-both :
      (p : Pc D) (h : Heap (Node D)) (a q l : Ptr) (d : D)
      → a ≢ null
      → h a ≡ some (node q d)
      → run overlapped (both_read p (shared (sbuffer a l) h))
        ≡ ok tt (record {
          mem = shared (if a == l then sbuffer null null else sbuffer q l) (write h a none);
          inserter = p;
          reader = returned success (some d);
          storer = compare_ends d a;
        })
  unfolding run turn step
  overlapped-both p h a q l d ne at = ground (arith)

  -- The other reader frees the node again.
  freed_again :
      (s : System D) (a : Ptr) (d : D) (n : Node D)
      → s.storer ≡ compare_ends d a
      → s.mem.nodes a ≡ none
      → (s.mem.head ≢ s.mem.tail → (s.mem.head ≢ null) × (s.mem.nodes s.mem.head ≡ some n))
      → run (replicate 4 (stormgr, null)) s ≡ fault Fault.segfault
  unfolding run turn step
  freed_again s a d n e gone rest = elim (Bool-cases (s.mem.head == s.mem.tail)) [
    | inl one ↦ ground (arith)
    | inr many ↦ let (ne, at) = rest (ground arith) in ground arith
  ]

  -- Two readers of a buffer that holds a reading, at their first statements: in this order of turns
  -- both take the first reading, and the second to free its node frees what is free already.
  pub both_remove-crash :
      (p : Pc D) (h : Heap (Node D)) (b : Sbuffer) (a : Ptr) (d : D) (cs : Cells D)
      → IsBuffer h b ((a, d) ∷ cs)
      → Returns
          (λ _ t.
            (t.reader ≡ returned success (some d))
            × (t.storer ≡ compare_ends d a)
            × (run (replicate 4 (stormgr, null)) t ≡ fault Fault.segfault))
          (run overlapped (both_read p (shared b h)))
  both_remove-crash p h b a d [] is =
      let (ne, at, apart, ch) = is.chain in
      rw (is.head, is.tail, overlapped-both p h a null a d ne at, ==_refl a)
        (returns (
          refl,
          refl,
          freed_again _ a d (node null d) refl (write_self h a none)
              (λ apart_ends. absurd (apart_ends refl)),
        ))
  both_remove-crash p h b a d ((c, e) ∷ cs) is =
      let (ne, at, apart, ch) = is.chain in
      let (nc, atc, apartc, chc) = ch in
      let (f, atl, nl, inside) = last-object h c e cs ch in
      let many : (a == b.tail) ≡ false =
        rw is.tail (==_false (ne_of_has a (last_or c cs) ((c, e) ∷ cs) apart inside)) in
      rw (is.head, overlapped-both p h a c b.tail d ne at, many)
        (returns (
          refl,
          refl,
          freed_again _ a d (node (first cs) e) refl (write_self h a none) (λ apart_ends.
              (nc, write_ne h c a none (λ q. not-mem-head a c e cs apart (sym q)) ∙ atc)),
        ))

  -- An insertion into a buffer that holds one reading, overtaken by its removal: the last node is
  -- gone when the insertion links the new one behind it.
  pub insert_remove-crash :
      (p : Pc D) (h : Heap (Node D)) (b : Sbuffer) (a fresh : Ptr) (d e : D)
      → fresh ≢ null
      → h fresh ≡ none
      → IsBuffer h b ((a, d) ∷ [])
      → run
          ((connmgr, fresh) ∷ (connmgr, null) ∷ replicate 7 (datamgr, null) ++ (connmgr, null) ∷ [])
          (one_reads p (allocate e) (shared b h))
        ≡ fault Fault.segfault
  unfolding run turn step
  insert_remove-crash p h b a fresh d e nf unused is =
      let (ne, at, apart, ch) = is.chain in rw (is.head, is.tail) (ground arith)

  between_lem :
      (p : Pc D) (h : Heap (Node D)) (a fresh : Ptr) (d e : D)
      → fresh ≢ null
      → h fresh ≡ none
      → a ≢ null
      → h a ≡ some (node null d)
      → run (between fresh) (one_reads p (allocate e) (shared (sbuffer a a) h))
        ≡ ok tt (record {
          mem =
              shared
                (sbuffer null null)
                (write (write (write h fresh (some (node null e))) a (some (node fresh d))) a none);
          inserter = returned success none;
          reader = returned success (some d);
          storer = p;
        })
  unfolding run turn step
  between_lem p h a fresh d e nf unused ne at = ground arith

  -- An insertion that comes between the test and the assignments of a removal of the only reading:
  -- both calls succeed, the buffer is empty behind them, and the new reading is in a node that
  -- nothing points to.
  pub insert-lost :
      (p : Pc D) (h : Heap (Node D)) (b : Sbuffer) (a fresh : Ptr) (d e : D)
      → fresh ≢ null
      → h fresh ≡ none
      → IsBuffer h b ((a, d) ∷ [])
      → Returns
          (λ _ t.
            (t.inserter ≡ returned success none)
            × (t.reader ≡ returned success (some d))
            × (t.mem.head ≡ null)
            × (t.mem.tail ≡ null)
            × (t.mem.nodes fresh ≡ some (node null e)))
          (run (between fresh) (one_reads p (allocate e) (shared b h)))
  insert-lost p h b a fresh d e nf unused is =
      let (ne, at, apart, ch) = is.chain in
      rw (is.head, is.tail, between_lem p h a fresh d e nf unused ne at)
        (returns (refl, refl, refl, refl, ground arith))
