-- ===== src/Sbuffer/Step.antt =====
-- What each operation of the buffer does to the list of its nodes.
use btvnlinux.Prelude.{
  ℕ, zero, suc, ◌<◌, ◌≡◌, refl, ◌∙◌, ◌≢◌, true, false, Option, none, some, [], ◌∷◌, ◌++◌, arith,
  ◌==◌, ==_refl, ==_false, if◌then◌else◌, length, sym,
}
use btvnlinux.Memory.{Ptr, null, Heap, ok, write}
use btvnlinux.Memory.Cells.{
  Cells, first, last_or, ◌∉◌, last_or-append, ne_of_has, not-mem_of_snoc, write_ne, write_self,
}
use btvnlinux.Memory.Returns
use btvnlinux.Memory.Returns.{Returns, returns}
use btvnlinux.Sbuffer.{
  Node, node, Sbuffer, sbuffer, Status, success, no_data, load, store, free, free_loop, free_all,
  remove, insert,
}
use btvnlinux.Sbuffer.Queue.{IsChain, IsBuffer, IsChain-write, IsChain-link, last-object}

module _ {D : Type 0} where
  load-ok : (h : Heap (Node D)) (p : Ptr) (n : Node D) → p ≢ null → h p ≡ some n → load p h ≡ ok n h
  unfolding load
  load-ok h p n ne at = ground arith

  free-ok :
      (h : Heap (Node D)) (p : Ptr) (n : Node D)
      → p ≢ null
      → h p ≡ some n
      → free p h ≡ ok tt (write h p none)
  unfolding free store
  free-ok h p n ne at = rw (load-ok h p n ne at)

  -- A free address is that of no cell.
  pub not-mem_of_none :
      (h : Heap (Node D)) (a : Ptr) (cs : Cells D) → IsChain h cs → h a ≡ none → a ∉ cs
  not-mem_of_none h a [] ch e = refl
  not-mem_of_none h a ((b, d) ∷ cs) (ne, at, apart, ch) e = ground (arith, not-mem_of_none h a cs)

  -- The buffer that `insert` leaves: the old cells with a new one behind them.
  abbrev pub Inserted : Ptr → D → Cells D → Status × Option Sbuffer → Heap (Node D) → Type 0
  Inserted fresh d cs (s, b) g =
      (s ≡ success) × (q : Sbuffer) × (b ≡ some q) × IsBuffer g q (cs ++ (fresh, d) ∷ [])

  insert-empty :
      (h : Heap (Node D)) (fresh : Ptr) (d : D) (b : Sbuffer)
      → fresh ≢ null
      → b.tail ≡ null
      → insert fresh (some b) d h
        ≡ ok (success, some (sbuffer fresh fresh)) (write h fresh (some (node null d)))
  unfolding insert store
  insert-empty h fresh d b ne e = ground arith

  insert-nonempty :
      (h : Heap (Node D)) (fresh t : Ptr) (d f : D) (b : Sbuffer)
      → fresh ≢ null
      → b.tail ≡ t
      → t ≢ null
      → fresh ≢ t
      → h t ≡ some (node null f)
      → insert fresh (some b) d h
        ≡ ok
            (success, some (sbuffer b.head fresh))
            (write (write h fresh (some (node null d))) t (some (node fresh f)))
  unfolding insert store load
  insert-nonempty h fresh t d f b ne e nt apart at = ground arith

  -- With storage available, `sbuffer_insert` succeeds and puts the datum behind the others.
  pub insert-snoc :
      (h : Heap (Node D)) (fresh : Ptr) (d : D) (b : Sbuffer) (cs : Cells D)
      → fresh ≢ null
      → h fresh ≡ none
      → IsBuffer h b cs
      → Returns (Inserted fresh d cs) (insert fresh (some b) d h)
  insert-snoc h fresh d b [] ne unused is = rw (insert-empty h fresh d b ne is.tail) (
      returns (
        refl,
        sbuffer fresh fresh,
        refl,
        record {
          head = refl;
          tail = refl;
          chain = (ne, ground arith, refl, tt);
          owned = λ a out. write_ne h a fresh _ (ground arith) ∙ is.owned a refl;
        },
      ))
  insert-snoc h fresh d b ((a, e) ∷ cs) ne unused is =
      let out = not-mem_of_none h fresh ((a, e) ∷ cs) is.chain unused in
      let h' = write h fresh (some (node null d)) in
      let ch = IsChain-write h ((a, e) ∷ cs) fresh (some (node null d)) out is.chain in
      let (f, at, nl, inside) = last-object h a e cs is.chain in
      let apart = ne_of_has fresh (last_or a cs) ((a, e) ∷ cs) out inside in
      let at' = write_ne h (last_or a cs) fresh (some (node null d)) (λ q. apart (sym q)) ∙ at in
      rw (insert-nonempty h fresh (last_or a cs) d f b ne is.tail nl apart at) (
        returns (
          refl,
          sbuffer b.head fresh,
          refl,
          record {
            head = is.head;
            tail = sym (last_or-append a fresh d cs);
            chain =
                IsChain-link h' a fresh e d f cs ne out (write_self h fresh (some (node null d)))
                  at' ch;
            owned = λ p away.
                let (away', nf) = not-mem_of_snoc p fresh d ((a, e) ∷ cs) away in
                write_ne h' p (last_or a cs) _
                  (ne_of_has p (last_or a cs) ((a, e) ∷ cs) away' inside)
                ∙ write_ne h p fresh _ nf
                ∙ is.owned p away';
          },
        ))

  -- The buffer that `remove` leaves: the cells behind the first, with its datum handed out.
  abbrev pub Removed : D → Cells D → Status × Option D × Option Sbuffer → Heap (Node D) → Type 0
  Removed d cs (s, o, b) g =
      (s ≡ success) × (o ≡ some d) × (q : Sbuffer) × (b ≡ some q) × IsBuffer g q cs

  remove_lem :
      (h : Heap (Node D)) (p q : Ptr) (d : D) (b : Sbuffer)
      → b.head ≡ p
      → p ≢ null
      → h p ≡ some (node q d)
      → remove (some b) h
        ≡ ok
            (success, some d, some (if p == b.tail then sbuffer null null else sbuffer q b.tail))
            (write h p none)
  unfolding remove
  remove_lem h p q d b e ne at =
      ground (arith, load-ok h p (node q d) ne at, free-ok h p (node q d) ne at)

  -- Once the first cell is freed, the heap holds no node but those of the others.
  freed :
      (h : Heap (Node D)) (a : Ptr) (d : D) (cs : Cells D) (p : Ptr)
      → ((q : Ptr) → q ∉ ((a, d) ∷ cs) → h q ≡ none)
      → p ∉ cs
      → write h a none p ≡ none
  freed h a d cs p own out = ground (arith, own p)

  -- `sbuffer_remove` on a buffer that holds data hands out the first datum and frees its node.
  pub remove-cons :
      (h : Heap (Node D)) (a : Ptr) (d : D) (b : Sbuffer) (cs : Cells D)
      → IsBuffer h b ((a, d) ∷ cs)
      → Returns (Removed d cs) (remove (some b) h)
  remove-cons h a d b [] is =
      let (ne, at, apart, ch) = is.chain in
      let one : (a == b.tail) ≡ true = rw is.tail (==_refl a) in
      rw (remove_lem h a null d b is.head ne at, one)
        (returns (
          refl,
          refl,
          sbuffer null null,
          refl,
          record {
            head = refl;
            tail = refl;
            chain = tt;
            owned = λ p out. freed h a d [] p is.owned out;
          },
        ))
  remove-cons h a d b ((c, e) ∷ cs) is =
      let (ne, at, apart, ch) = is.chain in
      let (f, atl, nl, inside) = last-object h c e cs ch in
      let many : (a == b.tail) ≡ false =
        rw is.tail (==_false (ne_of_has a (last_or c cs) ((c, e) ∷ cs) apart inside)) in
      rw (remove_lem h a c d b is.head ne at, many)
        (returns (
          refl,
          refl,
          sbuffer c b.tail,
          refl,
          record {
            head = refl;
            tail = is.tail;
            chain = IsChain-write h ((c, e) ∷ cs) a none apart ch;
            owned = λ p out. freed h a d ((c, e) ∷ cs) p is.owned out;
          },
        ))

  -- On an empty buffer it says so and changes nothing.
  pub remove-nil :
      (h : Heap (Node D)) (b : Sbuffer)
      → IsBuffer h b []
      → remove (some b) h ≡ ok (no_data, none, some b) h
  unfolding remove
  remove-nil h b is = ground arith

  free_loop-empties :
      (h : Heap (Node D)) (k : ℕ) (p : Ptr) (cs : Cells D)
      → length cs < k
      → p ≡ first cs
      → IsChain h cs
      → ((a : Ptr) → a ∉ cs → h a ≡ none)
      → Returns (λ _ g. (a : Ptr) → g a ≡ none) (free_loop k p h)
  unfolding free_loop
  free_loop-empties h zero p cs lt e ch own = absurd (omega arith)
  free_loop-empties h (suc k) p [] lt e ch own = rw (e) (returns (λ a. own a refl))
  free_loop-empties h (suc k) p ((a, d) ∷ cs) lt e (ne, at, apart, ch) own =
      rw
        (
          e,
          ==_false ne,
          load-ok h a (node (first cs) d) ne at,
          free-ok h a (node (first cs) d) ne at,
        )
        (free_loop-empties (write h a none) k (first cs) cs (omega arith) refl
          (IsChain-write h cs a none apart ch) (λ p out. freed h a d cs p own out))

  -- With fuel for every node `sbuffer_free` succeeds, frees them all and leaves no pointer behind.
  pub free_all-empties :
      (h : Heap (Node D)) (fuel : ℕ) (b : Sbuffer) (cs : Cells D)
      → length cs < fuel
      → IsBuffer h b cs
      → Returns
          (λ (s, q) g. (s ≡ success) × (q ≡ none) × ((a : Ptr) → g a ≡ none))
          (free_all fuel (some b) h)
  unfolding free_all
  free_all-empties h fuel b cs lt is =
      Returns.bind (free_loop-empties h fuel b.head cs lt is.head is.chain is.owned)
        (λ _ g gone. returns (refl, refl, gone))
