-- ===== src/Sbuffer/Interleaved/Layout.antt =====
-- The memory while a removal and an insertion overlap on a buffer of two readings or more: the
-- removal works on the front of the list, the insertion on its end.
use btvnlinux.Prelude.{
  ◌≡◌, refl, ◌≢◌, sym, ◌∙◌, true, none, some, inl, inr, [], ◌∷◌, ◌++◌, ◌==◌, Bool-cases, arith, ap,
  ◌||◌,
}
use mathlib.Core.Path.{subst}
use btvnlinux.Memory.{Ptr, null, Heap, write}
use btvnlinux.Memory.Cells.{
  Cells, first, last_or, has, ◌∉◌, ne_of_has, not-mem_of_snoc, not-mem-snoc, write_ne, write_self,
  has-append,
}
use btvnlinux.Sbuffer.{Node, node, failure, success}
use btvnlinux.Sbuffer.Queue.{IsChain, IsChain-write, IsChain-link, last-object}
use btvnlinux.Sbuffer.Step.{not-mem_of_none}
use btvnlinux.Sbuffer.Interleaved.{
  Pc, check_head, copy_data, keep_head, compare_ends, advance_head, free_dummy, allocate,
  check_tail, link_last, advance_tail, returned,
}

module _ {D : Type 0} (a : Ptr) (d : D) (c : Ptr) (e : D) (cs : Cells D) (x : D) where
  abbrev pub kept : Cells D
  kept = (c, e) ∷ cs

  -- The insertion, by its statement: the cells of the list that it leaves, and the cell that it
  -- has to itself.
  pub data Inserting (tail : Ptr) : Pc D → Cells D → Cells D → Type 0 where
    starting : tail ≡ last_or c cs → Inserting tail (allocate x) kept []
    filled : (p : Ptr) → tail ≡ last_or c cs → Inserting tail (check_tail p) kept ((p, x) ∷ [])
    linking : (p : Ptr) → tail ≡ last_or c cs → Inserting tail (link_last p) kept ((p, x) ∷ [])
    linked : (p : Ptr) → tail ≡ last_or c cs → Inserting tail advance_tail (kept ++ (p, x) ∷ []) []
    inserted :
        (p : Ptr) → tail ≡ p → Inserting tail (returned success none) (kept ++ (p, x) ∷ []) []
    refused : tail ≡ last_or c cs → Inserting tail (returned failure none) kept []

  -- The removal, and the cell that it has to itself.
  pub data Removing (head : Ptr) : Pc D → Cells D → Type 0 where
    checking : head ≡ a → Removing head check_head ((a, d) ∷ [])
    copying : head ≡ a → Removing head copy_data ((a, d) ∷ [])
    keeping : head ≡ a → Removing head (keep_head d) ((a, d) ∷ [])
    comparing : head ≡ a → Removing head (compare_ends d a) ((a, d) ∷ [])
    advancing : head ≡ a → Removing head (advance_head d a) ((a, d) ∷ [])
    freeing : head ≡ c → Removing head (free_dummy d a) ((a, d) ∷ [])
    removed : head ≡ c → Removing head (returned success (some d)) []

  -- What a thread has to itself: a node that is linked to `q`, outside the list and apart from `ds`.
  abbrev pub Held : Heap (Node D) → Ptr → Cells D → Cells D → Cells D → Type 0
  Held h q chain ds [] = Unit {0}
  Held h q chain ds ((p, y) ∷ ps) =
      (p ≢ null) × (h p ≡ some (node q y)) × (p ∉ chain) × (p ∉ ds) × (ps ≡ [])

  pub record Layout (h : Heap (Node D)) (tail : Ptr) (chain own taken : Cells D) : Type 0 where
    pub chained : IsChain h chain
    pub front : first chain ≡ c
    pub ends : has tail chain ≡ true
    pub private : Held h null chain taken own
    pub gone : Held h c chain [] taken
    pub others : (y : Ptr) → y ∉ chain → y ∉ own → y ∉ taken → h y ≡ none

  pub Held-freed :
      (h : Heap (Node D)) (chain own : Cells D)
      → Held h null chain ((a, d) ∷ []) own
      → Held (write h a none) null chain [] own
  Held-freed h chain [] held = tt
  Held-freed h chain ((p, y) ∷ ps) (ne, at_p, out, apart, single) =
      (ne, ground arith, out, refl, single)

  pub freed :
      (h : Heap (Node D)) (tail : Ptr) (chain own : Cells D)
      → Layout h tail chain own ((a, d) ∷ [])
      → Layout (write h a none) tail chain own []
  freed h tail chain own lay = record {
    chained = IsChain-write h chain a none lay.gone.2 lay.chained;
    front = lay.front;
    ends = lay.ends;
    private = Held-freed h chain own lay.private;
    gone = tt;
    others = λ y out apart q. elim (Bool-cases (y == a)) [
      | inl same ↦ ground arith
      | inr else_y ↦ ground (arith, lay.others y out apart)
    ];
  }

  -- A new node.
  Held-write :
      (h : Heap (Node D)) (q p : Ptr) (n : Node D) (chain taken : Cells D)
      → h p ≡ none
      → Held h q chain [] taken
      → Held (write h p (some n)) q chain [] taken
  Held-write h q p n chain [] unused held = tt
  Held-write h q p n chain ((b, y) ∷ bs) unused (ne, at_b, out, apart, single) =
      (ne, ground arith, out, apart, single)

  not-mem-held :
      (h : Heap (Node D)) (q p : Ptr) (chain ds taken : Cells D)
      → h p ≡ none
      → Held h q chain ds taken
      → p ∉ taken
  not-mem-held h q p chain ds [] unused held = refl
  not-mem-held h q p chain ds ((b, y) ∷ bs) unused (ne, at_b, out, apart, single) =
      rw single (ground arith)

  last-has : (b : Ptr) (f : D) (ds : Cells D) → has (last_or b ds) ((b, f) ∷ ds) ≡ true
  last-has b f [] = ground arith
  last-has b f ((g, y) ∷ ds) = ground (arith, last-has g y ds)

  pub allocated :
      (h : Heap (Node D)) (tail p : Ptr) (taken : Cells D)
      → p ≢ null
      → h p ≡ none
      → Layout h tail kept [] taken
      → Layout (write h p (some (node null x))) tail kept ((p, x) ∷ []) taken
  allocated h tail p taken ne unused lay = record {
    chained = IsChain-write h kept p _ (not-mem_of_none h p kept lay.chained unused) lay.chained;
    front = lay.front;
    ends = lay.ends;
    private = (
      ne,
      write_self h p _,
      not-mem_of_none h p kept lay.chained unused,
      not-mem-held h c p kept [] taken unused lay.gone,
      refl,
    );
    gone = Held-write h c p (node null x) kept taken unused lay.gone;
    others = λ y out apart q. ground (arith, lay.others y out refl q);
  }

  -- The last node of the list, which the new one is linked behind.
  pub end_of :
      (h : Heap (Node D)) (tail : Ptr)
      → tail ≡ last_or c cs
      → IsChain h kept
      → (f : D) × (h tail ≡ some (node null f)) × (tail ≢ null) × (has tail kept ≡ true)
  end_of h tail t ch =
      subst (λ l. (f : D) × (h l ≡ some (node null f)) × (l ≢ null) × (has l kept ≡ true)) (sym t)
        (last-object h c e cs ch)

  Held-linked :
      (h : Heap (Node D)) (tail p : Ptr) (n : Node D) (taken : Cells D)
      → has tail kept ≡ true
      → p ∉ taken
      → Held h c kept [] taken
      → Held (write h tail (some n)) c (kept ++ (p, x) ∷ []) [] taken
  Held-linked h tail p n [] inside apart held = tt
  Held-linked h tail p n ((b, y) ∷ bs) inside apart (ne, at_b, out, away, single) = (
    ne,
    write_ne h b tail (some n) (ne_of_has b tail kept out inside) ∙ at_b,
    not-mem-snoc b p x kept out (ground arith),
    refl,
    single,
  )

  not-mem-one : (y p : Ptr) → y ≢ p → y ∉ ((p, x) ∷ [])
  not-mem-one y p ne = ground arith

  has-snoc : (p : Ptr) (ds : Cells D) → has p (ds ++ (p, x) ∷ []) ≡ true
  has-snoc p [] = ground arith
  has-snoc p (k ∷ ds) = ground (arith, has-snoc p ds)

  pub linked_up :
      (h : Heap (Node D)) (tail p : Ptr) (f : D) (taken : Cells D)
      → tail ≡ last_or c cs
      → h tail ≡ some (node null f)
      → has tail kept ≡ true
      → Layout h tail kept ((p, x) ∷ []) taken
      → Layout (write h tail (some (node p f))) tail (kept ++ (p, x) ∷ []) [] taken
  linked_up h tail p f taken t at_tail inside lay =
      let (ne, at_p, out, apart, single) = lay.private in
      record {
        chained =
            subst (λ l. IsChain (write h l (some (node p f))) (kept ++ (p, x) ∷ [])) (sym t)
              (IsChain-link h c p e x f cs ne out at_p (ap h (sym t) ∙ at_tail) lay.chained);
        front = refl;
        ends = has-append tail kept ((p, x) ∷ []) ∙ ap (λ b. b || has tail ((p, x) ∷ [])) inside;
        private = tt;
        gone = Held-linked h tail p (node p f) taken inside apart lay.gone;
        others = λ y away own q.
            let (away', nf) = not-mem_of_snoc y p x kept away in
            write_ne h y tail _ (ne_of_has y tail kept away' inside)
            ∙ lay.others y away' (not-mem-one y p nf) q;
      }

  -- The last link of a list that a node was added to.
  pub link_of :
      (h : Heap (Node D)) (b : Ptr) (g : D) (ds : Cells D) (p : Ptr)
      → IsChain h ((b, g) ∷ ds ++ (p, x) ∷ [])
      → (f : D) × (h (last_or b ds) ≡ some (node p f)) × (last_or b ds ≢ null)
  link_of h b g [] p (ne, at_b, apart, ch) = (g, at_b, ne)
  link_of h b g ((y, k) ∷ ds) p (ne, at_b, apart, ch) = link_of h y k ds p ch

  pub advanced :
      (h : Heap (Node D)) (tail p : Ptr) (taken : Cells D)
      → Layout h tail (kept ++ (p, x) ∷ []) [] taken
      → Layout h p (kept ++ (p, x) ∷ []) [] taken
  advanced h tail p taken lay = record {
    chained = lay.chained;
    front = lay.front;
    ends = has-snoc p kept;
    private = tt;
    gone = lay.gone;
    others = lay.others;
  }
