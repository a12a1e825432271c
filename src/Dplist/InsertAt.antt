-- ===== src/Dplist/InsertAt.antt =====
-- `dpl_insert_at_index` with a positive index.
use btvnlinux.Prelude.{
  ℕ, zero, suc, ◌<◌, ◌≤◌, ◌≡◌, refl, sym, ◌∙◌, ap, ◌≢◌, Bool, false, none, some, [], ◌∷◌, ◌++◌,
  arith, ==_false, length, length-append, append_assoc,
}
use mathlib.Core.Path.{subst}
use btvnlinux.Prelude.Int.{ℤ, pos, leb_ℤ}
use btvnlinux.Memory.{Ptr, null, Heap, ok, fault, Fault, write}
use btvnlinux.Memory.Cells.{
  Cells, Apart, write_ne, write_self, first_or, last_or, not-mem-head, not-mem-tail, ◌∉◌,
}
use btvnlinux.Memory.Returns.{Returns, returns}
use btvnlinux.Dplist.Defs.{
  Node, node, World, world, Dplist, Block, load, store, set_next, set_prev, malloc,
  get_reference_at_index, size,
}
use btvnlinux.Dplist.Update.{insert_at, insert_at_index}
use btvnlinux.Dplist.Chain.{IsList, Linked-write, Linked-split, free-not-mem, set_element-ok}
use btvnlinux.Dplist.Read.{get_reference_at_index-drop, size-counted, counted}
use btvnlinux.Dplist.Relink.{Linked-between, Apart-insert, Apart-Neighbours, not-has-split}
use btvnlinux.Dplist.Remove.{drop-append, drop-past}

-- `dpl_size` counts one too many, so an index below the number of nodes is below the size.
counted-above : (n i : ℕ) → i < n → leb_ℤ (pos (counted n)) (pos i) ≡ false
counted-above zero i lt = absurd (omega arith)
counted-above (suc n) i lt = ground arith

long :
    (us : Cells Ptr) (c d : Ptr × Ptr) (vs : Cells Ptr)
    → suc (length us) < length (us ++ c ∷ d ∷ vs)
long us c d vs = omega (arith, length-append us (c ∷ d ∷ vs))

first-keeps :
    (us : Cells Ptr) (c : Ptr × Ptr) (vs ws : Cells Ptr)
    → first_or null (us ++ c ∷ vs) ≡ first_or null (us ++ c ∷ ws)
first-keeps [] c vs ws = refl
first-keeps (u ∷ us) c vs ws = refl

Apart-between :
    (us : Cells Ptr) (c : Ptr × Ptr) (x e : Ptr) (vs : Cells Ptr)
    → x ∉ (us ++ c ∷ vs)
    → Apart (us ++ c ∷ vs)
    → Apart (us ++ c ∷ (x, e) ∷ vs)
Apart-between us c x e vs out apart =
    let regroup = append_assoc us (c ∷ []) vs in
    subst Apart (append_assoc us (c ∷ []) ((x, e) ∷ vs)) (
      Apart-insert (us ++ c ∷ []) x e vs (subst (λ ds. x ∉ ds) (sym regroup) out)
        (subst Apart (sym regroup) apart))

module _ {E : Type 0} (w : World E) (els : Heap E) (l : Dplist E) (b : Block) (element e : Ptr)
    (room : b.address ≢ null) (unused : w.nodes b.address ≡ none) (fuel : ℕ)
    (copied : (h : Heap Node)
      → l.element_copy element (world h w.elements) ≡ ok e (world h els)) where
  abbrev allocated : World E
  allocated = world (write w.nodes b.address (some b.garbage)) w.elements

  malloc-ok : malloc b w ≡ ok b.address allocated
  unfolding malloc store
  malloc-ok = ground arith

  allocated-IsList : (cs : Cells Ptr) → IsList w l cs → IsList allocated l cs
  allocated-IsList cs is = record {
    head = is.head;
    linked =
        Linked-write w.nodes null null cs b.address (some b.garbage)
          (free-not-mem w.nodes b.address null null cs is.linked unused) is.linked;
    apart = is.apart;
  }

  -- The node goes in front of the one at `a`.
  between :
      (index : ℤ) (n : ℕ) (lp p ep a na ea : Ptr)
      → p ≢ null
      → a ≢ null
      → p ≢ a
      → b.address ≢ p
      → b.address ≢ a
      → w.nodes p ≡ some (node lp a ep)
      → w.nodes a ≡ some (node p na ea)
      → get_reference_at_index (some l) index allocated ≡ ok a allocated
      → size fuel (some l) allocated ≡ ok n allocated
      → leb_ℤ (pos n) index ≡ false
      → (g : Heap Node) × (insert_at fuel l b.address index allocated ≡ ok l (world g w.elements))
        × (g p ≡ some (node lp b.address ep))
        × (g b.address ≡ some (node p a b.garbage.element))
        × (g a ≡ some (node b.address na ea))
        × ((d : Ptr) → d ≢ p → d ≢ b.address → d ≢ a → g d ≡ w.nodes d)
  unfolding insert_at set_next set_prev load store
  between index n lp p ep a na ea np na' pa xp xa hp ha reach count inside = (
    write
        (write
          (write (write allocated.nodes b.address (some (record b.garbage { next = a }))) b.address
            (some (node p a b.garbage.element)))
          p (some (node lp b.address ep)))
        a (some (node b.address na ea)),
    rw (reach, ==_false na', count, inside) (ground arith),
    ground arith,
    ground arith,
    ground arith,
    λ d dp dx da. ground arith,
  )

  -- `dpl_insert_at_index` with the index of a node behind the first, of an element that its callback
  -- can copy: the copy goes in front of that node, whether a copy is asked for or not. The conditions
  -- are that `malloc` returns a free address, and that there is fuel for the nodes.
  pub insert_at_index-inside :
      (insert_copy : Bool) (us : Cells Ptr) (p ep a ea : Ptr) (vs : Cells Ptr)
      → length (us ++ (p, ep) ∷ (a, ea) ∷ vs) < fuel
      → IsList w l (us ++ (p, ep) ∷ (a, ea) ∷ vs)
      → Returns
          (λ l' w'.
            IsList w' l' (us ++ (p, ep) ∷ (b.address, e) ∷ (a, ea) ∷ vs) × (w'.elements ≡ els))
          (insert_at_index fuel b (some l) element (pos (suc (length us))) insert_copy w)
  unfolding insert_at_index
  insert_at_index-inside insert_copy us p ep a ea vs lt is =
      let cs = us ++ (p, ep) ∷ (a, ea) ∷ vs in
      let out = free-not-mem w.nodes b.address null null cs is.linked unused in
      let (lk, (np, hp, (na, ha, rest))) =
        Linked-split w.nodes null null us ((p, ep) ∷ (a, ea) ∷ vs) is.linked in
      let n = Apart-Neighbours us p ep a ea vs is.apart in
      let (xu, xv) = not-has-split b.address us ((p, ep) ∷ (a, ea) ∷ vs) out in
      let xa = not-mem-head b.address a ea vs (not-mem-tail b.address p ep ((a, ea) ∷ vs) xv) in
      let xp = not-mem-head b.address p ep ((a, ea) ∷ vs) xv in
      let reach =
        get_reference_at_index-drop allocated l (pos (suc (length us))) cs (allocated-IsList cs is)
        ∙ ap (λ ds. ok (first_or null ds) allocated) (drop-append us (p, ep) ((a, ea) ∷ vs)) in
      let count = size-counted allocated fuel l cs lt (allocated-IsList cs is) in
      let below = counted-above (length cs) (suc (length us)) (long us (p, ep) (a, ea) vs) in
      let (g, run, gp, gx, ga, same) =
        between (pos (suc (length us))) (counted (length cs)) (last_or null us) p ep a
          (first_or null vs) ea np na n.p_a xp xa hp ha reach count below in
      rw (malloc-ok, run, copied g, set_element-ok (world g els) b.address _ room gx e)
        (returns (
          record {
            head = is.head ∙ first-keeps us (p, ep) ((a, ea) ∷ vs) ((b.address, e) ∷ (a, ea) ∷ vs);
            linked =
                Linked-between w.nodes (write g b.address (some (node p a e))) us p ep b.address e a
                  ea vs room out is.apart (λ d dp dx da. ground (arith, same d dp dx da))
                  (write_ne g p b.address _ (λ q. xp (sym q)) ∙ gp) (write_self g b.address _)
                  (write_ne g a b.address _ (λ q. xa (sym q)) ∙ ga) is.linked;
            apart = Apart-between us (p, ep) b.address e ((a, ea) ∷ vs) out is.apart;
          },
          refl,
        ))

  -- With an index that is positive and not below the number of the nodes the assertion of
  -- `dpl_insert_at_index` on the node found there fails, and the program ends: nothing can be put at
  -- the end of a list.
  pub insert_at_index-beyond :
      (insert_copy : Bool) (k : ℕ) (cs : Cells Ptr)
      → length cs ≤ suc k
      → IsList w l cs
      → insert_at_index fuel b (some l) element (pos (suc k)) insert_copy w
        ≡ fault Fault.assert_failed
  unfolding insert_at_index insert_at
  insert_at_index-beyond insert_copy k cs le is =
      let reach =
        get_reference_at_index-drop allocated l (pos (suc k)) cs (allocated-IsList cs is) in
      rw (malloc-ok, reach, drop-past (suc k) cs le) refl
