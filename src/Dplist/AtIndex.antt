-- ===== src/Dplist/AtIndex.antt =====
-- `dpl_insert_at_index` with an index of 0 or less: what it leaves of a nonempty list, and that an
-- empty list stays empty.
use btvnlinux.Prelude.{ℕ, ◌≡◌, refl, ◌≢◌, Bool, true, none, some, [], ◌∷◌, arith, ◌==◌, ==_false}
use mathlib.Core.Path.{subst}
use btvnlinux.Prelude.Int.{ℤ}
use btvnlinux.Memory.{Ptr, null, Heap, ok, write}
use btvnlinux.Memory.Cells.{Cells, first_or, not-mem-head, not-mem-tail}
use btvnlinux.Memory.Returns.{Returns, returns}
use btvnlinux.Dplist.Defs.{
  Node, node, World, world, Dplist, Block, at_most_zero, load, store, set_next, set_prev, malloc,
}
use btvnlinux.Dplist.Update.{insert_front, insert_at_index}
use btvnlinux.Dplist.Chain.{IsList, free-not-mem, set_element-ok}
use btvnlinux.Dplist.Relink.{Linked-outside}

module _ {E : Type 0} (w : World E) (els : Heap E) (l : Dplist E) (b : Block) (element e : Ptr)
    (room : b.address ≢ null) (unused : w.nodes b.address ≡ none) (fuel : ℕ)
    (copied : (h : Heap Node)
      → l.element_copy element (world h w.elements) ≡ ok e (world h els)) where
  abbrev allocated : Heap Node
  allocated = write w.nodes b.address (some b.garbage)

  malloc-ok : malloc b w ≡ ok b.address (world allocated w.elements)
  unfolding malloc store
  malloc-ok = ground arith

  front_nonempty :
      (f na : Ptr)
      → l.head ≢ null
      → b.address ≢ l.head
      → w.nodes l.head ≡ some (node null na f)
      → (g : Heap Node) × (insert_front l b.address (world allocated w.elements)
          ≡ ok (record l { head = b.address }) (world g w.elements))
        × (g b.address ≡ some (node null l.head b.garbage.element))
        × (g l.head ≡ some (node b.address na f))
        × ((d : Ptr) → d ≢ b.address → d ≢ l.head → g d ≡ w.nodes d)
  unfolding insert_front set_next set_prev load store
  front_nonempty f na ne apart at = (
    write
        (write (write allocated l.head (some (node b.address na f))) b.address
          (some (record b.garbage { next = l.head })))
        b.address (some (node null l.head b.garbage.element)),
    rw (==_false ne) (ground arith),
    ground arith,
    ground arith,
    λ d dx da. ground arith,
  )

  front_empty :
      (l.head == null) ≡ true
      → (g : Heap Node) × (insert_front l b.address (world allocated w.elements)
          ≡ ok l (world g w.elements))
        × (g b.address ≡ some (node null null b.garbage.element))
  unfolding insert_front set_next set_prev load store
  front_empty nil = (
    write (write allocated b.address (some (record b.garbage { next = null }))) b.address
        (some (node null null b.garbage.element)),
    rw nil (ground arith),
    ground arith,
  )

  at_head :
      (index : ℤ) (insert_copy : Bool) (f : Ptr) (cs : Cells Ptr)
      → at_most_zero index ≡ true
      → IsList w l ((l.head, f) ∷ cs)
      → Returns
          (λ l' w'. IsList w' l' ((b.address, e) ∷ (l.head, f) ∷ cs) × (w'.elements ≡ els))
          (insert_at_index fuel b (some l) element index insert_copy w)
  unfolding insert_at_index
  at_head index insert_copy f cs front is =
      let (ne, at, r) = is.linked in
      let out = free-not-mem w.nodes b.address null null ((l.head, f) ∷ cs) is.linked unused in
      let apart : b.address ≢ l.head = not-mem-head b.address l.head f cs out in
      let (g, run, gx, ga, same) = front_nonempty f (first_or null cs) ne apart at in
      rw (malloc-ok, front, run, copied g, set_element-ok (world g els) b.address _ room gx e)
        (returns (
          record {
            head = refl;
            linked = (
              room,
              ground arith,
              (
                ne,
                ground arith,
                Linked-outside w.nodes (write g b.address (some (node null l.head e))) l.head null
                    l.head b.address b.address cs (λ d da dx dx'. ground (arith, same d dx da))
                    is.apart.0 (not-mem-tail b.address l.head f cs out)
                    (not-mem-tail b.address l.head f cs out) r,
              ),
            );
            apart = (out, is.apart);
          },
          refl,
        ))

  -- `dpl_insert_at_index` with an index of 0 or less, of an element that its callback can copy: a
  -- nonempty list gets the copy in front, whether a copy is asked for or not.
  pub insert_at_index-front :
      (index : ℤ) (insert_copy : Bool) (a f : Ptr) (cs : Cells Ptr)
      → at_most_zero index ≡ true
      → IsList w l ((a, f) ∷ cs)
      → Returns
          (λ l' w'. IsList w' l' ((b.address, e) ∷ (a, f) ∷ cs) × (w'.elements ≡ els))
          (insert_at_index fuel b (some l) element index insert_copy w)
  insert_at_index-front index insert_copy a f cs front is =
      subst
        (λ z.
          IsList w l ((z, f) ∷ cs)
          → Returns (λ l' w'. IsList w' l' ((b.address, e) ∷ (z, f) ∷ cs) × (w'.elements ≡ els))
              (insert_at_index fuel b (some l) element index insert_copy w))
        is.head (at_head index insert_copy f cs front) is

  -- `dpl_insert_at_index` with an index of 0 or less on an empty list, of an element that its
  -- callback can copy: the list stays empty, and the new node stays allocated with the copy.
  pub insert_at_index-empty :
      (index : ℤ) (insert_copy : Bool)
      → at_most_zero index ≡ true
      → IsList w l []
      → Returns
          (λ l' w'. IsList w' l' [] × (w'.nodes b.address ≡ some (node null null e)))
          (insert_at_index fuel b (some l) element index insert_copy w)
  unfolding insert_at_index
  insert_at_index-empty index insert_copy front is =
      let nil : (l.head == null) ≡ true = rw is.head in
      let (g, run, gx) = front_empty nil in
      rw (malloc-ok, front, run, copied g, set_element-ok (world g els) b.address _ room gx e)
        (returns (record { head = is.head; linked = tt; apart = tt }, ground arith))
