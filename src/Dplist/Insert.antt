-- ===== src/Dplist/Insert.antt =====
-- `dpl_insert_sorted` as a whole: the list that it leaves, and the order that it keeps.
use btvnlinux.Prelude.{
  ℕ, ◌<◌, ◌≡◌, refl, sym, ◌∙◌, ◌≢◌, Bool, true, false, ◌||◌, none, some, [], ◌∷◌, ◌++◌, arith, ◌==◌,
  if◌then◌else◌, ==_false, ==_refl, length,
}
use mathlib.Core.List.{Perm, perm_middle}
use mathlib.Core.List.Perm
use mathlib.Core.Path.{subst}
use btvnlinux.Prelude.Int.{ℤ}
use btvnlinux.Memory.{Ptr, null, Heap, ok, pure, fault, Fault, write, and_then, ◌>>◌}
use btvnlinux.Memory.Cells.{
  Cells, first_or, contents, has, has-append, ne_of_has, contents-append, ◌∉◌, Apart,
}
use btvnlinux.Memory.Returns
use btvnlinux.Memory.Returns.{Returns, returns}
use btvnlinux.Dplist.Defs.{
  Node, node, World, world, Dplist, Block, load, store, set_next, set_prev, set_element, malloc,
}
use btvnlinux.Dplist.Update.{seek, place, insert_sorted}
use btvnlinux.Dplist.Chain.{Linked-write, free-not-mem, IsList}
use btvnlinux.Dplist.Read.{Compares}
use btvnlinux.Dplist.Relink.{Apart-insert}
use btvnlinux.Dplist.Slot.{slot, slot-split, Ready, Links}
use btvnlinux.Dplist.Sorted.{Clashes, search_head, search_clash}

-- The cells once `c` is put in.
unfoldable pub sorted_in : (Ptr → Ptr → ℤ) → Ptr × Ptr → Cells Ptr → Cells Ptr
sorted_in cmp c [] = c ∷ []
sorted_in cmp c (a ∷ cs) = slot cmp c a cs

pub sorted_in-split :
    (cmp : Ptr → Ptr → ℤ) (c : Ptr × Ptr) (cs : Cells Ptr)
    → (ls : Cells Ptr) × (rs : Cells Ptr) × (cs ≡ ls ++ rs) × (sorted_in cmp c cs ≡ ls ++ c ∷ rs)
unfolding sorted_in
sorted_in-split cmp c [] = ([], [], refl, refl)
sorted_in-split cmp c (a ∷ cs) = slot-split cmp c a cs

Apart-sorted_in :
    (cmp : Ptr → Ptr → ℤ) (x e : Ptr) (cs : Cells Ptr)
    → x ∉ cs
    → Apart cs
    → Apart (sorted_in cmp (x, e) cs)
Apart-sorted_in cmp x e cs out apart =
    let (ls, rs, p, q) = sorted_in-split cmp (x, e) cs in
    rw q (Apart-insert ls x e rs (rw p at out) (rw p at apart))

or_true : (b : Bool) → (b || true) ≡ true
or_true true = refl
or_true false = refl

has-sorted_in :
    (cmp : Ptr → Ptr → ℤ) (x e : Ptr) (cs : Cells Ptr) → has x (sorted_in cmp (x, e) cs) ≡ true
has-sorted_in cmp x e cs =
    let (ls, rs, p, q) = sorted_in-split cmp (x, e) cs in
    rw (q, has-append x ls ((x, e) ∷ rs), ==_refl x) (or_true (has x ls))

split-perm :
    (x e : Ptr) (ls rs cs ds : Cells Ptr)
    → cs ≡ ls ++ rs
    → ds ≡ ls ++ (x, e) ∷ rs
    → Perm (contents ds) (e ∷ contents cs)
split-perm x e ls rs cs ds p q =
    rw (q, p, contents-append ls ((x, e) ∷ rs), contents-append ls rs)
      (Perm.trans (perm_middle (contents ls) (contents rs)) (Perm.refl _))

pub contents-sorted_in-perm :
    (cmp : Ptr → Ptr → ℤ) (x e : Ptr) (cs : Cells Ptr)
    → Perm (contents (sorted_in cmp (x, e) cs)) (e ∷ contents cs)
contents-sorted_in-perm cmp x e cs =
    let (ls, rs, p, q) = sorted_in-split cmp (x, e) cs in split-perm x e ls rs cs _ p q

module _ {E : Type 0} (w : World E) (els : Heap E) (l : Dplist E) (b : Block) (element e : Ptr)
    (insert_copy : Bool) (cmp : Ptr → Ptr → ℤ) (room : b.address ≢ null)
    (unused : w.nodes b.address ≡ none)
    (copied : (if insert_copy then l.element_copy element else pure element) w
      ≡ ok e (world w.nodes els)) where
  -- The heap once the new node has its element.
  abbrev fresh : Heap Node
  fresh =
      write (write w.nodes b.address (some b.garbage)) b.address
        (some (record b.garbage { element = e }))

  fresh-Ready : (cs : Cells Ptr) → IsList w l cs → Ready fresh b.address cs
  fresh-Ready cs is =
      let out = free-not-mem w.nodes b.address null null cs is.linked unused in
      (
        Linked-write _ null null cs b.address _ out
            (Linked-write w.nodes null null cs b.address _ out is.linked),
        is.apart,
        out,
      )

  fresh-ne : (d : Ptr) → d ≢ b.address → fresh d ≡ w.nodes d
  fresh-ne d ne = ground arith

  fresh_self : fresh b.address ≡ some (record b.garbage { element = e })
  fresh_self = ground arith

  malloc-ok :
      malloc b (world w.nodes els)
      ≡ ok b.address (world (write w.nodes b.address (some b.garbage)) els)
  unfolding malloc store
  malloc-ok = ground arith

  set_fresh-ok :
      set_element b.address e (world (write w.nodes b.address (some b.garbage)) els)
      ≡ ok tt (world fresh els)
  unfolding set_element load store
  set_fresh-ok = ground arith

  -- The first node of an empty list.
  single-ok :
      (g : Heap Node) × (and_then
          (set_next b.address null (world fresh els))
          (λ _. do set_prev b.address null; pure (record l { head = b.address }))
        ≡ ok (record l { head = b.address }) (world g els))
      × (g b.address ≡ some (node null null e))
      × ((d : Ptr) → d ≢ b.address → g d ≡ w.nodes d)
  unfolding set_next set_prev load store
  single-ok = (
    write (write fresh b.address (some (node b.garbage.prev null e))) b.address
        (some (node null null e)),
    ground (arith, fresh_self),
    ground arith,
    λ d ne. ground arith,
  )

  -- A list of the cells `ds`, with the callbacks of `l`; no node outside it has changed.
  abbrev pub Inserted : Cells Ptr → Dplist E → World E → Type 0
  Inserted ds l' w' =
      IsList w' l' ds
      × (l' ≡ record l { head = first_or null ds })
      × (w'.elements ≡ els)
      × ((d : Ptr) → d ∉ ds → w'.nodes d ≡ w.nodes d)

  -- What is left to say once the new node is linked in.
  tidy :
      (cs : Cells Ptr)
      → IsList w l cs
      → (l' : Dplist E) (w' : World E)
      → Links els fresh l
          (sorted_in cmp (b.address, e) cs)
          (first_or null (sorted_in cmp (b.address, e) cs))
          l'
          w'
      → Inserted (sorted_in cmp (b.address, e) cs) l' w'
  tidy cs is l' w' (el, ee, ln, same) =
      let out = (fresh-Ready cs is).2 in
      (
        record {
          head = rw el;
          linked = ln;
          apart = Apart-sorted_in cmp b.address e cs out is.apart;
        },
        el,
        ee,
        λ d o.
            same d o
            ∙ fresh-ne d (
                ne_of_has d b.address (sorted_in cmp (b.address, e) cs) o
                  (has-sorted_in cmp b.address e cs)),
      )

  -- `dpl_insert_sorted` on a linked list where its walk has a place for the element ends without a
  -- fault, leaves the linked list with the new cell at that place and the same callbacks, and changes
  -- no node outside it.
  pub insert_sorted-sorted_in :
      (fuel : ℕ) (cs : Cells Ptr)
      → length cs < fuel
      → IsList w l cs
      → ((h : Heap Node) → Compares l.element_compare (world h els) cmp e cs)
      → ¬ Clashes cmp e cs
      → Returns
          (Inserted (sorted_in cmp (b.address, e) cs))
          (insert_sorted fuel b (some l) element insert_copy w)
  unfolding insert_sorted sorted_in
  insert_sorted-sorted_in fuel [] lt is cp nc =
      let (g, run, gx, same) = single-ok in
      let nil : (l.head == null) ≡ true = rw is.head in
      rw (copied, malloc-ok, set_fresh-ok, nil, run)
        (returns (
          record { head = refl; linked = (room, gx, tt); apart = (refl, tt) },
          refl,
          refl,
          λ d out. same d (ground arith),
        ))
  insert_sorted-sorted_in fuel ((a, f) ∷ cs) lt is cp nc =
      let more : (l.head == null) ≡ false = rw is.head (==_false is.linked.0) in
      rw (copied, malloc-ok, set_fresh-ok, more)
        (subst
          (λ z. Returns (Inserted (sorted_in cmp (b.address, e) ((a, f) ∷ cs))) (
            and_then (seek fuel l.element_compare e z (world fresh els))
              λ pt. place l b.address pt e))
          (sym is.head)
          (Returns.mono
            (search_head els fresh l b.address e b.garbage.prev b.garbage.next room fresh_self cmp
              fuel a f cs (omega arith) is.head (cp fresh) nc (fresh-Ready _ is))
            (tidy ((a, f) ∷ cs) is)))

  -- `dpl_insert_sorted` of an element that compares equal to the first of two or more: the new
  -- node is to be linked in front of the first, whose `prev` is NULL, and the code writes through it.
  pub insert_sorted-clash :
      (fuel : ℕ) (cs : Cells Ptr)
      → 0 < fuel
      → IsList w l cs
      → ((h : Heap Node) → Compares l.element_compare (world h els) cmp e cs)
      → Clashes cmp e cs
      → insert_sorted fuel b (some l) element insert_copy w ≡ fault Fault.segfault
  unfolding insert_sorted
  insert_sorted-clash fuel [] lt is cp cl = absurd cl
  insert_sorted-clash fuel ((a, f) ∷ cs) lt is cp cl =
      let more : (l.head == null) ≡ false = rw is.head (==_false is.linked.0) in
      rw (copied, malloc-ok, set_fresh-ok, more)
        (subst
          (λ z.
            and_then (seek fuel l.element_compare e z (world fresh els))
              (λ pt. place l b.address pt e)
            ≡ fault Fault.segfault)
          (sym is.head)
          (search_clash els fresh l b.address e b.garbage.prev b.garbage.next room fresh_self cmp
            fuel a f cs lt is.head (cp fresh) cl (fresh-Ready _ is)))
