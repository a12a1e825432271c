-- ===== src/Dplist/Front.antt =====
-- `dpl_remove_at_index` with an index of 0 or less, and `dpl_free`.
use btvnlinux.Prelude.{
  ℕ, zero, suc, ◌<◌, ◌≡◌, refl, ◌≢◌, Bool, true, some, ◌∷◌, arith, if◌then◌else◌, ==_false,
}
use btvnlinux.Prelude.Int.{ℤ, pos}
use btvnlinux.Memory.{Ptr, null, Heap, ok, pure, fault, Fault, and_then, ◌>>=◌, ◌>>◌}
use btvnlinux.Memory.Cells.{Cells, first_or}
use btvnlinux.Dplist.Defs.{
  Node, node, World, world, Dplist, at_most_zero, load, store, set_next, set_prev,
}
use btvnlinux.Dplist.Update.{release, remove_front, remove_at_index, free_loop, free_list}
use btvnlinux.Dplist.Chain.{IsList, load-ok}

-- The callback, if it is asked for, frees the element and leaves the nodes.
abbrev pub Releases : {E : Type 0} → World E → Dplist E → Bool → Ptr → Heap E → Type 0
Releases w l free_element e els =
    (if free_element then l.element_free e else pure tt) w ≡ ok tt (world w.nodes els)

module _ {E : Type 0} (w : World E) (els : Heap E) (l : Dplist E) (free_element : Bool) where
  pub release-ok :
      (a : Ptr) (n : Node)
      → a ≢ null
      → w.nodes a ≡ some n
      → Releases w l free_element n.element els
      → release l free_element a w ≡ ok tt (world w.nodes els)
  unfolding release
  release-ok a n ne at r = ground (arith, load-ok w a n ne at)

  set_next-null :
      (a : Ptr) (n : Node)
      → a ≢ null
      → w.nodes a ≡ some n
      → and_then
          (set_next a null (world w.nodes els))
          (λ _. do m ← load a; set_prev m.next null; pure (record l { head = m.next }))
        ≡ fault Fault.segfault
  unfolding set_next set_prev load store
  set_next-null a n ne at = ground arith

  -- `dpl_remove_at_index` with an index of 0 or less reads through NULL on every nonempty list.
  pub remove_at_index-front :
      (index : ℤ) (a e : Ptr) (cs : Cells Ptr)
      → at_most_zero index ≡ true
      → IsList w l ((a, e) ∷ cs)
      → Releases w l free_element e els
      → remove_at_index (some l) index free_element w ≡ fault Fault.segfault
  unfolding remove_at_index remove_front
  remove_at_index-front index a e cs front is r =
      let ne : l.head ≢ null = rw is.head is.linked.0 in
      let at : w.nodes l.head ≡ some (node null (first_or null cs) e) = rw is.head is.linked.1 in
      rw (==_false ne, front, release-ok l.head _ ne at r) (set_next-null l.head _ ne at)

  -- `dpl_free` of a nonempty list reads through NULL at its first removal.
  pub free_list-cons :
      (fuel : ℕ) (a e : Ptr) (cs : Cells Ptr)
      → 0 < fuel
      → IsList w l ((a, e) ∷ cs)
      → Releases w l free_element e els
      → free_list fuel (some l) free_element w ≡ fault Fault.segfault
  unfolding free_list free_loop
  free_list-cons zero a e cs lt is r = absurd (omega arith)
  free_list-cons (suc k) a e cs lt is r =
      let ne : l.head ≢ null = rw is.head is.linked.0 in
      rw (==_false ne, remove_at_index-front (pos 0) a e cs refl is r)
