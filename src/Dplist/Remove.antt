-- ===== src/Dplist/Remove.antt =====
-- `dpl_remove_at_index` with a positive index.
use btvnlinux.Prelude.{
  ℕ, zero, suc, ◌≤◌, ◌≡◌, refl, sym, ◌∙◌, ◌≢◌, Bool, true, false, none, some, [], ◌∷◌, ◌++◌, arith,
  ◌==◌, ==_false, ==_refl, length, append_assoc, drop,
}
use mathlib.Core.Path.{subst}
use btvnlinux.Prelude.Int.{pos}
use btvnlinux.Memory.{Ptr, null, Heap, ok, fault, Fault, write}
use btvnlinux.Memory.Cells.{
  Cells, first_or, last_or, has, ne_of_has, ◌∉◌, Apart, not-mem-snoc, not-mem-head, not-mem-tail,
}
use btvnlinux.Memory.Returns.{Returns, returns}
use btvnlinux.Dplist.Defs.{
  Node, node, World, world, Dplist, load, store, set_next, set_prev, set_element, free, advance,
}
use btvnlinux.Dplist.Update.{release, discard, unlink, remove_at_index}
use btvnlinux.Dplist.Chain.{Linked, Linked-append, Linked-split, IsList, load-null}
use btvnlinux.Dplist.Read.{advance-drop}
use btvnlinux.Dplist.Relink.{Apart-remove, Apart-Neighbours, Linked-outside, not-has-split}
use btvnlinux.Dplist.Front.{Releases, release-ok}

pub drop-append :
    (us : Cells Ptr) (c : Ptr × Ptr) (vs : Cells Ptr) → drop (suc (length us)) (us ++ c ∷ vs) ≡ vs
drop-append [] c vs = refl
drop-append (u ∷ us) c vs = drop-append us c vs

pub drop-past : (k : ℕ) (cs : Cells Ptr) → length cs ≤ k → drop k cs ≡ []
drop-past zero [] le = refl
drop-past zero (c ∷ cs) le = absurd (omega arith)
drop-past (suc k) [] le = refl
drop-past (suc k) (c ∷ cs) le = drop-past k cs (omega arith)

first-ne :
    (h : Heap Node) (q : Ptr) (us : Cells Ptr) (c : Ptr × Ptr) (vs : Cells Ptr)
    → Linked h q (us ++ c ∷ vs) null
    → first_or null (us ++ c ∷ vs) ≢ null
first-ne h q [] c vs ln = ln.0
first-ne h q (u ∷ us) c vs ln = ln.0

module _ {E : Type 0} (w : World E) (els : Heap E) (l : Dplist E) (free_element : Bool) where
  -- `unlink` of a last node that is not the first.
  unlink-last :
      (p ep lp a ea : Ptr)
      → p ≢ null
      → a ≢ null
      → p ≢ a
      → (a == l.head) ≡ false
      → w.nodes p ≡ some (node lp a ep)
      → w.nodes a ≡ some (node p null ea)
      → Releases w l free_element ea els
      → (g : Heap Node) × (unlink l free_element a w ≡ ok l (world g els))
        × (g p ≡ some (node lp null ep))
        × (g a ≡ none)
        × ((d : Ptr) → d ≢ p → d ≢ a → g d ≡ w.nodes d)
  unfolding unlink discard set_next set_prev set_element free load store
  unlink-last p ep lp a ea np na pa nh hp ha r = (
    write
        (write
          (write (write (write w.nodes p (some (node lp null ep))) a (some (node p null null))) a
            (some (node p null null)))
          a (some (node null null null)))
        a none,
    rw (release-ok w els l free_element a _ na ha r, nh) (ground arith),
    ground arith,
    ground arith,
    λ d dp da. ground arith,
  )

  -- `unlink` of a node with a neighbour on each side.
  unlink-inner :
      (p ep lp a ea b eb nb : Ptr)
      → p ≢ null
      → a ≢ null
      → b ≢ null
      → p ≢ a
      → p ≢ b
      → a ≢ b
      → (a == l.head) ≡ false
      → w.nodes p ≡ some (node lp a ep)
      → w.nodes a ≡ some (node p b ea)
      → w.nodes b ≡ some (node a nb eb)
      → Releases w l free_element ea els
      → (g : Heap Node) × (unlink l free_element a w ≡ ok l (world g els))
        × (g p ≡ some (node lp b ep))
        × (g b ≡ some (node p nb eb))
        × (g a ≡ none)
        × ((d : Ptr) → d ≢ p → d ≢ a → d ≢ b → g d ≡ w.nodes d)
  unfolding unlink discard set_next set_prev set_element free load store
  unlink-inner p ep lp a ea b eb nb np na nb' pa pb ab nh hp ha hb r = (
    write
        (write
          (write
            (write (write (write w.nodes p (some (node lp b ep))) b (some (node p nb eb))) a
              (some (node p b null)))
            a (some (node p null null)))
          a (some (node null null null)))
        a none,
    rw (release-ok w els l free_element a _ na ha r, nh) (ground arith),
    ground arith,
    ground arith,
    ground arith,
    λ d dp da db. ground arith,
  )

  -- The list without the cell of `a`, whose node is free; other nodes are as they were.
  abbrev pub Dropped : Cells Ptr → Ptr → Cells Ptr → Dplist E → World E → Type 0
  Dropped cs a ds l' w' =
      IsList w' l' ds
      × (w'.elements ≡ els)
      × (w'.nodes a ≡ none)
      × ((d : Ptr) → d ∉ cs → w'.nodes d ≡ w.nodes d)

  head-keeps :
      (us : Cells Ptr) (p ep : Ptr) (vs ws : Cells Ptr)
      → first_or null (us ++ (p, ep) ∷ vs) ≡ first_or null (us ++ (p, ep) ∷ ws)
  head-keeps [] p ep vs ws = refl
  head-keeps (u ∷ us) p ep vs ws = refl

  first-has :
      (us : Cells Ptr) (p ep : Ptr) (vs : Cells Ptr)
      → has (first_or null (us ++ (p, ep) ∷ vs)) (us ++ (p, ep) ∷ []) ≡ true
  first-has [] p ep vs = rw (==_refl p)
  first-has ((u, e) ∷ us) p ep vs = rw (==_refl u)

  -- A node behind another is not the head.
  not_head :
      (us : Cells Ptr) (p ep a ea : Ptr) (vs : Cells Ptr)
      → IsList w l (us ++ (p, ep) ∷ (a, ea) ∷ vs)
      → (a == l.head) ≡ false
  not_head us p ep a ea vs is =
      let n = Apart-Neighbours us p ep a ea vs is.apart in
      rw is.head (
        ==_false (
          ne_of_has a _ (us ++ (p, ep) ∷ []) (not-mem-snoc a p ep us n.a_us (λ r. n.p_a (sym r)))
            (first-has us p ep ((a, ea) ∷ vs))))

  unlink_lem :
      (us : Cells Ptr) (p ep a ea : Ptr) (vs : Cells Ptr)
      → IsList w l (us ++ (p, ep) ∷ (a, ea) ∷ vs)
      → Releases w l free_element ea els
      → Returns
          (Dropped (us ++ (p, ep) ∷ (a, ea) ∷ vs) a (us ++ (p, ep) ∷ vs))
          (unlink l free_element a w)
  unlink_lem us p ep a ea [] is r =
      let (l', (np, hp, (na, ha, rest))) =
        Linked-split w.nodes null null us ((p, ep) ∷ (a, ea) ∷ []) is.linked in
      let n = Apart-Neighbours us p ep a ea [] is.apart in
      let (g, run, gp, ga, same) =
        unlink-last p ep (last_or null us) a ea np na n.p_a (not_head us p ep a ea [] is) hp ha r in
      rw run (
        returns (
          record {
            head = is.head ∙ head-keeps us p ep ((a, ea) ∷ []) [];
            linked =
                Linked-append g null null us ((p, ep) ∷ [])
                  (Linked-outside w.nodes g null p p a a us (λ d dp da da'. same d dp da) n.p_us
                    n.a_us n.a_us l')
                  (np, gp, tt);
            apart = Apart-remove us p ep a ea [] is.apart;
          },
          refl,
          ga,
          λ d o.
              let (du, dv) = not-has-split d us ((p, ep) ∷ (a, ea) ∷ []) o in
              same d (ground arith) (ground arith),
        ))
  unlink_lem us p ep a ea ((b, eb) ∷ vs) is r =
      let (l', (np, hp, (na, ha, (nb, hb, rest)))) =
        Linked-split w.nodes null null us ((p, ep) ∷ (a, ea) ∷ (b, eb) ∷ vs) is.linked in
      let n = Apart-Neighbours us p ep a ea ((b, eb) ∷ vs) is.apart in
      let m =
        Apart-Neighbours (us ++ (p, ep) ∷ []) a ea b eb vs
          (subst Apart (sym (append_assoc us ((p, ep) ∷ []) ((a, ea) ∷ (b, eb) ∷ vs))) is.apart) in
      let (bu, bp) = not-has-split b us ((p, ep) ∷ []) m.a_us in
      let (g, run, gp, gb, ga, same) =
        unlink-inner p ep (last_or null us) a ea b eb (first_or null vs) np na nb n.p_a
          (not-mem-head p b eb vs n.p_vs) m.p_a (not_head us p ep a ea ((b, eb) ∷ vs) is) hp ha hb
          r in
      rw run (
        returns (
          record {
            head = is.head ∙ head-keeps us p ep ((a, ea) ∷ (b, eb) ∷ vs) ((b, eb) ∷ vs);
            linked =
                Linked-append g null null us ((p, ep) ∷ (b, eb) ∷ vs)
                  (Linked-outside w.nodes g null p p a b us same n.p_us n.a_us bu l')
                  (
                    np,
                    gp,
                    (
                      nb,
                      gb,
                      Linked-outside w.nodes g b null p a b vs same (not-mem-tail p b eb vs n.p_vs)
                          m.p_vs m.a_vs rest,
                    ),
                  );
            apart = Apart-remove us p ep a ea ((b, eb) ∷ vs) is.apart;
          },
          refl,
          ga,
          λ d o.
              let (du, dv) = not-has-split d us ((p, ep) ∷ (a, ea) ∷ (b, eb) ∷ vs) o in
              same d (ground arith) (ground arith) (ground arith),
        ))

  unlink-null : l.head ≢ null → unlink l free_element null w ≡ fault Fault.segfault
  unfolding unlink release
  unlink-null ne = ground (arith, load-null w)

  -- The walk of `dpl_remove_at_index` from the head.
  walk :
      (k : ℕ) (cs : Cells Ptr)
      → IsList w l cs
      → advance k l.head w ≡ ok (first_or null (drop k cs)) w
  walk k cs is = rw is.head (advance-drop w k null cs is.linked)

  -- `dpl_remove_at_index` with the index of a node behind the first unlinks that node alone, and
  -- frees it.
  pub remove_at_index-inside :
      (us : Cells Ptr) (p ep a ea : Ptr) (vs : Cells Ptr)
      → IsList w l (us ++ (p, ep) ∷ (a, ea) ∷ vs)
      → Releases w l free_element ea els
      → Returns
          (Dropped (us ++ (p, ep) ∷ (a, ea) ∷ vs) a (us ++ (p, ep) ∷ vs))
          (remove_at_index (some l) (pos (suc (length us))) free_element w)
  unfolding remove_at_index
  remove_at_index-inside us p ep a ea vs is r =
      let ne : l.head ≢ null =
        rw is.head (first-ne w.nodes null us (p, ep) ((a, ea) ∷ vs) is.linked) in
      let reached = walk (suc (length us)) _ is in
      rw (==_false ne, reached, drop-append us (p, ep) ((a, ea) ∷ vs))
        (unlink_lem us p ep a ea vs is r)

  -- With an index past the last node of a nonempty list it reads through NULL.
  pub remove_at_index-past :
      (k : ℕ) (a e : Ptr) (cs : Cells Ptr)
      → IsList w l ((a, e) ∷ cs)
      → length cs ≤ k
      → remove_at_index (some l) (pos (suc k)) free_element w ≡ fault Fault.segfault
  unfolding remove_at_index
  remove_at_index-past k a e cs is le =
      let ne : l.head ≢ null = rw is.head is.linked.0 in
      let reached = walk (suc k) _ is in
      rw (==_false ne, reached, drop-past k cs le) (unlink-null ne)
