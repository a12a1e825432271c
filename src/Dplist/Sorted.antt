-- ===== src/Dplist/Sorted.antt =====
-- `dpl_insert_sorted`: where the new node goes, and the inputs on which the code reads through NULL.
use btvnlinux.Prelude.{
  ℕ, zero, suc, ◌<◌, ◌≡◌, refl, sym, ◌≢◌, true, false, some, [], ◌∷◌, ◌++◌, arith, ◌==◌, ==_false,
  ==_refl, length, Bool-cases, inl, inr, append_assoc,
}
use mathlib.Core.Path.{subst}
use btvnlinux.Prelude.Int.{ℤ, pos, negsuc}
use btvnlinux.Memory.{Ptr, null, Heap, Run, fault, Fault, and_then}
use btvnlinux.Memory.Cells.{Cells, first_or, has, has-append, ne_of_has, not-mem-snoc}
use btvnlinux.Memory.Returns.{Returns}
use btvnlinux.Dplist.Defs.{Node, node, World, world, Dplist, is_zero, is_positive, is_negative}
use btvnlinux.Dplist.Update.{seek, link_behind, link_first_or_before, place}
use btvnlinux.Dplist.Chain.{Linked-split, load-ok}
use btvnlinux.Dplist.Read.{Compares}
use btvnlinux.Dplist.Relink.{Apart-Neighbours}
use btvnlinux.Dplist.Slot.{
  slot, slot-cons, link_before-head, Ready, Links, link_before-Links, link_first-Links,
  link_behind-Links,
}

sign-zero : (z : ℤ) → is_positive z ≡ false → is_negative z ≡ false → is_zero z ≡ true
sign-zero (pos zero) p n = refl
sign-zero (pos (suc k)) p n = cc
sign-zero (negsuc k) p n = cc

zero-sign : (z : ℤ) → is_zero z ≡ true → (is_positive z ≡ false) × (is_negative z ≡ false)
zero-sign (pos zero) e = (refl, refl)
zero-sign (pos (suc k)) e = cc
zero-sign (negsuc k) e = cc

-- A list of two or more whose first element compares equal.
abbrev pub Clashes : (Ptr → Ptr → ℤ) → Ptr → Cells Ptr → Type 0
Clashes cmp e [] = ⊥
Clashes cmp e ((a, f) ∷ cs) = (is_zero (cmp e f) ≡ true) × (cs ≢ [])

module _ {E : Type 0} (els : Heap E) (h : Heap Node) (l : Dplist E) (x e gp gn : Ptr)
    (nx : x ≢ null) (hx : h x ≡ some (node gp gn e)) (cmp : Ptr → Ptr → ℤ) where
  -- The rest of `dpl_insert_sorted` from the search on, started at node `a`.
  abbrev search_and_place : ℕ → Ptr → Run (World E) (Dplist E)
  search_and_place k a =
      and_then (seek k l.element_compare e a (world h els)) (λ pt. place l x pt e)

  -- A node behind the first few is not the head.
  head_apart :
      (us : Cells Ptr) (p ep a f : Ptr) (cs : Cells Ptr)
      → has l.head (us ++ (p, ep) ∷ []) ≡ true
      → Ready h x (us ++ (p, ep) ∷ (a, f) ∷ cs)
      → l.head ≢ a
  head_apart us p ep a f cs hd rd =
      let n = Apart-Neighbours us p ep a f cs rd.1 in
      λ q.
        ne_of_has a l.head (us ++ (p, ep) ∷ []) (not-mem-snoc a p ep us n.a_us (λ r. n.p_a (sym r)))
          hd (sym q)

  place_inside :
      (us : Cells Ptr) (p ep a f : Ptr) (cs : Cells Ptr)
      → l.head ≢ a
      → Compares l.element_compare (world h els) cmp e ((a, f) ∷ [])
      → (length cs ≢ 0 → is_positive (cmp e f) ≡ false)
      → Ready h x (us ++ (p, ep) ∷ (a, f) ∷ cs)
      → Returns
          (Links els h l (us ++ (p, ep) ∷ slot cmp (x, e) (a, f) cs) l.head)
          (place l x a e (world h els))
  unfolding place link_first_or_before slot
  place_inside us p ep a f [] nh cp np rd =
      let (l', (np', hp, (na, ha, r))) = Linked-split h null null us ((p, ep) ∷ (a, f) ∷ []) rd.0 in
      rw (load-ok (world h els) a _ na ha) (elim (Bool-cases (is_negative (cmp e f))) [
        | inl lo ↦
            rw (cp.0, lo, ==_false (λ q. nh (sym q)))
              (link_before-Links els h l x e gp gn nx hx us p ep a f [] rd)
        | inr hi ↦
            rw (cp.0, hi)
              (subst (λ z. Returns (Links els h l z l.head) (link_behind l x a (world h els)))
                (append_assoc us ((p, ep) ∷ []) ((a, f) ∷ (x, e) ∷ []))
                (link_behind-Links els h l x e gp gn nx hx (us ++ (p, ep) ∷ []) a f
                  (subst (Ready h x) (sym (append_assoc us ((p, ep) ∷ []) ((a, f) ∷ []))) rd)))
      ])
  place_inside us p ep a f (b ∷ cs) nh cp np rd =
      let (l', (np', hp, (na, ha, r))) =
        Linked-split h null null us ((p, ep) ∷ (a, f) ∷ b ∷ cs) rd.0 in
      rw
        (
          load-ok (world h els) a _ na ha,
          ==_false r.0,
          ==_false (λ q. nh (sym q)),
          np (omega arith),
        )
        (link_before-Links els h l x e gp gn nx hx us p ep a f (b ∷ cs) rd)

  seek_inside :
      (k : ℕ) (us : Cells Ptr) (p ep a f : Ptr) (cs : Cells Ptr)
      → length cs < k
      → has l.head (us ++ (p, ep) ∷ []) ≡ true
      → Compares l.element_compare (world h els) cmp e ((a, f) ∷ cs)
      → Ready h x (us ++ (p, ep) ∷ (a, f) ∷ cs)
      → Returns
          (Links els h l (us ++ (p, ep) ∷ slot cmp (x, e) (a, f) cs) l.head)
          (search_and_place k a)
  unfolding seek
  seek_inside zero us p ep a f cs lt hd cp rd = absurd (omega arith)
  seek_inside (suc k) us p ep a f [] lt hd cp rd =
      let (l', (np', hp, (na, ha, r))) = Linked-split h null null us ((p, ep) ∷ (a, f) ∷ []) rd.0 in
      rw (load-ok (world h els) a _ na ha) (
        place_inside us p ep a f [] (head_apart us p ep a f [] hd rd) (cp.0, tt)
          (λ q. absurd (q refl)) rd)
  seek_inside (suc k) us p ep a f ((b, g) ∷ cs) lt hd cp rd =
      let (l', (np', hp, (na, ha, r))) =
        Linked-split h null null us ((p, ep) ∷ (a, f) ∷ (b, g) ∷ cs) rd.0 in
      rw (load-ok (world h els) a _ na ha, ==_false r.0, cp.0)
        (elim (Bool-cases (is_positive (cmp e f))) [
          | inl hi ↦ rw hi (
              rw (slot-cons cmp (x, e) a f b g cs hi) (
                subst (λ z. Returns (Links els h l z l.head) (search_and_place k b))
                  (append_assoc us ((p, ep) ∷ []) ((a, f) ∷ slot cmp (x, e) (b, g) cs))
                  (seek_inside k (us ++ (p, ep) ∷ []) a f b g cs (omega arith)
                    (rw (has-append l.head (us ++ (p, ep) ∷ []) ((a, f) ∷ []), hd) refl) cp.1
                    (subst (Ready h x) (sym (append_assoc us ((p, ep) ∷ []) ((a, f) ∷ (b, g) ∷ cs)))
                      rd))))
          | inr lo ↦ rw lo (
              place_inside us p ep a f ((b, g) ∷ cs) (head_apart us p ep a f ((b, g) ∷ cs) hd rd)
                (cp.0, tt) (λ q. lo) rd)
        ])

  pub search_head :
      (k : ℕ) (a f : Ptr) (cs : Cells Ptr)
      → length cs < k
      → l.head ≡ a
      → Compares l.element_compare (world h els) cmp e ((a, f) ∷ cs)
      → ¬ Clashes cmp e ((a, f) ∷ cs)
      → Ready h x ((a, f) ∷ cs)
      → Returns
          (Links els h l (slot cmp (x, e) (a, f) cs) (first_or null (slot cmp (x, e) (a, f) cs)))
          (search_and_place k a)
  unfolding seek place link_first_or_before slot
  search_head zero a f cs lt hd cp nc rd = absurd (omega arith)
  search_head (suc k) a f [] lt hd cp nc rd =
      let (na, ha, r) = rd.0 in
      let hit : (a == l.head) ≡ true = rw hd (==_refl a) in
      rw (load-ok (world h els) a _ na ha) (
        rw (load-ok (world h els) a _ na ha, cp.0)
          (elim (Bool-cases (is_negative (cmp e f))) [
            | inl lo ↦
                rw (lo, hit) (rw (cp.0, lo) (link_first-Links els h l x e gp gn nx hx a f [] rd))
            | inr hi ↦ rw hi (
                subst
                  (λ z.
                    Returns (Links els h l ((a, f) ∷ (x, e) ∷ []) z)
                      (link_behind l x a (world h els)))
                  hd (link_behind-Links els h l x e gp gn nx hx [] a f rd))
          ]))
  search_head (suc k) a f ((b, g) ∷ cs) lt hd cp nc rd =
      let (na, ha, r) = rd.0 in
      let hit : (a == l.head) ≡ true = rw hd (==_refl a) in
      rw (load-ok (world h els) a _ na ha, ==_false r.0, cp.0)
        (elim (Bool-cases (is_positive (cmp e f))) [
          | inl hi ↦ rw hi (
              subst
                (λ z.
                  Returns (Links els h l ((a, f) ∷ slot cmp (x, e) (b, g) cs) z)
                    (search_and_place k b))
                hd (seek_inside k [] a f b g cs (omega arith) (rw (hd, ==_refl a)) cp.1 rd))
          | inr lo ↦ rw lo (
              rw (load-ok (world h els) a _ na ha, ==_false r.0, hit, cp.0)
                (elim (Bool-cases (is_negative (cmp e f))) [
                  | inl neg ↦ rw neg (link_first-Links els h l x e gp gn nx hx a f ((b, g) ∷ cs) rd)
                  | inr nonneg ↦ absurd (nc (sign-zero (cmp e f) lo nonneg, λ q. cc))
                ]))
        ])

  pub search_clash :
      (k : ℕ) (a f : Ptr) (cs : Cells Ptr)
      → 0 < k
      → l.head ≡ a
      → Compares l.element_compare (world h els) cmp e ((a, f) ∷ cs)
      → Clashes cmp e ((a, f) ∷ cs)
      → Ready h x ((a, f) ∷ cs)
      → search_and_place k a ≡ fault Fault.segfault
  unfolding seek place link_first_or_before
  search_clash zero a f cs lt hd cp cl rd = absurd (omega arith)
  search_clash (suc k) a f [] lt hd cp cl rd = absurd (cl.1 refl)
  search_clash (suc k) a f ((b, g) ∷ cs) lt hd cp cl rd =
      let (na, ha, r) = rd.0 in
      let hit : (a == l.head) ≡ true = rw hd (==_refl a) in
      let (np, nn) = zero-sign (cmp e f) cl.0 in
      rw (load-ok (world h els) a _ na ha, ==_false r.0, cp.0, np)
        (rw (load-ok (world h els) a _ na ha, ==_false r.0, hit, cp.0, nn)
          (link_before-head els h l x e gp gn nx hx a f b na (ground arith) ha))
