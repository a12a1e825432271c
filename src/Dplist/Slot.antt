-- ===== src/Dplist/Slot.antt =====
-- `dpl_insert_sorted`: where the new node goes, and the inputs on which the code reads through NULL.
use btvnlinux.Prelude.{
  ◌≡◌, refl, ap, ◌≢◌, true, some, [], ◌∷◌, ◌++◌, arith, if◌then◌else◌, Bool-cases, inl, inr,
}
use btvnlinux.Prelude.Int.{ℤ}
use btvnlinux.Memory.{Ptr, null, Heap, ok, fault, Fault, write}
use btvnlinux.Memory.Cells.{Cells, first_or, last_or, ◌∉◌, Apart}
use btvnlinux.Memory.Returns.{Returns, returns}
use btvnlinux.Dplist.Defs.{
  Node, node, World, world, Dplist, load, store, set_next, set_prev, is_positive, is_negative,
}
use btvnlinux.Dplist.Update.{link_behind, link_first, link_before}
use btvnlinux.Dplist.Chain.{Linked, Linked-split, Linked-append}
use btvnlinux.Dplist.Relink.{
  Linked-outside, Apart-middle, Apart-Neighbours, not-has-split, Linked-between,
}

-- The cells once `c` is put in behind the leading cells that compare below it; a last cell that
-- compares equal stays in front of it.
unfoldable pub slot : (Ptr → Ptr → ℤ) → Ptr × Ptr → Ptr × Ptr → Cells Ptr → Cells Ptr
slot cmp (x, e) (a, f) [] =
    if is_negative (cmp e f) then (x, e) ∷ (a, f) ∷ [] else (a, f) ∷ (x, e) ∷ []
slot cmp (x, e) (a, f) (b ∷ cs) =
    if is_positive (cmp e f) then (a, f) ∷ slot cmp (x, e) b cs else (x, e) ∷ (a, f) ∷ b ∷ cs

pub slot-cons :
    (cmp : Ptr → Ptr → ℤ) (c : Ptr × Ptr) (a f b g : Ptr) (cs : Cells Ptr)
    → is_positive (cmp c.1 f) ≡ true
    → slot cmp c (a, f) ((b, g) ∷ cs) ≡ (a, f) ∷ slot cmp c (b, g) cs
unfolding slot
slot-cons cmp c a f b g cs hi = rw hi

-- `slot` puts the new cell between two parts of the list.
pub slot-split :
    (cmp : Ptr → Ptr → ℤ) (c a : Ptr × Ptr) (cs : Cells Ptr)
    → (ls : Cells Ptr) × (rs : Cells Ptr) × (a ∷ cs ≡ ls ++ rs) × (slot cmp c a cs ≡ ls ++ c ∷ rs)
unfolding slot
slot-split cmp (x, e) (a, f) [] = elim (Bool-cases (is_negative (cmp e f))) [
  | inl lo ↦ ([], (a, f) ∷ [], refl, (rw lo))
  | inr hi ↦ ((a, f) ∷ [], [], refl, (rw hi))
]
slot-split cmp (x, e) (a, f) (b ∷ cs) = elim (Bool-cases (is_positive (cmp e f))) [
  | inl hi ↦
      let (ls, rs, p, q) = slot-split cmp (x, e) b cs in
      ((a, f) ∷ ls, rs, ap (λ t. (a, f) ∷ t) p, (rw (hi, q)))
  | inr lo ↦ ([], (a, f) ∷ b ∷ cs, refl, (rw lo))
]

-- What holds of the list before the new node `x` is linked in.
abbrev pub Ready : Heap Node → Ptr → Cells Ptr → Type 0
Ready h x cs = Linked h null cs null × Apart cs × (x ∉ cs)

-- The run leaves the cells `cs` linked from `hd`, and changes no other node and no element.
abbrev pub Links :
    {E : Type 0} → Heap E → Heap Node → Dplist E → Cells Ptr → Ptr → Dplist E → World E → Type 0
Links els h l cs hd l' w =
    (l' ≡ record l { head = hd })
    × (w.elements ≡ els)
    × Linked w.nodes null cs null
    × ((d : Ptr) → d ∉ cs → w.nodes d ≡ h d)

module _ {E : Type 0} (els : Heap E) (h : Heap Node) (l : Dplist E) (x e gp gn : Ptr)
    (nx : x ≢ null) (hx : h x ≡ some (node gp gn e)) where
  link_before-ok :
      (p ep lp a f na : Ptr)
      → p ≢ null
      → a ≢ null
      → x ≢ p
      → x ≢ a
      → p ≢ a
      → h p ≡ some (node lp a ep)
      → h a ≡ some (node p na f)
      → (g : Heap Node) × (link_before l x a (world h els) ≡ ok l (world g els))
        × (g p ≡ some (node lp x ep))
        × (g x ≡ some (node p a e))
        × (g a ≡ some (node x na f))
        × ((d : Ptr) → d ≢ p → d ≢ x → d ≢ a → g d ≡ h d)
  unfolding link_before set_next set_prev load store
  link_before-ok p ep lp a f na np na' xp xa pa hp ha = (
    write
        (write (write (write h x (some (node gp a e))) x (some (node p a e))) p
          (some (node lp x ep)))
        a (some (node x na f)),
    ground arith,
    ground arith,
    ground arith,
    ground arith,
    λ d dp dx da. ground arith,
  )

  link_first-ok :
      (a f na : Ptr)
      → a ≢ null
      → x ≢ a
      → h a ≡ some (node null na f)
      → (g : Heap Node) × (link_first l x a (world h els)
          ≡ ok (record l { head = x }) (world g els))
        × (g x ≡ some (node null a e))
        × (g a ≡ some (node x na f))
        × ((d : Ptr) → d ≢ x → d ≢ a → g d ≡ h d)
  unfolding link_first set_next set_prev load store
  link_first-ok a f na na' xa ha = (
    write (write (write h x (some (node null gn e))) x (some (node null a e))) a
        (some (node x na f)),
    ground arith,
    ground arith,
    ground arith,
    λ d dx da. ground arith,
  )

  link_behind-ok :
      (a f pa : Ptr)
      → a ≢ null
      → x ≢ a
      → h a ≡ some (node pa null f)
      → (g : Heap Node) × (link_behind l x a (world h els) ≡ ok l (world g els))
        × (g x ≡ some (node a null e))
        × (g a ≡ some (node pa x f))
        × ((d : Ptr) → d ≢ x → d ≢ a → g d ≡ h d)
  unfolding link_behind set_next set_prev load store
  link_behind-ok a f pa na xa ha = (
    write (write (write h x (some (node gp null e))) x (some (node a null e))) a
        (some (node pa x f)),
    ground arith,
    ground arith,
    ground arith,
    λ d dx da. ground arith,
  )

  pub link_before-Links :
      (us : Cells Ptr) (p ep a f : Ptr) (cs : Cells Ptr)
      → Ready h x (us ++ (p, ep) ∷ (a, f) ∷ cs)
      → Returns
          (Links els h l (us ++ (p, ep) ∷ (x, e) ∷ (a, f) ∷ cs) l.head)
          (link_before l x a (world h els))
  link_before-Links us p ep a f cs (ln, apart, out) =
      let (l', (np, hp, (na, ha, r))) = Linked-split h null null us ((p, ep) ∷ (a, f) ∷ cs) ln in
      let n = Apart-Neighbours us p ep a f cs apart in
      let (xu, xv) = not-has-split x us ((p, ep) ∷ (a, f) ∷ cs) out in
      let (g, run, gp', gx, ga, same) =
        link_before-ok p ep (last_or null us) a f (first_or null cs) np na (ground arith)
          (ground arith) n.p_a hp ha in
      rw run (
        returns (
          refl,
          refl,
          Linked-between h g us p ep x e a f cs nx out apart same gp' gx ga ln,
          λ d o.
              let (du, dv) = not-has-split d us ((p, ep) ∷ (x, e) ∷ (a, f) ∷ cs) o in
              same d (ground arith) (ground arith) (ground arith),
        ))

  pub link_first-Links :
      (a f : Ptr) (cs : Cells Ptr)
      → Ready h x ((a, f) ∷ cs)
      → Returns (Links els h l ((x, e) ∷ (a, f) ∷ cs) x) (link_first l x a (world h els))
  link_first-Links a f cs ((na, ha, r), (ac, apart), out) =
      let (g, run, gx, ga, same) = link_first-ok a f (first_or null cs) na (ground arith) ha in
      rw run (
        returns (
          refl,
          refl,
          (
            nx,
            gx,
            (
              na,
              ga,
              Linked-outside h g a null a x x cs (λ d da dx dx'. same d dx da) ac (ground arith)
                  (ground arith) r,
            ),
          ),
          λ d o. same d (ground arith) (ground arith),
        ))

  pub link_behind-Links :
      (us : Cells Ptr) (a f : Ptr)
      → Ready h x (us ++ (a, f) ∷ [])
      → Returns
          (Links els h l (us ++ (a, f) ∷ (x, e) ∷ []) l.head)
          (link_behind l x a (world h els))
  link_behind-Links us a f (ln, apart, out) =
      let (l', (na, ha, r)) = Linked-split h null null us ((a, f) ∷ []) ln in
      let (au, av, apart') = Apart-middle us a f [] apart in
      let (xu, xv) = not-has-split x us ((a, f) ∷ []) out in
      let (g, run, gx, ga, same) = link_behind-ok a f (last_or null us) na (ground arith) ha in
      rw run (
        returns (
          refl,
          refl,
          Linked-append g null null us ((a, f) ∷ (x, e) ∷ [])
              (Linked-outside h g null a a x x us (λ d da dx dx'. same d dx da) au xu xu l')
              (na, ga, (nx, gx, tt)),
          λ d o.
              let (du, dv) = not-has-split d us ((a, f) ∷ (x, e) ∷ []) o in
              same d (ground arith) (ground arith),
        ))

  -- In front of the head there is no node to link to the new one.
  pub link_before-head :
      (a f na : Ptr)
      → a ≢ null
      → x ≢ a
      → h a ≡ some (node null na f)
      → link_before l x a (world h els) ≡ fault Fault.segfault
  unfolding link_before set_next set_prev load store
  link_before-head a f na na' xa ha = ground arith
