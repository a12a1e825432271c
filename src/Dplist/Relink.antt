-- ===== src/Dplist/Relink.antt =====
-- Lists before and after a few links are changed, whatever the code that changes them.
use btvnlinux.Prelude.{◌≡◌, refl, sym, ◌≢◌, some, [], ◌∷◌, ◌++◌, arith}
use btvnlinux.Memory.{Ptr, null, Heap}
use btvnlinux.Memory.Cells.{
  Cells, first_or, last_or, ◌∉◌, Apart, has-append, ne_of_has, not-mem-tail,
}
use btvnlinux.Dplist.Defs.{Node, node}
use btvnlinux.Dplist.Chain.{Linked, Linked-append, Linked-split, Linked-same}

-- An address that is not in a list is in neither half.
pub not-has-split : (a : Ptr) (us vs : Cells Ptr) → a ∉ (us ++ vs) → (a ∉ us) × (a ∉ vs)
not-has-split a us vs out = let e = has-append a us vs in ground arith

-- What `Apart` says of a cell in the middle.
pub Apart-middle :
    (us : Cells Ptr) (a e : Ptr) (vs : Cells Ptr)
    → Apart (us ++ (a, e) ∷ vs)
    → (a ∉ us) × (a ∉ vs) × Apart vs
Apart-middle [] a e vs ap = (refl, ap.0, ap.1)
Apart-middle ((b, f) ∷ us) a e vs (out, ap) =
    let (l, r, ap') = Apart-middle us a e vs ap in
    (ground (arith, has-append b us ((a, e) ∷ vs)), r, ap')

-- What it says of two neighbours.
pub record Neighbours (us : Cells Ptr) (p a : Ptr) (vs : Cells Ptr) : Type 0 where
  pub p_us : p ∉ us
  pub a_us : a ∉ us
  pub p_a : p ≢ a
  pub p_vs : p ∉ vs
  pub a_vs : a ∉ vs

pub Apart-Neighbours :
    (us : Cells Ptr) (p ep a ea : Ptr) (vs : Cells Ptr)
    → Apart (us ++ (p, ep) ∷ (a, ea) ∷ vs)
    → Neighbours us p a vs
Apart-Neighbours [] p ep a ea vs (o, (o', ap)) = record {
  p_us = refl;
  a_us = refl;
  p_a = ground arith;
  p_vs = ground arith;
  a_vs = o';
}
Apart-Neighbours ((b, f) ∷ us) p ep a ea vs (out, ap) =
    let n = Apart-Neighbours us p ep a ea vs ap in
    let out' = not-has-split b us ((p, ep) ∷ (a, ea) ∷ vs) out in
    record { p_us = ground arith; a_us = ground arith; p_a = n.p_a; p_vs = n.p_vs; a_vs = n.a_vs }

-- A new address keeps the addresses apart wherever its cell is put.
pub Apart-insert :
    (us : Cells Ptr) (x e : Ptr) (vs : Cells Ptr)
    → x ∉ (us ++ vs)
    → Apart (us ++ vs)
    → Apart (us ++ (x, e) ∷ vs)
Apart-insert [] x e vs out ap = (out, ap)
Apart-insert ((b, f) ∷ us) x e vs out (o, ap) = (
  ground (arith, has-append b us vs, has-append b us ((x, e) ∷ vs)),
  Apart-insert us x e vs (ground arith) ap,
)

-- A cell behind another can be taken out.
pub Apart-remove :
    (us : Cells Ptr) (p ep x e : Ptr) (vs : Cells Ptr)
    → Apart (us ++ (p, ep) ∷ (x, e) ∷ vs)
    → Apart (us ++ (p, ep) ∷ vs)
Apart-remove [] p ep x e vs (o, (o', ap)) = (not-mem-tail p x e vs o, ap)
Apart-remove ((b, f) ∷ us) p ep x e vs (o, ap) = (
  ground (arith, has-append b us ((p, ep) ∷ vs), has-append b us ((p, ep) ∷ (x, e) ∷ vs)),
  Apart-remove us p ep x e vs ap,
)

module _ (h g : Heap Node) where
  -- Agreement outside up to three addresses carries over the cells that are none of them.
  pub Linked-outside :
      (p q a b c : Ptr) (cs : Cells Ptr)
      → ((d : Ptr) → d ≢ a → d ≢ b → d ≢ c → g d ≡ h d)
      → a ∉ cs
      → b ∉ cs
      → c ∉ cs
      → Linked h p cs q
      → Linked g p cs q
  Linked-outside p q a b c cs same oa ob oc = Linked-same h g p q cs λ d i.
      same d (λ e. ne_of_has a d cs oa i (sym e)) (λ e. ne_of_has b d cs ob i (sym e))
        (λ e. ne_of_has c d cs oc i (sym e))

  -- A node put between two neighbours.
  pub Linked-between :
      (us : Cells Ptr) (p ep x ex a ea : Ptr) (vs : Cells Ptr)
      → x ≢ null
      → x ∉ (us ++ (p, ep) ∷ (a, ea) ∷ vs)
      → Apart (us ++ (p, ep) ∷ (a, ea) ∷ vs)
      → ((d : Ptr) → d ≢ p → d ≢ x → d ≢ a → g d ≡ h d)
      → g p ≡ some (node (last_or null us) x ep)
      → g x ≡ some (node p a ex)
      → g a ≡ some (node x (first_or null vs) ea)
      → Linked h null (us ++ (p, ep) ∷ (a, ea) ∷ vs) null
      → Linked g null (us ++ (p, ep) ∷ (x, ex) ∷ (a, ea) ∷ vs) null
  Linked-between us p ep x ex a ea vs nx out ap same gp gx ga ln =
      let (l, (np, hp, (na, ha, r))) = Linked-split h null null us ((p, ep) ∷ (a, ea) ∷ vs) ln in
      let n = Apart-Neighbours us p ep a ea vs ap in
      let (xu, xv) = not-has-split x us ((p, ep) ∷ (a, ea) ∷ vs) out in
      Linked-append g null null us ((p, ep) ∷ (x, ex) ∷ (a, ea) ∷ vs)
        (Linked-outside null p p x a us same n.p_us xu n.a_us l)
        (
          np,
          gp,
          (nx, gx, (na, ga, Linked-outside a null p x a vs same n.p_vs (ground arith) n.a_vs r)),
        )
