-- ===== src/Memory/Cells.antt =====
-- What a linked structure stands for: the address and the contents of each node, in order.
use mathlib.Core.Bool.{or_assoc}
use btvnlinux.Prelude.{
  Option, ◌≢◌, arith, ◌≡◌, refl, Bool, true, false, ◌||◌, List, [], ◌∷◌, ◌++◌, ◌==◌,
}
use btvnlinux.Memory.{Ptr, null, Heap, write, object}

abbrev pub Cells : Type 0 → Type 0
Cells E = List (Ptr × E)

module _ {E : Type 0} where
  -- The address of the first cell; NULL if there is none.
  abbrev pub first : Cells E → Ptr
  first [] = null
  first ((a, e) ∷ cs) = a

  -- The address of the first cell, or `q` if there is none.
  abbrev pub first_or : Ptr → Cells E → Ptr
  first_or q [] = q
  first_or q ((a, e) ∷ cs) = a

  -- The address of the last cell, or `p` if there is none.
  abbrev pub last_or : Ptr → Cells E → Ptr
  last_or p [] = p
  last_or p ((a, e) ∷ cs) = last_or a cs

  abbrev pub contents : Cells E → List E
  contents [] = []
  contents ((a, e) ∷ cs) = e ∷ contents cs

  abbrev pub has : Ptr → Cells E → Bool
  has a [] = false
  has a ((b, e) ∷ cs) = (a == b) || has a cs

  -- No address occurs twice.
  abbrev pub Apart : Cells E → Type 0
  Apart [] = Unit {0}
  Apart ((a, e) ∷ cs) = (has a cs ≡ false) × Apart cs

  infix 40 ◌∉◌
  abbrev pub ◌∉◌ : Ptr → Cells E → Type 0
  a ∉ cs = has a cs ≡ false

module _ {E : Type 0} where
  pub has-append : (a : Ptr) (cs ds : Cells E) → has a (cs ++ ds) ≡ (has a cs || has a ds)
  has-append a [] ds = refl
  has-append a (c ∷ cs) ds = rw (has-append a cs ds, or_assoc)

  pub contents-append : (cs ds : Cells E) → contents (cs ++ ds) ≡ contents cs ++ contents ds
  contents-append [] ds = refl
  contents-append (c ∷ cs) ds = rw (contents-append cs ds)

  pub last_or-append : (p a : Ptr) (e : E) (cs : Cells E) → last_or p (cs ++ (a, e) ∷ []) ≡ a
  last_or-append p a e [] = refl
  last_or-append p a e ((b, f) ∷ cs) = last_or-append b a e cs

  pub not-mem-snoc : (a p : Ptr) (e : E) (cs : Cells E) → a ∉ cs → a ≢ p → a ∉ (cs ++ (p, e) ∷ [])
  not-mem-snoc a p e [] out ne = ground arith
  not-mem-snoc a p e ((b, f) ∷ cs) out ne = ground (arith, not-mem-snoc a p e cs)

  pub not-mem_of_snoc :
      (a p : Ptr) (e : E) (cs : Cells E) → a ∉ (cs ++ (p, e) ∷ []) → (a ∉ cs) × (a ≢ p)
  not-mem_of_snoc a p e [] out = ground arith
  not-mem_of_snoc a p e ((b, f) ∷ cs) out = ground (arith, not-mem_of_snoc a p e cs)

  pub not-mem-head : (a b : Ptr) (e : E) (cs : Cells E) → a ∉ ((b, e) ∷ cs) → a ≢ b
  not-mem-head a b e cs out = ground arith

  pub not-mem-tail : (a b : Ptr) (e : E) (cs : Cells E) → a ∉ ((b, e) ∷ cs) → a ∉ cs
  not-mem-tail a b e cs out = ground arith

  pub ne_of_has : (a b : Ptr) (cs : Cells E) → a ∉ cs → has b cs ≡ true → a ≢ b
  ne_of_has a b cs out inside e = cc

module _ {N : Type 0} where
  pub write_ne : (h : Heap N) (a p : Ptr) (c : Option N) → a ≢ p → write h p c a ≡ h a
  write_ne h a p c ne = ground arith

  pub write_self : (h : Heap N) (p : Ptr) (c : Option N) → write h p c p ≡ c
  write_self h p c = ground arith

  pub object-eq : (h : Heap N) (p : Ptr) → p ≢ null → object h p ≡ h p
  object-eq h p ne = ground arith
