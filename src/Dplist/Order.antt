-- ===== src/Dplist/Order.antt =====
-- The order that `dpl_insert_sorted` keeps, where the comparison is that of a key.
use btvnlinux.Prelude.{
  ℕ, ◌<◌, ◌≤◌, ◌≡◌, ◌≢◌, Bool, none, some, List, [], ◌∷◌, arith, if◌then◌else◌, length, Bool-cases,
  inl, inr, ltb,
}
use mathlib.Core.List.{Perm}
use btvnlinux.Prelude.Int.{ℤ}
use btvnlinux.Memory.{Ptr, null, Heap, ok, pure}
use btvnlinux.Memory.Cells.{Cells, contents}
use btvnlinux.Memory.Returns
use btvnlinux.Memory.Returns.{Returns, returns}
use btvnlinux.Dplist.Defs.{World, world, Dplist, Block, is_positive, is_negative}
use btvnlinux.Dplist.Update.{insert_sorted}
use btvnlinux.Dplist.Chain.{IsList}
use btvnlinux.Dplist.Read.{Compares}
use btvnlinux.Dplist.Slot.{slot}
use btvnlinux.Dplist.Sorted.{Clashes}
use btvnlinux.Dplist.Insert.{sorted_in, contents-sorted_in-perm, insert_sorted-sorted_in}

abbrev pub All {ℓ κ} : {A : Type ℓ} → (A → Type κ) → List A → Type κ
All P [] = Unit
All P (x ∷ xs) = P x × All P xs

-- The comparison is that of the keys: negative, zero or positive as `x` is below, at or above `y`.
abbrev pub IsComparison : (Ptr → Ptr → ℤ) → (Ptr → ℕ) → Type 0
IsComparison cmp key =
    (x y : Ptr)
    → (is_negative (cmp x y) ≡ ltb (key x) (key y)) × (is_positive (cmp x y) ≡ ltb (key y) (key x))

-- The elements stand in ascending order of their keys.
abbrev pub IsSorted : (Ptr → ℕ) → List Ptr → Type 0
IsSorted key [] = Unit {0}
IsSorted key (e ∷ es) = All (λ f. key e ≤ key f) es × IsSorted key es

module _ (cmp : Ptr → Ptr → ℤ) (key : Ptr → ℕ) (is : IsComparison cmp key) where
  All-slot :
      (n : ℕ) (x e a f : Ptr) (cs : Cells Ptr)
      → n ≤ key e
      → n ≤ key f
      → All (λ g. n ≤ key g) (contents cs)
      → All (λ g. n ≤ key g) (contents (slot cmp (x, e) (a, f) cs))
  unfolding slot
  All-slot n x e a f [] he hf hs = elim (Bool-cases (is_negative (cmp e f))) [
    | inl lo ↦ rw lo (he, (hf, tt))
    | inr hi ↦ rw hi (hf, (he, tt))
  ]
  All-slot n x e a f ((b, g) ∷ cs) he hf hs = elim (Bool-cases (is_positive (cmp e f))) [
    | inl hi ↦ rw hi (hf, All-slot n x e b g cs he hs.0 hs.1)
    | inr lo ↦ rw lo (he, (hf, hs))
  ]

  All-le : (m n : ℕ) (es : List Ptr) → m ≤ n → All (λ g. n ≤ key g) es → All (λ g. m ≤ key g) es
  All-le m n [] le hs = tt
  All-le m n (e ∷ es) le hs = (omega arith, All-le m n es le hs.1)

  slot-IsSorted :
      (x e a f : Ptr) (cs : Cells Ptr)
      → IsSorted key (f ∷ contents cs)
      → IsSorted key (contents (slot cmp (x, e) (a, f) cs))
  unfolding slot
  slot-IsSorted x e a f [] s = elim (Bool-cases (is_negative (cmp e f))) [
    | inl lo ↦ rw lo ((ground (arith, is e f), tt), s)
    | inr hi ↦ rw hi ((ground (arith, is e f), tt), (tt, tt))
  ]
  slot-IsSorted x e a f ((b, g) ∷ cs) s = elim (Bool-cases (is_positive (cmp e f))) [
    | inl hi ↦
        let le : key f ≤ key e = ground (arith, is e f) in
        rw hi (All-slot (key f) x e b g cs le s.0.0 s.0.1, slot-IsSorted x e b g cs s.1)
    | inr lo ↦
        let le : key e ≤ key f = ground (arith, is e f) in
        rw lo ((le, All-le (key e) (key f) (g ∷ contents cs) le s.0), s)
  ]

  sorted_in-IsSorted :
      (x e : Ptr) (cs : Cells Ptr)
      → IsSorted key (contents cs)
      → IsSorted key (contents (sorted_in cmp (x, e) cs))
  unfolding sorted_in
  sorted_in-IsSorted x e [] s = (tt, tt)
  sorted_in-IsSorted x e ((a, f) ∷ cs) s = slot-IsSorted x e a f cs s

-- `dpl_insert_sorted` into a list in ascending order, of an element that does not clash with the
-- first: the list stays a list in ascending order, and holds the old elements and the new one.
pub insert_sorted-IsSorted :
    {E : Type 0} (w : World E) (els : Heap E) (l : Dplist E) (b : Block) (element e : Ptr)
    (insert_copy : Bool) (cmp : Ptr → Ptr → ℤ) (key : Ptr → ℕ) (fuel : ℕ) (cs : Cells Ptr)
    → b.address ≢ null
    → w.nodes b.address ≡ none
    → (if insert_copy then l.element_copy element else pure element) w ≡ ok e (world w.nodes els)
    → ((h : Heap _) → Compares l.element_compare (world h els) cmp e cs)
    → IsComparison cmp key
    → length cs < fuel
    → IsList w l cs
    → IsSorted key (contents cs)
    → ¬ Clashes cmp e cs
    → Returns
        (λ l' w'.
          (ds : Cells Ptr) × IsList w' l' ds
          × IsSorted key (contents ds)
          × Perm (contents ds) (e ∷ contents cs))
        (insert_sorted fuel b (some l) element insert_copy w)
insert_sorted-IsSorted w els l b element e insert_copy cmp key fuel cs room unused copied compares
      keyed lt is sorted nc =
    Returns.mono
      (insert_sorted-sorted_in w els l b element e insert_copy cmp room unused copied fuel cs lt is
        compares nc)
      λ l' w' (is', el, ee, same). (
        sorted_in cmp (b.address, e) cs,
        is',
        sorted_in-IsSorted cmp key keyed b.address e cs sorted,
        contents-sorted_in-perm cmp b.address e cs,
      )
