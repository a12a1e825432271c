-- ===== src/Dplist/Read.antt =====
-- What the reading functions of lib/dplist.c return on a list that is linked as it should be.
use btvnlinux.Prelude.{
  ℕ, zero, suc, ◌+◌, ◌<◌, ◌≡◌, refl, ap, ◌∙◌, ◌≢◌, Bool, false, some, List, [], ◌∷◌, arith, ◌==◌,
  if◌then◌else◌, ==_false, drop, length, Bool-cases, inl, inr,
}
use btvnlinux.Prelude.Int.{ℤ, pos, negsuc}
use btvnlinux.Memory.{Ptr, null, ok, fault, Fault, out_of_fuel, Cmd, pure, ◌>>=◌, and_then}
use btvnlinux.Memory.Cells.{Cells, first_or, contents}
use btvnlinux.Dplist.Defs.{
  Node, World, Dplist, load, is_zero, at_most_zero, rounds, size, size_loop, advance,
  get_reference_at_index, get_element_at_index, run_off, find_index, get_index_of_element, spin,
  get_element_at_reference,
}
use btvnlinux.Dplist.Update.{seek_equal, get_reference_of_element}
use btvnlinux.Dplist.Chain.{Linked, IsList, load-ok, load-null}

-- What `dpl_size` counts: one more than there are nodes, but 0 for none.
abbrev pub counted : ℕ → ℕ
counted zero = 0
counted (suc n) = suc (suc n)

-- Comparing `x` with each element of the list reads elements, changes nothing, and gives `cmp`.
abbrev pub Compares :
    {E : Type 0}
    → (Ptr → Ptr → Cmd (World E) ℤ)
    → World E
    → (Ptr → Ptr → ℤ)
    → Ptr
    → Cells Ptr
    → Type 0
Compares compare w cmp x [] = Unit {0}
Compares compare w cmp x ((a, f) ∷ cs) =
    (compare x f w ≡ ok (cmp x f) w) × Compares compare w cmp x cs

-- The index of the first element that `match` accepts; the length if there is none.
unfoldable pub first_index : (Ptr → Bool) → List Ptr → ℕ
first_index match [] = 0
first_index match (e ∷ es) = if match e then 0 else suc (first_index match es)

-- What `dpl_get_index_of_element` reports: -1 only for the empty list.
unfoldable pub reported : (Ptr → Bool) → List Ptr → ℤ
reported match [] = negsuc 0
reported match (e ∷ es) = pos (first_index match (e ∷ es))

-- The address of the first cell whose element `match` accepts; NULL if there is none.
unfoldable pub first_cell : (Ptr → Bool) → Cells Ptr → Ptr
first_cell match [] = null
first_cell match ((a, e) ∷ cs) = if match e then a else first_cell match cs

module _ {E : Type 0} (w : World E) where
  size_loop-length :
      (k : ℕ) (p : Ptr) (cs : Cells Ptr) (n : ℕ)
      → length cs < k
      → Linked w.nodes p cs null
      → size_loop k (first_or null cs) n w ≡ ok (n + length cs) w
  unfolding size_loop
  size_loop-length zero p cs n lt ln = absurd (omega arith)
  size_loop-length (suc k) p [] n lt ln = ap (λ m. ok m w) (omega arith)
  size_loop-length (suc k) p ((a, e) ∷ cs) n lt (ne, at, ln) =
      rw (==_false ne, load-ok w a _ ne at)
        (size_loop-length k a cs (n + 1) (omega arith) ln ∙ ap (λ m. ok m w) (omega arith))

  pub advance-drop :
      (k : ℕ) (p : Ptr) (cs : Cells Ptr)
      → Linked w.nodes p cs null
      → advance k (first_or null cs) w ≡ ok (first_or null (drop k cs)) w
  unfolding advance
  advance-drop zero p cs ln = refl
  advance-drop (suc k) p [] ln = refl
  advance-drop (suc k) p ((a, e) ∷ cs) (ne, at, ln) =
      rw (==_false ne, load-ok w a _ ne at) (advance-drop k a cs ln)

  pub run_off-null :
      (k : ℕ) (p : Ptr) (cs : Cells Ptr)
      → length cs < k
      → Linked w.nodes p cs null
      → run_off k (first_or null cs) w ≡ ok null w
  unfolding run_off
  run_off-null zero p cs lt ln = absurd (omega arith)
  run_off-null (suc k) p [] lt ln = refl
  run_off-null (suc k) p ((a, e) ∷ cs) lt (ne, at, ln) =
      rw (==_false ne, load-ok w a _ ne at) (run_off-null k a cs (omega arith) ln)

  -- On a list that is linked as it should be `dpl_size` ends without a fault and returns one more
  -- than the number of nodes, except that an empty list has size 0.
  pub size-counted :
      (fuel : ℕ) (l : Dplist E) (cs : Cells Ptr)
      → length cs < fuel
      → IsList w l cs
      → size fuel (some l) w ≡ ok (counted (length cs)) w
  unfolding size
  size-counted fuel l [] lt is = rw (is.head)
  size-counted fuel l ((a, e) ∷ cs) lt is =
      rw (is.head, ==_false is.linked.0)
        (size_loop-length fuel null ((a, e) ∷ cs) 1 lt is.linked ∙ ap (λ m. ok m w) (omega arith))

  -- `dpl_get_reference_at_index` returns the address of the node at the index, the first node's
  -- for an index of 0 or less, and NULL for an index past the last node.
  pub get_reference_at_index-drop :
      (l : Dplist E) (index : ℤ) (cs : Cells Ptr)
      → IsList w l cs
      → get_reference_at_index (some l) index w ≡ ok (first_or null (drop (rounds index) cs)) w
  unfolding get_reference_at_index
  get_reference_at_index-drop l (negsuc i) cs is = ap (λ p. ok p w) is.head
  get_reference_at_index-drop l (pos zero) cs is = ap (λ p. ok p w) is.head
  get_reference_at_index-drop l (pos (suc i)) [] is = rw (is.head)
  get_reference_at_index-drop l (pos (suc i)) ((a, e) ∷ cs) is =
      let (ne, at, ln) = is.linked in
      rw (is.head, ==_false ne, load-ok w a _ ne at) (advance-drop i a cs ln)

  -- `dpl_get_element_at_index` on a nonempty list returns the first element for an index of 0 or
  -- less, and reads through NULL for every positive index, in range or not.
  pub get_element_at_index-cons :
      (fuel : ℕ) (l : Dplist E) (index : ℤ) (a e : Ptr) (cs : Cells Ptr)
      → length cs + 1 < fuel
      → IsList w l ((a, e) ∷ cs)
      → get_element_at_index fuel (some l) index w
        ≡ (if at_most_zero index then ok e w else fault Fault.segfault)
  unfolding get_element_at_index
  get_element_at_index-cons fuel l index a e cs lt is = elim (Bool-cases (at_most_zero index)) [
    | inl front ↦
        rw (is.head, ==_false is.linked.0, front) (rw (load-ok w a _ is.linked.0 is.linked.1))
    | inr back ↦
        rw (is.head, ==_false is.linked.0, back)
          (rw (run_off-null fuel null ((a, e) ∷ cs) (omega arith) is.linked, load-null w))
  ]

  find_index-first_index :
      (k : ℕ) (compare : Ptr → Ptr → Cmd (World E) ℤ) (x p : Ptr) (cs : Cells Ptr) (i : ℕ)
      (cmp : Ptr → Ptr → ℤ)
      → length cs < k
      → Compares compare w cmp x cs
      → Linked w.nodes p cs null
      → find_index k compare x (first_or null cs) i w
        ≡ ok (i + first_index (λ e. is_zero (cmp x e)) (contents cs)) w
  unfolding find_index first_index
  find_index-first_index zero compare x p cs i cmp lt c ln = absurd (omega arith)
  find_index-first_index (suc k) compare x p [] i cmp lt c ln = ap (λ n. ok n w) (omega arith)
  find_index-first_index (suc k) compare x p ((a, e) ∷ cs) i cmp lt c (ne, at, ln) =
      rw (==_false ne, load-ok w a _ ne at, c.0)
        (elim (Bool-cases (is_zero (cmp x e))) [
          | inl hit ↦ rw hit (ap (λ n. ok n w) (omega arith))
          | inr miss ↦ rw miss (
              find_index-first_index k compare x a cs (i + 1) cmp (omega arith) c.1 ln
              ∙ ap (λ n. ok n w) (omega arith))
        ])

  -- `dpl_get_index_of_element` returns -1 on an empty list, and else the index of the first
  -- element that compares equal; where none does, that is the number of elements, and not -1.
  pub get_index_of_element-first_index :
      (fuel : ℕ) (l : Dplist E) (x : Ptr) (cs : Cells Ptr) (cmp : Ptr → Ptr → ℤ)
      → length cs < fuel
      → Compares l.element_compare w cmp x cs
      → IsList w l cs
      → get_index_of_element fuel (some l) x w
        ≡ ok (reported (λ e. is_zero (cmp x e)) (contents cs)) w
  unfolding get_index_of_element reported
  get_index_of_element-first_index fuel l x [] cmp lt c is = rw (is.head)
  get_index_of_element-first_index fuel l x ((a, e) ∷ cs) cmp lt c is =
      rw
        (
          is.head,
          ==_false is.linked.0,
          find_index-first_index fuel l.element_compare x null ((a, e) ∷ cs) 0 cmp lt c is.linked,
        )
        (ap (λ n. ok (pos n) w) (omega arith))

  seek_equal-cell :
      (k : ℕ) (compare : Ptr → Ptr → Cmd (World E) ℤ) (x p : Ptr) (a e : Ptr) (cs : Cells Ptr)
      (cmp : Ptr → Ptr → ℤ)
      → length cs < k
      → Compares compare w cmp x ((a, e) ∷ cs)
      → Linked w.nodes p ((a, e) ∷ cs) null
      → and_then
          (seek_equal k compare x a w)
          (λ pt. do n ← load pt; c ← compare x n.element; pure (if is_zero c then pt else null))
        ≡ ok (first_cell (λ f. is_zero (cmp x f)) ((a, e) ∷ cs)) w
  unfolding seek_equal first_cell
  seek_equal-cell zero compare x p a e cs cmp lt c ln = absurd (omega arith)
  seek_equal-cell (suc k) compare x p a e [] cmp lt c (ne, at, ln) =
      rw (load-ok w a _ ne at) (rw (load-ok w a _ ne at, c.0))
  seek_equal-cell (suc k) compare x p a e ((b, f) ∷ cs) cmp lt c (ne, at, ln) =
      rw (load-ok w a _ ne at, ==_false ln.0, c.0)
        (elim (Bool-cases (is_zero (cmp x e))) [
          | inl hit ↦ rw hit (rw (load-ok w a _ ne at, c.0, hit))
          | inr miss ↦ rw miss (seek_equal-cell k compare x a b f cs cmp (omega arith) c.1 ln)
        ])

  -- `dpl_get_reference_of_element` returns the address of the first node whose element compares
  -- equal, and NULL where there is none.
  pub get_reference_of_element-first_cell :
      (fuel : ℕ) (l : Dplist E) (x : Ptr) (cs : Cells Ptr) (cmp : Ptr → Ptr → ℤ)
      → length cs < fuel
      → Compares l.element_compare w cmp x cs
      → IsList w l cs
      → get_reference_of_element fuel (some l) x w ≡ ok (first_cell (λ e. is_zero (cmp x e)) cs) w
  unfolding get_reference_of_element first_cell
  get_reference_of_element-first_cell fuel l x [] cmp lt c is = rw (is.head)
  get_reference_of_element-first_cell fuel l x ((a, e) ∷ cs) cmp lt c is =
      rw (is.head, ==_false is.linked.0)
        (seek_equal-cell fuel l.element_compare x null a e cs cmp (omega arith) c is.linked)

  spin-hang : (k : ℕ) (r a : Ptr) → a ≢ null → (a == r) ≡ false → spin k r a w ≡ out_of_fuel
  unfolding spin
  spin-hang zero r a ne miss = refl
  spin-hang (suc k) r a ne miss = rw (==_false ne, miss) (spin-hang k r a ne miss)

  spin-eq :
      (k : ℕ) (r a e : Ptr) (n : Node)
      → 0 < k
      → a ≢ null
      → w.nodes a ≡ some n
      → spin k r a w ≡ (if a == r then ok n.element w else out_of_fuel)
  unfolding spin
  spin-eq zero r a e n lt ne at = absurd (omega arith)
  spin-eq (suc k) r a e n lt ne at = elim (Bool-cases (a == r)) [
    | inl hit ↦ rw (==_false ne, hit) (rw (load-ok w a _ ne at))
    | inr miss ↦ rw (==_false ne, miss) (spin-hang k r a ne miss)
  ]

  -- `dpl_get_element_at_reference` on a nonempty list: the first node's own address gives its
  -- element, NULL makes it read through NULL, and for any other address its loop never ends.
  pub get_element_at_reference-cons :
      (fuel : ℕ) (l : Dplist E) (r a e : Ptr) (cs : Cells Ptr)
      → length cs + 1 < fuel
      → IsList w l ((a, e) ∷ cs)
      → get_element_at_reference fuel (some l) r w
        ≡ (if r == null then fault Fault.segfault else if a == r then ok e w else out_of_fuel)
  unfolding get_element_at_reference
  get_element_at_reference-cons fuel l r a e cs lt is = elim (Bool-cases (r == null)) [
    | inl nil ↦
        rw (is.head, ==_false is.linked.0, nil)
          (rw (run_off-null fuel null ((a, e) ∷ cs) (omega arith) is.linked, load-null w))
    | inr ref ↦
        rw (is.head, ==_false is.linked.0, ref)
          (spin-eq fuel r a e _ (omega arith) is.linked.0 is.linked.1)
  ]
