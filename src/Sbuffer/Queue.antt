-- ===== src/Sbuffer/Queue.antt =====
-- A buffer whose nodes form a list behaves as the first-in first-out queue of their contents.
use btvnlinux.Prelude.{none, ◌≡◌, refl, ◌∙◌, ◌≢◌, true, Option, some, [], ◌∷◌, ◌++◌, arith}
use btvnlinux.Memory.{Ptr, null, Heap, write}
use btvnlinux.Memory.Cells.{Cells, first, last_or, has, ◌∉◌, ne_of_has, write_ne, not-mem-snoc}
use btvnlinux.Sbuffer.{Node, node, Sbuffer}

-- The nodes `cs` stand in the heap at distinct addresses, each linked to the one behind it.
abbrev pub IsChain : {D : Type 0} → Heap (Node D) → Cells D → Type 0
IsChain h [] = Unit {0}
IsChain h ((a, d) ∷ cs) = (a ≢ null) × (h a ≡ some (node (first cs) d)) × (a ∉ cs) × IsChain h cs

module _ {D : Type 0} where
  -- `b` points to both ends of the chain `cs`, and the heap holds no other node.
  pub record IsBuffer (h : Heap (Node D)) (b : Sbuffer) (cs : Cells D) : Type 0 where
    pub head : b.head ≡ first cs
    pub tail : b.tail ≡ last_or null cs
    pub chain : IsChain h cs
    pub owned : (a : Ptr) → a ∉ cs → h a ≡ none

  -- A write outside a chain leaves it.
  pub IsChain-write :
      (h : Heap (Node D)) (cs : Cells D) (a : Ptr) (c : Option (Node D))
      → a ∉ cs
      → IsChain h cs
      → IsChain (write h a c) cs
  IsChain-write h [] a c out ch = tt
  IsChain-write h ((b, d) ∷ cs) a c out (ne, at, apart, ch) =
      (ne, ground arith, apart, IsChain-write h cs a c (ground arith) ch)

  -- The last node of a chain.
  pub last-object :
      (h : Heap (Node D)) (a : Ptr) (d : D) (cs : Cells D)
      → IsChain h ((a, d) ∷ cs)
      → (f : D) × (h (last_or a cs) ≡ some (node null f))
        × (last_or a cs ≢ null)
        × (has (last_or a cs) ((a, d) ∷ cs) ≡ true)
  last-object h a d [] (ne, at, apart, ch) = (d, at, ne, ground arith)
  last-object h a d ((b, e) ∷ cs) (ne, at, apart, ch) =
      let (f, at', ne', in') = last-object h b e cs ch in (f, at', ne', ground arith)

  -- A chain with one more node linked behind its last.
  pub IsChain-link :
      (h : Heap (Node D)) (a p : Ptr) (d e f : D) (cs : Cells D)
      → p ≢ null
      → p ∉ ((a, d) ∷ cs)
      → h p ≡ some (node null e)
      → h (last_or a cs) ≡ some (node null f)
      → IsChain h ((a, d) ∷ cs)
      → IsChain (write h (last_or a cs) (some (node p f))) ((a, d) ∷ cs ++ (p, e) ∷ [])
  IsChain-link h a p d e f [] pn out atp atl (ne, at, apart, ch) =
      (ne, ground arith, ground arith, (pn, ground arith, refl, tt))
  IsChain-link h a p d e f ((b, g) ∷ cs) pn out atp atl (ne, at, apart, ch) =
      let (f', at', ne', in') = last-object h b g cs ch in
      let apart' : a ≢ last_or b cs = ne_of_has a (last_or b cs) ((b, g) ∷ cs) apart in' in
      (
        ne,
        write_ne h a (last_or b cs) (some (node p f)) apart' ∙ at,
        not-mem-snoc a p e ((b, g) ∷ cs) apart (ground arith),
        IsChain-link h b p g e f cs pn (ground arith) atp atl ch,
      )
