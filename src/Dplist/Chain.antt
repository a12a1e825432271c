-- ===== src/Dplist/Chain.antt =====
-- The cells of a doubly linked list: the address and the element pointer of each node, in order.
use btvnlinux.Prelude.{◌≡◌, refl, ◌≢◌, true, Option, none, some, [], ◌∷◌, ◌++◌, arith}
use btvnlinux.Memory.{Ptr, null, Heap, ok, fault, Fault, write}
use btvnlinux.Memory.Cells.{Cells, first_or, last_or, has, ◌∉◌, Apart}
use btvnlinux.Dplist.Defs.{Node, node, World, Dplist, load, set_next, set_prev, set_element, free}

-- The nodes of `cs` are linked both ways between the nodes `p` and `q`.
abbrev pub Linked : Heap Node → Ptr → Cells Ptr → Ptr → Type 0
Linked h p [] q = Unit {0}
Linked h p ((a, e) ∷ cs) q = (a ≢ null) × (h a ≡ some (node p (first_or q cs) e)) × Linked h a cs q

-- The list `l` holds the cells `cs`, each at an address of its own.
pub record IsList {E : Type 0} (w : World E) (l : Dplist E) (cs : Cells Ptr) : Type 0 where
  pub head : l.head ≡ first_or null cs
  pub linked : Linked w.nodes null cs null
  pub apart : Apart cs

pub Linked-write :
    (h : Heap Node) (p q : Ptr) (cs : Cells Ptr) (a : Ptr) (c : Option Node)
    → a ∉ cs
    → Linked h p cs q
    → Linked (write h a c) p cs q
Linked-write h p q [] a c out ln = tt
Linked-write h p q ((b, e) ∷ cs) a c out (ne, at, ln) =
    (ne, ground arith, Linked-write h b q cs a c (ground arith) ln)

pub Linked-append :
    (h : Heap Node) (p q : Ptr) (xs ys : Cells Ptr)
    → Linked h p xs (first_or q ys)
    → Linked h (last_or p xs) ys q
    → Linked h p (xs ++ ys) q
Linked-append h p q [] ys ln rn = rn
Linked-append h p q ((a, e) ∷ []) ys (ne, at, ln) rn = (ne, at, rn)
Linked-append h p q ((a, e) ∷ (b, f) ∷ xs) ys (ne, at, ln) rn =
    (ne, at, Linked-append h a q ((b, f) ∷ xs) ys ln rn)

pub Linked-split :
    (h : Heap Node) (p q : Ptr) (xs ys : Cells Ptr)
    → Linked h p (xs ++ ys) q
    → Linked h p xs (first_or q ys) × Linked h (last_or p xs) ys q
Linked-split h p q [] ys ln = (tt, ln)
Linked-split h p q ((a, e) ∷ []) ys (ne, at, ln) = ((ne, at, tt), ln)
Linked-split h p q ((a, e) ∷ (b, f) ∷ xs) ys (ne, at, ln) =
    let (l', r') = Linked-split h a q ((b, f) ∷ xs) ys ln in ((ne, at, l'), r')

-- No cell of a linked list is NULL, and none stands at a free address.
pub null-not-mem : (h : Heap Node) (p q : Ptr) (cs : Cells Ptr) → Linked h p cs q → null ∉ cs
null-not-mem h p q [] ln = refl
null-not-mem h p q ((a, e) ∷ cs) (ne, at, ln) = ground (arith, null-not-mem h a q cs ln)

pub free-not-mem :
    (h : Heap Node) (a p q : Ptr) (cs : Cells Ptr) → Linked h p cs q → h a ≡ none → a ∉ cs
free-not-mem h a p q [] ln unused = refl
free-not-mem h a p q ((b, e) ∷ cs) (ne, at, ln) unused = ground (arith, free-not-mem h a b q cs ln)

-- A list survives any change that spares its own addresses.
pub Linked-same :
    (h g : Heap Node) (p q : Ptr) (cs : Cells Ptr)
    → ((c : Ptr) → has c cs ≡ true → g c ≡ h c)
    → Linked h p cs q
    → Linked g p cs q
Linked-same h g p q [] same ln = tt
Linked-same h g p q ((a, e) ∷ cs) same (ne, at, ln) =
    (ne, ground (arith, same a), Linked-same h g a q cs (λ c i. same c (ground arith)) ln)

pub load-null : {E : Type 0} (w : World E) → load null w ≡ fault Fault.segfault
unfolding load
load-null w = refl

module _ {E : Type 0} (w : World E) (p : Ptr) (n : Node) (ne : p ≢ null)
    (at : w.nodes p ≡ some n) where
  pub load-ok : load p w ≡ ok n w
  unfolding load
  load-ok = ground arith

  pub set_next-ok :
      (q : Ptr)
      → set_next p q w ≡ ok tt (record w { nodes = write w.nodes p (some (record n { next = q })) })
  unfolding set_next
  set_next-ok q = rw load-ok

  pub set_prev-ok :
      (q : Ptr)
      → set_prev p q w ≡ ok tt (record w { nodes = write w.nodes p (some (record n { prev = q })) })
  unfolding set_prev
  set_prev-ok q = rw load-ok

  pub set_element-ok :
      (e : Ptr)
      → set_element p e w
        ≡ ok tt (record w { nodes = write w.nodes p (some (record n { element = e })) })
  unfolding set_element
  set_element-ok e = rw load-ok

  pub free-ok : free p w ≡ ok tt (record w { nodes = write w.nodes p none })
  unfolding free
  free-ok = rw load-ok
