-- ===== src/Dplist/Tests.antt =====
-- The list's functions on small inputs, and its theorems at them. An element is a number, at the
-- address that a node points to.
use btvnlinux.Prelude.{ℕ, ◌≡◌, refl, true, false, none, some, [], ◌∷◌, arith, ltb, if◌then◌else◌}
use mathlib.Core.List.{Perm}
use btvnlinux.Prelude.Int.{ℤ, pos, negsuc}
use btvnlinux.Memory.{Ptr, Heap, fault, Fault, pure, write}
use btvnlinux.Memory.Cells.{Cells, contents}
use btvnlinux.Memory.Returns.{Returns}
use btvnlinux.Dplist.Defs.{Node, node, World, world, Dplist, Block}
use btvnlinux.Dplist.Update.{insert_at_index, insert_sorted, remove_at_index}
use btvnlinux.Dplist.Chain.{IsList}
use btvnlinux.Dplist.Insert.{sorted_in, Inserted, insert_sorted-sorted_in, insert_sorted-clash}
use btvnlinux.Dplist.InsertAt.{insert_at_index-inside, insert_at_index-beyond}
use btvnlinux.Dplist.Order.{IsSorted, insert_sorted-IsSorted}
use btvnlinux.Dplist.Remove.{Dropped, remove_at_index-inside}

-- Element pointers compared as numbers.
abbrev compare_keys : Ptr → Ptr → ℤ
compare_keys x y = if ltb x y then negsuc 0 else (if ltb y x then pos 1 else pos 0)

-- The list at 30 that holds the elements 102, 104 and 106 in the nodes 30, 20 and 10.
abbrev list : Dplist ℕ
list = record {
  head = 30;
  element_copy = λ e. pure e;
  element_free = λ e. pure tt;
  element_compare = λ x y. pure (compare_keys x y);
}

abbrev nodes : Heap Node
nodes a =
    write (write (write (λ b. none) 30 (some (node 0 20 102))) 20 (some (node 30 10 104))) 10
      (some (node 20 0 106)) a

abbrev no_elements : Heap ℕ
no_elements a = none

abbrev start : World ℕ
start = world nodes no_elements

abbrev cells : Cells Ptr
cells = (30, 102) ∷ (20, 104) ∷ (10, 106) ∷ []

cells-IsList : IsList start list cells
cells-IsList = record {
  head = refl;
  linked = (omega arith, refl, (omega arith, refl, (omega arith, refl, tt)));
  apart = (refl, (refl, (refl, tt)));
}

abbrev block : Block
block = record { address = 40; garbage = node 7 7 7 }

insert_sorted-IsSorted_example :
    Returns
      (λ l' w'.
        (ds : Cells Ptr) × IsList w' l' ds
        × IsSorted (λ e. e) (contents ds)
        × Perm (contents ds) (105 ∷ contents cells))
      (insert_sorted 4 block (some list) 105 true start)
insert_sorted-IsSorted_example =
    insert_sorted-IsSorted start no_elements list block 105 105 true compare_keys (λ e. e) 4 cells
      (omega arith) refl refl (λ h. (refl, (refl, (refl, tt)))) (λ x y. ground arith) (omega arith)
      cells-IsList (omega arith) (ground arith)

-- Compared this way, an element is before every other.
abbrev always_before : Dplist ℕ
always_before = record list { element_compare = λ x y. pure (negsuc 0) }

before-IsList : IsList start always_before cells
before-IsList = record {
  head = refl;
  linked = (omega arith, refl, (omega arith, refl, (omega arith, refl, tt)));
  apart = (refl, (refl, (refl, tt)));
}

insert_sorted-sorted_in_example :
    Returns
      (Inserted start no_elements always_before block 105 105 true
        (λ x y. negsuc 0)
        (omega arith)
        refl
        refl
        (sorted_in (λ x y. negsuc 0) (40, 105) cells))
      (insert_sorted 4 block (some always_before) 105 true start)
insert_sorted-sorted_in_example =
    insert_sorted-sorted_in start no_elements always_before block 105 105 true (λ x y. negsuc 0)
      (omega arith) refl refl 4 cells (omega arith) before-IsList (λ h. (refl, (refl, (refl, tt))))
      (ground arith)

insert_sorted-clash_example :
    insert_sorted 4 block (some list) 102 false start ≡ fault Fault.segfault
insert_sorted-clash_example =
    insert_sorted-clash start no_elements list block 102 102 false compare_keys (omega arith) refl
      refl 4 cells (omega arith) cells-IsList (λ h. (refl, (refl, (refl, tt)))) (refl, ground arith)

remove_at_index-inside_example :
    Returns
      (Dropped start no_elements list true cells 20 ((30, 102) ∷ (10, 106) ∷ []))
      (remove_at_index (some list) (pos 1) true start)
remove_at_index-inside_example =
    remove_at_index-inside start no_elements list true [] 30 102 20 104 ((10, 106) ∷ [])
      cells-IsList refl

-- No copy is asked for, and the callback is called all the same.
insert_at_index-inside_example :
    Returns
      (λ l' w'.
        IsList w' l' ((30, 102) ∷ (40, 105) ∷ (20, 104) ∷ (10, 106) ∷ [])
        × (w'.elements ≡ no_elements))
      (insert_at_index 4 block (some list) 105 (pos 1) false start)
insert_at_index-inside_example =
    insert_at_index-inside start no_elements list block 105 105 (omega arith) refl 4 (λ h. refl)
      false [] 30 102 20 104 ((10, 106) ∷ []) (omega arith) cells-IsList

insert_at_index-beyond_example :
    insert_at_index 4 block (some list) 105 (pos 3) true start ≡ fault Fault.assert_failed
insert_at_index-beyond_example =
    insert_at_index-beyond start no_elements list block 105 105 (omega arith) refl 4 (λ h. refl)
      true 2 cells (omega arith) cells-IsList
