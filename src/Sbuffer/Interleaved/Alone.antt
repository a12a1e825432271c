-- ===== src/Sbuffer/Interleaved/Alone.antt =====
-- A thread that has the shared buffer to itself: its statements, one after the other, do what the
-- function does.
use btvnlinux.Prelude.{ℕ, zero, suc, ◌≡◌, refl, Option, none, some, arith}
use btvnlinux.Memory.{Ptr, null, Heap, Cmd, Run, ok, fault, out_of_fuel, and_then, write}
use btvnlinux.Sbuffer.{Node, node, Sbuffer, Status, remove, insert, load, free, store}
use btvnlinux.Sbuffer.Interleaved.{Shared, Pc, check_head, allocate, returned, step}

module _ {D : Type 0} where
  -- So many statements of one thread.
  pub steps : ℕ → (fresh : Ptr) → Pc D → Cmd (Shared D) (Pc D)
  unfolding step
  steps zero fresh p s = ok p s
  steps (suc k) fresh p s = and_then (step fresh p s) λ q. steps k fresh q

  -- The result of a function as that of its statements; the buffer is not NULL.
  abbrev pub shared : Sbuffer → Heap (Node D) → Shared D
  shared b h = record { nodes = h; head = b.head; tail = b.tail }

  abbrev pub as_removed :
      Run (Heap (Node D)) (Status × Option D × Option Sbuffer) → Run (Shared D) (Pc D)
  as_removed (ok (r, d, none) h) = out_of_fuel
  as_removed (ok (r, d, some b) h) = ok (returned r d) (shared b h)
  as_removed (fault e) = fault e
  as_removed out_of_fuel = out_of_fuel

  abbrev pub as_inserted : Run (Heap (Node D)) (Status × Option Sbuffer) → Run (Shared D) (Pc D)
  as_inserted (ok (r, none) h) = out_of_fuel
  as_inserted (ok (r, some b) h) = ok (returned r none) (shared b h)
  as_inserted (fault e) = fault e
  as_inserted out_of_fuel = out_of_fuel

  -- `sbuffer_remove` where the first node is at an address that holds one.
  remove-steps :
      (fresh : Ptr) (b : Sbuffer) (h : Heap (Node D)) (o : Option (Node D))
      → h b.head ≡ o
      → steps 7 fresh check_head (shared b h) ≡ as_removed (remove (some b) h)
  unfolding steps step remove load free store
  remove-steps fresh b h none e = ground arith
  remove-steps fresh b h (some n) e = ground arith

  insert-steps :
      (fresh : Ptr) (b : Sbuffer) (h : Heap (Node D)) (d : D) (o : Option (Node D))
      → write h fresh (some (node null d)) b.tail ≡ o
      → steps 4 fresh (allocate d) (shared b h) ≡ as_inserted (insert fresh (some b) d h)
  unfolding steps step insert load store
  insert-steps fresh b h d none e = ground arith
  insert-steps fresh b h d (some n) e = ground arith

  -- Run alone, the seven statements of `sbuffer_remove` and the four of `sbuffer_insert` end as the
  -- functions do, whatever the buffer and the heap hold: with the same code, datum, buffer and heap,
  -- or with the same fault.
  pub statements-alone :
      (fresh : Ptr) (b : Sbuffer) (h : Heap (Node D)) (d : D)
      → (steps 7 fresh check_head (shared b h) ≡ as_removed (remove (some b) h))
        × (steps 4 fresh (allocate d) (shared b h) ≡ as_inserted (insert fresh (some b) d h))
  statements-alone fresh b h d = (
    remove-steps fresh b h (h b.head) refl,
    insert-steps fresh b h d (write h fresh (some (node null d)) b.tail) refl,
  )
