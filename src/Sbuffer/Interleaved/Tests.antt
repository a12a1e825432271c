-- ===== src/Sbuffer/Interleaved/Tests.antt =====
-- Interleavings of the shared buffer at small inputs.
use btvnlinux.Prelude.{◌≢◌, ℕ, ◌≡◌, refl, none, some, List, [], ◌∷◌, arith, replicate}
use btvnlinux.Memory.{Ptr, null, Heap, write, ok, fault, Fault}
use btvnlinux.Memory.Returns.{Returns}
use btvnlinux.Sbuffer.{Node, node, sbuffer, success, no_data}
use btvnlinux.Sbuffer.Queue.{IsBuffer}
use btvnlinux.Sbuffer.Interleaved.{
  System, Who, connmgr, datamgr, stormgr, check_head, compare_ends, allocate, returned, run,
  keep_head, check_tail,
}
use btvnlinux.Sbuffer.Interleaved.Alone.{shared}
use btvnlinux.Sbuffer.Interleaved.{turn, step, Reach, start, later}
use btvnlinux.Sbuffer.Interleaved.Refused.{Refused}
use btvnlinux.Sbuffer.Interleaved.Completed.{HasRoom, Completed, one_each-Completed}
use btvnlinux.Sbuffer.Interleaved.Finished.{Finished, one_each, one_each-Safe}
use btvnlinux.Sbuffer.Interleaved.Races.{
  both_read, one_reads, overlapped, between, both_remove-crash, insert-lost,
}

-- Two nodes, at 4 and at 8, and one node at 8.
abbrev two_nodes : Heap (Node ℕ)
two_nodes = write (write (λ a. none) 8 (some (node null 21))) 4 (some (node 8 20))

abbrev one_node : Heap (Node ℕ)
one_node = write (λ a. none) 8 (some (node null 21))

two_nodes-IsBuffer : IsBuffer two_nodes (sbuffer 4 8) ((4, 20) ∷ (8, 21) ∷ [])
two_nodes-IsBuffer = record {
  head = refl;
  tail = refl;
  chain = (omega arith, refl, refl, (omega arith, refl, refl, tt));
  owned = ground arith;
}

one_node-IsBuffer : IsBuffer one_node (sbuffer 8 8) ((8, 21) ∷ [])
one_node-IsBuffer = record {
  head = refl;
  tail = refl;
  chain = (omega arith, refl, refl, tt);
  owned = ground arith;
}

both_remove-crash_example :
    Returns
      (λ _ t.
        (t.reader ≡ returned success (some 20))
        × (t.storer ≡ compare_ends 20 4)
        × (run (replicate 4 (stormgr, null)) t ≡ fault Fault.segfault))
      (run overlapped (both_read (allocate 22) (shared (sbuffer 4 8) two_nodes)))
both_remove-crash_example =
    both_remove-crash (allocate 22) two_nodes (sbuffer 4 8) 4 20 ((8, 21) ∷ []) two_nodes-IsBuffer

insert-lost_example :
    Returns
      (λ _ t.
        (t.inserter ≡ returned success none)
        × (t.reader ≡ returned success (some 21))
        × (t.mem.head ≡ null)
        × (t.mem.tail ≡ null)
        × (t.mem.nodes 12 ≡ some (node null 22)))
      (run (between 12) (one_reads check_head (allocate 22) (shared (sbuffer 8 8) one_node)))
insert-lost_example =
    insert-lost check_head one_node (sbuffer 8 8) 8 12 21 22 (omega arith) refl one_node-IsBuffer

-- A removal has read the head when the new node is allocated.
abbrev started : System ℕ
started = one_each 4 20 8 21 [] 22 (shared (sbuffer 4 8) two_nodes) no_data none

abbrev midway : System ℕ
midway = record {
  mem = record { nodes = write two_nodes 12 (some (node null 22)); head = 4; tail = 8 };
  inserter = check_tail 12;
  reader = keep_head 20;
  storer = returned no_data none;
}

midway-Reach : Reach started midway
unfolding turn step
midway-Reach =
    later (later (later start datamgr 0 (λ ne. absurd (ne refl)) refl) connmgr 12 (λ ne. refl) refl)
      datamgr 0 (λ ne. absurd (ne refl)) refl

one_each-Safe_example :
    Finished 4 20 8 21 [] 22 (Refused midway-Reach) midway
    × ((i : Who) (fresh : Ptr)
        → (fresh ≢ null → midway.mem.nodes fresh ≡ none)
        → (u : System ℕ) × (turn i fresh midway ≡ ok tt u))
one_each-Safe_example =
    one_each-Safe 4 20 8 21 [] 22 two_nodes (sbuffer 4 8) no_data none midway two_nodes-IsBuffer
      midway-Reach

-- The removal begins, the insertion comes in its middle, and takes 12 for its node.
abbrev in_between : List (Who × Ptr)
in_between =
    (datamgr, 12)
    ∷ (datamgr, 12)
    ∷ (datamgr, 12)
    ∷ (connmgr, 12)
    ∷ (connmgr, 16)
    ∷ (datamgr, 16)
    ∷ (datamgr, 16)
    ∷ (connmgr, 16)
    ∷ (datamgr, 16)
    ∷ (connmgr, 4)
    ∷ (datamgr, 16)
    ∷ []

in_between-HasRoom : HasRoom in_between started
unfolding turn step
in_between-HasRoom = (
  omega arith,
  refl,
  (
    omega arith,
    refl,
    (
      omega arith,
      refl,
      (
        omega arith,
        refl,
        (
          omega arith,
          refl,
          (
            omega arith,
            refl,
            (
              omega arith,
              refl,
              (
                omega arith,
                refl,
                (omega arith, refl, (omega arith, refl, (omega arith, refl, tt))),
              ),
            ),
          ),
        ),
      ),
    ),
  ),
)

one_each-Completed_example : Returns (λ _ t. Completed 4 20 8 21 [] 22 t) (run in_between started)
one_each-Completed_example =
    one_each-Completed 4 20 8 21 [] 22 two_nodes (sbuffer 4 8) no_data none in_between
      two_nodes-IsBuffer in_between-HasRoom (omega arith) (omega arith)
