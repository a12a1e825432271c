-- ===== src/Sbuffer/Tests.antt =====
-- The buffer's functions on small inputs, and its theorems at them.
use btvnlinux.Prelude.{ℕ, ◌≡◌, refl, none, some, List, [], ◌∷◌, arith}
use btvnlinux.Memory.{Heap, write}
use btvnlinux.Memory.Cells.{Cells, contents}
use btvnlinux.Memory.Returns.{Returns}
use btvnlinux.Sbuffer.{Node, node, sbuffer, failure, success, no_data, free_all}
use btvnlinux.Sbuffer.Queue.{IsBuffer}
use btvnlinux.Sbuffer.Step.{free_all-empties}
use btvnlinux.Sbuffer.Readers.{Call, inserted, asked_by, datamgr, stormgr, ops, Shared, run-Shared}
use btvnlinux.Sbuffer.Refine.{Op, put, get, run, serve, Serves, IsFresh, run_refines}

abbrev no_nodes : Heap (Node ℕ)
no_nodes a = none

-- Two nodes, at 8 and 5, with the data 21 and 22.
abbrev two_nodes : Heap (Node ℕ)
two_nodes = write (write no_nodes 8 (some (node 5 21))) 5 (some (node 0 22))

abbrev two_cells : Cells ℕ
two_cells = (8, 21) ∷ (5, 22) ∷ []

two-IsBuffer : IsBuffer two_nodes (sbuffer 8 5) two_cells
two-IsBuffer = record {
  head = refl;
  tail = refl;
  chain = (omega arith, refl, refl, (omega arith, refl, refl, tt));
  owned = ground arith;
}

-- `malloc` hands the address 8 out again once its node is freed, and then fails.
abbrev script : List (Op ℕ)
script = get ∷ put 8 23 ∷ put 0 24 ∷ get ∷ get ∷ get ∷ []

script-IsFresh : IsFresh two_cells script
script-IsFresh = (ground arith, (ground arith, tt))

-- The answers of the buffer.
script_answers : serve (21 ∷ 22 ∷ []) script ≡ (
  (success, some 21)
      ∷ (success, none)
      ∷ (failure, none)
      ∷ (success, some 22)
      ∷ (success, some 23)
      ∷ (no_data, none)
      ∷ [],
  [],
)
unfolding serve
script_answers = refl

run_refines_example :
    Returns (Serves (contents two_cells) script) (run script (some (sbuffer 8 5)) two_nodes)
run_refines_example =
    run_refines script two_nodes (sbuffer 8 5) two_cells script-IsFresh two-IsBuffer

free_all-empties_example :
    Returns
      (λ (s, q) g. (s ≡ success) × (q ≡ none) × ((a : ℕ) → g a ≡ none))
      (free_all 3 (some (sbuffer 8 5)) two_nodes)
free_all-empties_example =
    free_all-empties two_nodes 3 (sbuffer 8 5) two_cells (omega arith) two-IsBuffer

-- The data manager takes one reading and the storage manager the next two.
abbrev calls : List (Call ℕ)
calls = asked_by datamgr ∷ inserted 8 23 ∷ asked_by stormgr ∷ asked_by stormgr ∷ []

calls-IsFresh : IsFresh two_cells (ops calls)
calls-IsFresh = (ground arith, tt)

run-Shared_example :
    Returns (Shared (21 ∷ 22 ∷ []) calls) (run (ops calls) (some (sbuffer 8 5)) two_nodes)
run-Shared_example = run-Shared calls two_nodes (sbuffer 8 5) two_cells calls-IsFresh two-IsBuffer
