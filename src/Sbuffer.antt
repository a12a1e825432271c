-- ===== src/Sbuffer.antt =====
-- Project/sbuffer.c: the shared buffer between the connection manager and its two readers, a
-- singly linked list with a pointer to each end. A `struct sbuffer` lives outside the heap of its
-- nodes, so a function that updates one returns the new value; the pointer to it is an option,
-- none for NULL. What `malloc` returns is an argument.
pub mod Consumer
pub mod Interleaved
pub mod Queue
pub mod Readers
pub mod Refine
pub mod Step
mod Tests
use btvnlinux.Prelude.{ℕ, Bool, true, false, zero, suc, Option, none, some, ◌==◌, if◌then◌else◌}
use btvnlinux.Memory.{Ptr, null, Heap, Cmd, ok, pure, hang, ◌>>=◌, ◌>>◌, object, expect, write}

-- `struct sbuffer_node`, over the type of the data (`sensor_data_t` in the program).
pub record Node (D : Type 0) : Type 0 where
  pub next : Ptr
  pub item : D

abbrev pub node : {D : Type 0} → Ptr → D → Node D
node q d = record { next = q; item = d }

-- `struct sbuffer`
pub record Sbuffer : Type 0 where
  pub head : Ptr
  pub tail : Ptr

abbrev pub sbuffer : Ptr → Ptr → Sbuffer
sbuffer p q = record { head = p; tail = q }

-- The returned codes, SBUFFER_FAILURE, SBUFFER_SUCCESS and SBUFFER_NO_DATA.
pub data Status : Type 0 where
  failure : Status
  success : Status
  no_data : Status

-- `== SBUFFER_FAILURE`
abbrev pub is_failure : Status → Bool
is_failure failure = true
is_failure success = false
is_failure no_data = false

module _ {D : Type 0} where
  load : Ptr → Cmd (Heap (Node D)) (Node D)
  load p h = expect (object h p) h

  -- The raw write of an address that is known to hold a node, or that `malloc` returned.
  store : Ptr → Option (Node D) → Cmd (Heap (Node D)) (Unit {0})
  store p c h = ok tt (write h p c)

  -- `free(p)` of a node
  free : Ptr → Cmd (Heap (Node D)) (Unit {0})
  unfolding load store
  free p = load p >> store p none

  -- `sbuffer_init`: `fresh` is what `malloc` returns for the struct.
  unfoldable pub init : (fresh : Ptr) → Cmd (Heap (Node D)) (Status × Option Sbuffer)
  init fresh =
      if fresh == null then pure (failure, none) else pure (success, some (sbuffer null null))

  -- The loop of `sbuffer_free`: free the head until there is none.
  free_loop : ℕ → Ptr → Cmd (Heap (Node D)) (Unit {0})
  free_loop zero p = hang
  free_loop (suc k) p = if p == null then pure tt else do n ← load p; free p; free_loop k n.next

  -- `sbuffer_free`, with fuel for its loop. The buffer is NULL afterwards; the heap is that of the
  -- nodes, so that the storage of the `struct sbuffer` itself, which is freed too, is not in it.
  pub free_all : (fuel : ℕ) → Option Sbuffer → Cmd (Heap (Node D)) (Status × Option Sbuffer)
  unfolding free_loop free load store
  free_all fuel none = pure (failure, none)
  free_all fuel (some b) = do free_loop fuel b.head; pure (success, none)

  -- `sbuffer_remove`: the datum that is copied to `*data` is an option, none where `*data` is left
  -- as it was.
  pub remove : Option Sbuffer → Cmd (Heap (Node D)) (Status × Option D × Option Sbuffer)
  unfolding free load store
  remove none = pure (failure, none, none)
  remove (some b) = if b.head == null then pure (no_data, none, some b) else do
    n ← load b.head
    free b.head
    pure (
      success,
      some n.item,
      some (if b.head == b.tail then sbuffer null null else record b { head = n.next }),
    )

  -- `sbuffer_insert`: `fresh` is what `malloc` returns for the node.
  pub insert : (fresh : Ptr) → Option Sbuffer → D → Cmd (Heap (Node D)) (Status × Option Sbuffer)
  unfolding load store
  insert fresh none d = pure (failure, none)
  insert fresh (some b) d = if fresh == null then pure (failure, some b) else do
    store fresh (some (node null d))
    if b.tail == null then pure (success, some (sbuffer fresh fresh)) else do
      t ← load b.tail
      store b.tail (some (record t { next = fresh }))
      pure (success, some (record b { tail = fresh }))
