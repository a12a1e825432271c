-- ===== src/Sbuffer/Interleaved.antt =====
-- Project/sbuffer.c as its three users run it: nothing locks the buffer, so the threads take turns
-- between any two statements. `sbuffer_remove` and `sbuffer_insert` are cut into their statements, a
-- statement being one step; filling the new node is one step with `malloc`, since no other thread
-- knows its address.
pub mod Alone
pub mod Completed
pub mod Disjoint
pub mod Ends
pub mod Finished
pub mod Layout
pub mod Races
pub mod Refused
mod Tests
use btvnlinux.Prelude.{
  ℕ, zero, suc, Option, none, some, List, [], ◌∷◌, ◌≡◌, ◌≢◌, ◌==◌, if◌then◌else◌,
}
use btvnlinux.Memory.{
  Ptr, null, Heap, Cmd, pure, ok, and_then, resume, ◌>>=◌, ◌>>◌, object, expect, write,
}
use btvnlinux.Sbuffer.{Node, node, Status, failure, success, no_data}

-- What the threads share: the nodes, and the `struct sbuffer` that the buffer points to.
pub record Shared (D : Type 0) : Type 0 where
  pub nodes : Heap (Node D)
  pub head : Ptr
  pub tail : Ptr

-- The statement that a thread is about to run, with the locals that it has set.
pub data Pc (D : Type 0) : Type 0 where
  check_head : Pc D
  copy_data : Pc D
  keep_head : (item : D) → Pc D
  compare_ends : (item : D) → (dummy : Ptr) → Pc D
  clear_tail : (item : D) → (dummy : Ptr) → Pc D
  clear_head : (item : D) → (dummy : Ptr) → Pc D
  advance_head : (item : D) → (dummy : Ptr) → Pc D
  free_dummy : (item : D) → (dummy : Ptr) → Pc D
  allocate : (item : D) → Pc D
  check_tail : (dummy : Ptr) → Pc D
  set_tail : (dummy : Ptr) → Pc D
  set_head : (dummy : Ptr) → Pc D
  link_last : (dummy : Ptr) → Pc D
  advance_tail : Pc D
  returned : Status → Option D → Pc D

module _ {D : Type 0} where
  abbrev pub load : Ptr → Cmd (Shared D) (Node D)
  load p s = expect (object s.nodes p) s

  abbrev pub store : Ptr → Option (Node D) → Cmd (Shared D) (Unit {0})
  store p c s = ok tt (record s { nodes = write s.nodes p c })

  -- One statement: `fresh` is what `malloc` returns, if that is called.
  pub step : (fresh : Ptr) → Pc D → Cmd (Shared D) (Pc D)
  step fresh check_head s = ok (if s.head == null then returned no_data none else copy_data) s
  step fresh copy_data s = (do n ← load s.head; pure (keep_head n.item)) s
  step fresh (keep_head d) s = ok (compare_ends d s.head) s
  step fresh (compare_ends d p) s =
      ok (if s.head == s.tail then clear_tail d p else advance_head d p) s
  step fresh (clear_tail d p) s = ok (clear_head d p) (record s { tail = null })
  step fresh (clear_head d p) s = ok (free_dummy d p) (record s { head = null })
  step fresh (advance_head d p) s =
      (do n ← load s.head; λ t. ok (free_dummy d p) (record t { head = n.next })) s
  step fresh (free_dummy d p) s = (do load p; store p none; pure (returned success (some d))) s
  step fresh (allocate d) s =
      (if fresh == null
          then pure (returned failure none)
          else (do store fresh (some (node null d)); pure (check_tail fresh)))
        s
  step fresh (check_tail p) s = ok (if s.tail == null then set_tail p else link_last p) s
  step fresh (set_tail p) s = ok (set_head p) (record s { tail = p })
  step fresh (set_head p) s = ok (returned success none) (record s { head = p })
  step fresh (link_last p) s =
      (do n ← load s.tail; store s.tail (some (record n { next = p })); pure advance_tail) s
  step fresh advance_tail s =
      (do n ← load s.tail; λ t. ok (returned success none) (record t { tail = n.next })) s
  step fresh (returned r d) s = ok (returned r d) s

-- The threads of the gateway that use the buffer.
pub data Who : Type 0 where
  connmgr : Who
  datamgr : Who
  stormgr : Who

-- The shared memory, and where each thread is.
pub record System (D : Type 0) : Type 0 where
  pub mem : Shared D
  pub inserter : Pc D
  pub reader : Pc D
  pub storer : Pc D

abbrev pub at : {D : Type 0} → System D → Who → Pc D
at s connmgr = s.inserter
at s datamgr = s.reader
at s stormgr = s.storer

abbrev pub moved : {D : Type 0} → System D → Who → Pc D → Shared D → System D
moved s connmgr p m = record s { mem = m; inserter = p }
moved s datamgr p m = record s { mem = m; reader = p }
moved s stormgr p m = record s { mem = m; storer = p }

module _ {D : Type 0} where
  -- A turn of one thread.
  pub turn : Who → (fresh : Ptr) → Cmd (System D) (Unit {0})
  unfolding step
  turn i fresh s =
      and_then (resume (λ m. record s { mem = m }) (step fresh (at s i) s.mem))
        λ p t. ok tt (moved s i p t.mem)

  -- A schedule: whose turn it is, and what `malloc` returns then.
  pub run : List (Who × Ptr) → Cmd (System D) (Unit {0})
  unfolding turn
  run [] s = ok tt s
  run ((i, fresh) ∷ is) s = and_then (turn i fresh s) λ _. run is

-- The states that turns lead to from `s`, where `malloc` returns NULL or the address of no node in
-- use.
pub data Reach {D : Type 0} (s : System D) : System D → Type 0 where
  start : Reach s s
  later :
      {t u : System D}
      → Reach s t
      → (i : Who) (fresh : Ptr) → (fresh ≢ null → t.mem.nodes fresh ≡ none)
      → turn i fresh t ≡ ok tt u
      → Reach s u
