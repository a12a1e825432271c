-- ===== src/Connmgr.antt =====
-- Project/connmgr.c: the clients of the gateway. Here are the callbacks of the list of clients and
-- the loop that takes a descriptor out of the array that is polled. The source calls the
-- number of clients `counter` and, in that loop, `conn_counter`; they are taken to be one.
pub mod Compact
pub mod Counted
pub mod Free
pub mod Listen
pub mod Listening
pub mod Mutex
pub mod Poll
pub mod Received
pub mod Rounds
pub mod Slots
pub mod Stable
pub mod Visit
mod Tests
use btvnlinux.Prelude.{
  ℕ, zero, suc, ◌+◌, Bool, Option, none, some, List, ◌==◌, if◌then◌else◌, get_elem?, set, take,
}
use btvnlinux.Prelude.Int.{ℤ, pos, negsuc, eqb_ℤ}
use btvnlinux.Memory.{
  Ptr, null, Heap, Fault, Cmd, Run, ok, fault, pure, ◌>>=◌, ◌>>◌, object, expect, write, resume,
  zoom,
}
use btvnlinux.Dplist.Defs.{World, world}
use btvnlinux.Tcpsock.Defs.{Net, Code}
use btvnlinux.Tcpsock.Open.{close}

-- `tcpsock_dpl`
pub record Client : Type 0 where
  pub sock_pt : Ptr
  pub sd : ℤ
  pub last_active : ℕ
  pub sensor : ℕ

place_copy : (fresh : Heap Client → Ptr) → Client → Cmd (World Client) Ptr
place_copy fresh c w =
    let p = fresh w.elements in
    if p == null
    then fault Fault.segfault
    else ok p (record w { elements = write w.elements p (some c) })

-- `element_copy`: the fields are copied one by one. `fresh` is what `malloc` returns, given the
-- clients in use; the read comes before the write as both fault alike.
unfoldable pub element_copy : (fresh : Heap Client → Ptr) → Ptr → Cmd (World Client) Ptr
unfolding place_copy
element_copy fresh element w = (do c ← expect (object w.elements element); place_copy fresh c) w

-- `element_compare`
unfoldable pub element_compare : Ptr → Ptr → Cmd (World Client) ℤ
element_compare x y w =
    (do
      a ← expect (object w.elements x)
      b ← expect (object w.elements y)
      pure (if eqb_ℤ a.sd b.sd then pos 0 else negsuc 0))
      w

-- The clients and the sockets that they point to.
pub record Clients : Type 0 where
  pub lists : World Client
  pub net : Net

-- `element_free`: it closes the socket, whatever that returns, and frees the client. `result` is
-- what `shutdown` answers.
unfoldable pub element_free : (result : ℤ) → Ptr → Cmd Clients (Unit {0})
element_free result p w =
    (do
      c ← expect (object w.lists.elements p)
      zoom (λ s. s.net) (λ s n. record s { net = n }) (close result (some c.sock_pt))
      λ s.
          ok tt
            (record s { lists = record (s.lists) { elements = write s.lists.elements p none } }))
      w

-- `id2 += (id2 == i) ? 1 : 0`
unfoldable pub skip : (i id2 : ℕ) → ℕ
skip i id2 = if id2 == i then suc id2 else id2

module _ {A : Type 0} where
  -- `poll_fd[id1] = poll_fd[id2]`; none where an index is out of the array's bounds.
  unfoldable pub copy_slot : (id1 id2 : ℕ) → List A → Option (List A)
  copy_slot id1 id2 fds = elim (get_elem? fds id2) [
    | none ↦ none
    | some v ↦ elim (get_elem? fds id1) [ none ↦ none | some u ↦ some (set fds id1 v) ]
  ]

  -- The loop that moves the descriptors, with the rounds that are left.
  unfoldable pub move_down : (rounds i id1 id2 : ℕ) → List A → Option (List A)
  unfolding copy_slot skip
  move_down zero i id1 id2 fds = some fds
  move_down (suc k) i id1 id2 fds = elim (copy_slot id1 (skip i id2) fds) [
    | none ↦ none
    | some fds' ↦ move_down k i (suc id1) (suc (skip i id2)) fds'
  ]

  -- The loop and the `realloc` behind it: `counter` descriptors are kept.
  unfoldable pub take_out : (counter i : ℕ) → List A → Option (List A)
  unfolding move_down
  take_out counter i fds = elim (move_down counter i 0 0 fds) [
    | none ↦ none
    | some fds' ↦ some (take counter fds')
  ]
