-- ===== src/Connmgr/Listen.antt =====
-- `connmgr_listen`: opening the socket, accepting clients, and the loop that polls. The source's
-- `last_alive` is read as `last_active`, and the sizes that it gives `realloc` as that many elements.
use btvnlinux.Prelude.{
  ℕ, zero, suc, Bool, false, ◌&&◌, Option, none, some, List, [], ◌∷◌, ◌++◌, ◌==◌, ltb,
  if◌then◌else◌,
}
use btvnlinux.Prelude.Int.{ℤ, pos, negsuc, eqb_ℤ, ltb_ℤ}
use btvnlinux.Memory.{Ptr, null, Fault, Cmd, ok, pure, fail, hang, ◌>>=◌, ◌>>◌}
use btvnlinux.Dplist.Defs.{World, Dplist, Block}
use btvnlinux.Dplist.Update.{insert_sorted}
use btvnlinux.Tcpsock.Defs.{Code, Replies}
use btvnlinux.Tcpsock.Open.{passive_open, wait_for_connection, out_of_range}
use btvnlinux.Tcpsock.Transfer.{get_sd}
use btvnlinux.Connmgr.{Client, Clients}
use btvnlinux.Connmgr.Poll.{
  max_conn, Watch, PollFd, Event, Retval, Manager, on_lists, on_net, get, report, set_retval,
}
use btvnlinux.Connmgr.Visit.{Visit, store_client, slot, visit}

-- A round of the poll loop: what `poll` returns, and the `revents` that it leaves, POLLIN and
-- POLLHUP for each descriptor; what the acceptance finds, which is the addresses from `malloc` for
-- the client and its node, the replies of the operating system, what the storage for the client and
-- the new slot of the array hold before they are set, and the time; and each visit in turn.
pub record Round (V : Type 0) : Type 0 where
  pub poll_ret : ℤ
  pub revents : List (Bool × Bool)
  pub client_block : Ptr
  pub node_block : Block
  pub replies : Replies
  pub unset_client : Client
  pub unset_slot : PollFd
  pub now : ℕ
  pub visits : List (Visit V)

-- The codes by their numbers, TCP_NO_ERROR being 0.
abbrev pub code_number : Code → ℕ
code_number Code.no_error = 0
code_number Code.socket_error = 1
code_number Code.address_error = 2
code_number Code.sockop_error = 3
code_number Code.connection_closed = 4
code_number Code.memory_error = 5

-- What `poll` writes to the array.
abbrev pub polled : List PollFd → List (Bool × Bool) → List PollFd
polled [] rs = []
polled (p ∷ ps) [] = p ∷ ps
polled (p ∷ ps) ((r, h) ∷ rs) = record p { readable = r; hung_up = h } ∷ polled ps rs

-- `*p = value`, where the value is given
abbrev pub or_kept : {A : Type 0} → A → Option A → A
or_kept a none = a
or_kept a (some b) = b

-- `poll_ret == -1`
abbrev pub is_error : ℤ → Bool
is_error poll_ret = eqb_ℤ poll_ret (negsuc 0)

-- `poll_ret--`
abbrev pub pred : ℤ → ℤ
pred (pos zero) = negsuc 0
pred (pos (suc n)) = pos n
pred (negsuc n) = negsuc (suc n)

-- A socket that is written through `&(client->sock_pt)`.
abbrev pub write_through : {S : Type 0} → (client : Ptr) → Option Ptr → Cmd S (Unit {0})
write_through client none = pure tt
write_through client (some s) = if client == null then fail Fault.segfault else pure tt

module _ {V : Type 0} where
  -- The client's descriptor goes into a new slot at the end of the array, and the client into the
  -- list.
  unfoldable pub register : (fuel : ℕ) → Round V → Client → Cmd (Manager V) (Unit {0})
  register fuel r c = do
    λ s. ok tt (record s { counter = suc s.counter })
    (code, d) ← on_net (get_sd c.sock_pt)
    let sd = or_kept r.unset_slot.fd d
    λ s. ok tt (record s {
      poll_fd = s.poll_fd ++ record (r.unset_slot) { fd = sd; events = Watch.watching } ∷ [];
    })
    on_lists (store_client r.client_block (record c { sd = sd; last_active = r.now; sensor = 0 }))
    l ← get (λ s. s.sock_list)
    l' ← on_lists (insert_sorted fuel r.node_block (some l) r.client_block false)
    λ s. ok tt (record s { sock_list = l' })
    report Event.new_connection

  -- The test behind the call of `tcp_wait_for_connection`, and both branches. `tcp_conn_ret` is never
  -- assigned: the code compares it with what the call returns, and takes the two being equal for the
  -- failure.
  abbrev pub accepted :
      (fuel : ℕ) → (tcp_conn_ret : ℤ) → Round V → Code → Client → Cmd (Manager V) (Unit {0})
  accepted fuel tcp_conn_ret r code c =
      if eqb_ℤ tcp_conn_ret (pos (code_number code))
      then (do report Event.not_accepted; set_retval Retval.accept_connection_error)
      else if r.client_block == null
      then fail Fault.segfault
      else register fuel r c

  -- The acceptance of a client.
  unfoldable pub accept :
      (fuel : ℕ) → (sv : Ptr) → (tcp_conn_ret : ℤ) → Round V → Cmd (Manager V) (Unit {0})
  unfolding register
  accept fuel sv tcp_conn_ret r = do
    (code, o) ← on_net (wait_for_connection r.replies sv)
    write_through r.client_block o
    accepted fuel tcp_conn_ret r code
        (record (r.unset_client) { sock_pt = or_kept r.unset_client.sock_pt o })

  module _ (fuel : ℕ) (element_of : Dplist Client → Ptr → Cmd (World Client) Ptr)
      (remove_node : Dplist Client → Ptr → Cmd Clients (Dplist Client)) (dummy sv : Ptr)
      (tcp_conn_ret : ℤ) where
    -- The loop over the descriptors, `visits` being what its visits find.
    unfoldable pub visit_all : List (Visit V) → (i : ℕ) → Cmd (Manager V) (Unit {0})
    unfolding visit
    visit_all [] i s = if ltb i (suc s.counter) then hang s else ok tt s
    visit_all (v ∷ vs) i s =
        if ltb i (suc s.counter)
        then (do j ← visit fuel element_of remove_node dummy v i; visit_all vs j) s
        else ok tt s

    -- The acceptance, where the server's descriptor has data and there is room; it returns `poll_ret`.
    abbrev pub accept_if : Round V → Cmd (Manager V) ℤ
    accept_if r = do
      p ← slot 0
      n ← get (λ s. s.counter)
      if p.readable && ltb n max_conn
          then (do accept fuel sv tcp_conn_ret r; pure (pred r.poll_ret))
          else pure r.poll_ret

    -- The body of the poll loop, behind the test for an error.
    unfoldable pub run_round : Round V → Cmd (Manager V) (Unit {0})
    unfolding visit_all accept
    run_round r = do
      λ s. ok tt (record s { poll_fd = polled s.poll_fd r.revents })
      poll_ret ← accept_if r
      if ltb_ℤ (pos 0) poll_ret then visit_all r.visits 1 else pure tt
      if is_error poll_ret
          then (do set_retval Retval.poll_error; report Event.poll_failed)
          else pure tt

    -- The poll loop over what its rounds find.
    unfoldable pub poll_loop : List (Round V) → Cmd (Manager V) (Unit {0})
    unfolding run_round
    poll_loop [] = hang
    poll_loop (r ∷ rs) = do
      n ← get (λ s. s.counter)
      let rest = poll_loop rs
      if eqb_ℤ r.poll_ret (pos 0) && (n == 0)
          then pure tt
          else if is_error r.poll_ret
          then pure tt
          else (do run_round r; rest)

  -- What follows `tcp_passive_open`, given its code and the socket.
  abbrev pub serve :
      (fuel : ℕ)
      → (Dplist Client → Ptr → Cmd (World Client) Ptr)
      → (Dplist Client → Ptr → Cmd Clients (Dplist Client))
      → (dummy : Ptr) → (tcp_conn_ret : ℤ) → (first : PollFd) → List (Round V)
      → (code : ℕ) → (sv : Ptr) → Cmd (Manager V) (Unit {0})
  serve fuel element_of remove_node dummy tcp_conn_ret first rs code sv =
      if code == 0
      then (do
        report Event.started
        (c, d) ← on_net (get_sd sv)
        λ s. ok tt (record s {
          poll_fd = record first { fd = or_kept first.fd d; events = Watch.watching } ∷ [];
        })
        poll_loop fuel element_of remove_node dummy sv tcp_conn_ret rs)
      else (do report Event.open_failed; set_retval Retval.open_socket_error)

  -- `connmgr_listen`: `l` is the list that `dpl_create` makes, and `first` what the array holds before
  -- it is set. It returns what the static `sv` is left with, none where it returns before it has set
  -- any of the static pointers.
  unfoldable pub listen :
      (fuel : ℕ)
      → (Dplist Client → Ptr → Cmd (World Client) Ptr)
      → (Dplist Client → Ptr → Cmd Clients (Dplist Client))
      → (dummy : Ptr) → (tcp_conn_ret : ℤ) → (port : ℤ) → (l : Dplist Client) → (first : PollFd)
      → Replies
      → List (Round V)
      → Cmd (Manager V) (Option Ptr)
  unfolding poll_loop
  listen fuel element_of remove_node dummy tcp_conn_ret port l first replies rs =
      if out_of_range port then (do report Event.invalid_port; pure none) else do
        λ s. ok tt (record s { sock_list = l; poll_fd = first ∷ []; counter = 0 })
        (code, o) ← on_net (passive_open replies port)
        let sv = or_kept null o
        serve fuel element_of remove_node dummy tcp_conn_ret first rs (code_number code) sv
        pure (some sv)
