-- ===== src/Connmgr/Visit.antt =====
-- `connmgr_listen`: the body of its inner loop, the visit of a client's descriptor. The functions
-- `dpl_get_element_of_reference` and `dpl_remove_node` that it calls are declared nowhere, so they
-- are parameters. The source's `sockdum` is read as `sock_dum`.
use btvnlinux.Prelude.{
  ℕ, suc, ◌+◌, ◌-◌, Bool, true, false, ◌&&◌, ◌||◌, Option, none, some, List, ◌==◌, ltb,
  if◌then◌else◌, get_elem?, set,
}
use btvnlinux.Prelude.Int.{ℤ, pos, eqb_ℤ}
use btvnlinux.Memory.{Ptr, null, Fault, Cmd, ok, fault, pure, ◌>>=◌, ◌>>◌, object, expect, write}
use btvnlinux.Config.{SensorData}
use btvnlinux.Sbuffer
use btvnlinux.Sbuffer.{Status}
use btvnlinux.Dplist.Defs.{World, Dplist}
use btvnlinux.Dplist.Update.{get_reference_of_element}
use btvnlinux.Tcpsock.Defs.{Code}
use btvnlinux.Tcpsock.Transfer.{Errno, receive}
use btvnlinux.Connmgr.{Client, Clients, take_out}
use btvnlinux.Connmgr.Poll.{
  timeout, Watch, PollFd, Event, Manager, on_lists, on_net, on_clients, on_nodes, get, report,
}

-- What a visit of a descriptor finds: what the three calls of `recv` return and the reading that
-- they leave in `data`, the node that `malloc` returns for it, and the time at each call of `time`.
pub record Visit (V : Type 0) : Type 0 where
  pub id_count : ℤ
  pub value_count : ℤ
  pub ts_count : ℤ
  pub errno : Errno
  pub reading : SensorData V
  pub block : Ptr
  pub now_before : ℕ
  pub now_received : ℕ
  pub now_after : ℕ

abbrev pub load_client : Ptr → Cmd (World Client) Client
load_client p w = expect (object w.elements p) w

abbrev pub store_client : Ptr → Client → Cmd (World Client) (Unit {0})
store_client p c w = ok tt (record w { elements = write w.elements p (some c) })

-- `sock_dum.sd = poll_fd[i].fd`, of the local at the address `dummy`
abbrev pub set_dummy : (dummy : Ptr) → ℤ → Cmd (World Client) (Unit {0})
set_dummy dummy fd = do c ← load_client dummy; store_client dummy (record c { sd = fd })

-- The address of the local `data`.
abbrev pub data_address : Ptr
data_address = 1

-- `client->last_active + TIMEOUT > time(NULL)`, and the opposite comparison
abbrev pub is_active : (now : ℕ) → Client → Bool
is_active now c = ltb now (c.last_active + timeout)

abbrev pub is_expired : (now : ℕ) → Client → Bool
is_expired now c = ltb (c.last_active + timeout) now

-- `(tcp_ret == TCP_NO_ERROR) && size_ret`, where the size is left as it was by a failed call
abbrev pub is_received : Code → Option ℤ → Bool
is_received Code.no_error none = true
is_received Code.no_error (some n) = if eqb_ℤ n (pos 0) then false else true
is_received c n = false

abbrev pub is_closed : Code → Bool
is_closed Code.connection_closed = true
is_closed c = false

abbrev pub is_lost : Watch → Bool
is_lost Watch.lost = true
is_lost Watch.watching = false

-- The test for a connection to be given up.
abbrev pub must_drop : (stopsig now : ℕ) → Option Client → PollFd → Bool
must_drop stopsig now none p = p.hung_up || is_lost p.events
must_drop stopsig now (some c) p =
    ((c.sensor == stopsig) || is_expired now c) || (p.hung_up || is_lost p.events)

module _ {V : Type 0} where
  abbrev pub slot : ℕ → Cmd (Manager V) PollFd
  slot i s = expect (get_elem? s.poll_fd i) s

  -- `poll_fd[i].events = -1`
  abbrev pub mark_lost : ℕ → Cmd (Manager V) (Unit {0})
  mark_lost i = do
    p ← slot i
    λ s. ok tt (record s { poll_fd = set s.poll_fd i (record p { events = Watch.lost }) })

  -- `pthread_mutex_lock` and `pthread_mutex_unlock`; a thread that holds the mutex waits for ever.
  abbrev pub lock : Cmd (Manager V) (Unit {0})
  lock s = if s.lock_held then fault Fault.deadlock else ok tt (record s { lock_held = true })

  abbrev pub unlock : Cmd (Manager V) (Unit {0})
  unlock s = ok tt (record s { lock_held = false })

  -- `sbuffer_insert(*buffer, &data)`
  abbrev pub insert_reading : Visit V → Cmd (Manager V) (Unit {0})
  insert_reading v = do
    b ← get (λ s. s.buffer)
    r ← on_nodes (Sbuffer.insert v.block b v.reading)
    λ s. ok tt (record s { buffer = r.1 })

  -- The client once its reading is in.
  abbrev pub updated : Visit V → Client → Client
  updated v c = record c {
    last_active = v.now_received;
    sensor = if c.sensor == 0 then v.reading.id else c.sensor;
  }

  -- What becomes of a reading, by what the last call of `tcp_receive` returned.
  abbrev pub take_in :
      Visit V → (i : ℕ) → (client : Ptr) → Client → Code → Option ℤ → Cmd (Manager V) (Unit {0})
  take_in v i client c tcp_ret size_ret =
      if is_received tcp_ret size_ret
      then (do on_lists (store_client client (updated v c)); insert_reading v)
      else if is_closed tcp_ret
      then (do mark_lost i; report Event.connection_lost)
      else pure tt

  -- The three calls of `tcp_receive`, and what becomes of what they return.
  unfoldable pub receive_reading :
      Visit V → (i : ℕ) → (client : Ptr) → Client → Cmd (Manager V) (Unit {0})
  receive_reading v i client c = do
    on_net (receive v.id_count v.errno c.sock_pt data_address (some (pos 2)))
    on_net (receive v.value_count v.errno c.sock_pt data_address (some (pos 8)))
    (tcp_ret, size_ret) ← on_net (receive v.ts_count v.errno c.sock_pt data_address (some (pos 8)))
    take_in v i client c tcp_ret size_ret

  -- `client`, none where it is NULL.
  abbrev pub client_at : Ptr → Cmd (Manager V) (Option Client)
  client_at p = if p == null then pure none else do c ← on_lists (load_client p); pure (some c)

  abbrev pub receive_if : Visit V → ℕ → PollFd → Ptr → Option Client → Cmd (Manager V) (Unit {0})
  receive_if v i p client none = pure tt
  receive_if v i p client (some c) =
      if is_active v.now_before c && p.readable then receive_reading v i client c else pure tt

  -- `poll_fd` and `counter` once the descriptor is taken out.
  abbrev pub with_array : Option (List PollFd) → Cmd (Manager V) (Unit {0})
  with_array none s = fault Fault.segfault
  with_array (some fds) s = ok tt (record s { poll_fd = fds; counter = s.counter - 1 })

  abbrev pub take_slot : ℕ → Cmd (Manager V) (Unit {0})
  take_slot i s = with_array (take_out s.counter i s.poll_fd) s

  module _ (fuel : ℕ) (element_of : Dplist Client → Ptr → Cmd (World Client) Ptr)
      (remove_node : Dplist Client → Ptr → Cmd Clients (Dplist Client)) (dummy : Ptr) where
    -- `node` and `client`, for the descriptor `fd`.
    unfoldable pub find_client : (fd : ℤ) → Cmd (Manager V) (Ptr × Ptr)
    find_client fd = do
      on_lists (set_dummy dummy fd)
      l ← get (λ s. s.sock_list)
      node ← on_lists (get_reference_of_element fuel (some l) dummy)
      client ← if node == null then pure null else on_lists (element_of l node)
      pure (node, client)

    -- A connection that is given up: the mutex is released unless the client's node is removed.
    unfoldable pub drop_client : (node : Ptr) → Option Client → Cmd (Manager V) (Unit {0})
    drop_client node none = unlock
    drop_client node (some c) = do
      stopsig ← get (λ s. s.stopsig)
      if c.sensor == stopsig
          then (do
            λ s. ok tt (record s { stopsig = 0 })
            unlock
            report (Event.stopped_by_signal c.sensor))
          else (do
            report (Event.connection_closed_to c.sensor)
            l ← get (λ s. s.sock_list)
            l' ← on_clients (remove_node l node)
            λ s. ok tt (record s { sock_list = l' }))

    -- The part of a visit that holds the mutex; the index of the next visit.
    unfoldable pub settle : Visit V → (i : ℕ) → (node client : Ptr) → Cmd (Manager V) ℕ
    unfolding drop_client
    settle v i node client = do
      lock
      c ← client_at client
      p ← slot i
      stopsig ← get (λ s. s.stopsig)
      if must_drop stopsig v.now_after c p
          then (do drop_client node c; take_slot i; pure i)
          else (do unlock; pure (suc i))

    -- The part of a visit in front of the mutex; it leaves `node` and `client`.
    unfoldable pub arrive : Visit V → (i : ℕ) → Cmd (Manager V) (Ptr × Ptr)
    unfolding find_client receive_reading
    arrive v i = do
      p ← slot i
      (node, client) ← find_client p.fd
      c ← client_at client
      receive_if v i p client c
      pure (node, client)

    -- The body of the loop over the descriptors.
    unfoldable pub visit : Visit V → (i : ℕ) → Cmd (Manager V) ℕ
    unfolding arrive settle
    visit v i = do (node, client) ← arrive v i; settle v i node client
