-- ===== src/Connmgr/Received.antt =====
-- What the connection manager does with a reading, and with a client that is to be stopped.
use btvnlinux.Prelude.{
  ℕ, suc, ◌+◌, ◌-◌, ◌≡◌, refl, ◌≢◌, Bool, true, false, none, some, List, [], ◌∷◌, ◌++◌, arith,
  length, ◌==◌, ==_refl, get_elem?,
}
use btvnlinux.Prelude.Int.{ℤ, pos}
use btvnlinux.Memory.{Ptr, null, Cmd, ok, write}
use btvnlinux.Memory.Cells.{Cells}
use btvnlinux.Memory.Returns
use btvnlinux.Memory.Returns.{Returns, returns}
use btvnlinux.Config.{SensorData}
use btvnlinux.Dplist.Defs.{World, Dplist}
use btvnlinux.Sbuffer.{Sbuffer}
use btvnlinux.Sbuffer.Queue.{IsBuffer}
use btvnlinux.Sbuffer.Step.{insert-snoc}
use btvnlinux.Tcpsock.Defs.{magic_cookie, Socket, Net}
use btvnlinux.Tcpsock.Transfer.{Errno, no_peer_to_receive, transferred, receive}
use btvnlinux.Connmgr.{Client, Clients, take_out}
use btvnlinux.Connmgr.Compact.{take_out-removes, get_elem?-prefix}
use btvnlinux.Connmgr.Poll.{PollFd, Event, Manager}
use btvnlinux.Connmgr.Visit.{
  client_at, updated, Visit, data_address, is_received, receive_reading, settle, drop_client,
}

-- `tcp_receive` on a bound socket.
receive-bound :
    (count : ℤ) (errno : Errno) (p : Ptr) (n : ℤ) (k : Socket) (w : Net)
    → p ≢ null
    → w.sockets p ≡ some k
    → k.cookie ≡ magic_cookie
    → receive count errno p data_address (some n) w
      ≡ ok (transferred count (no_peer_to_receive errno), some count) w
unfolding receive
receive-bound count errno p n k w ne at bound = ground arith

-- A number of bytes that is positive is received.
received-positive :
    (n : ℕ) (lost : Bool) → is_received (transferred (pos (suc n)) lost) (some (pos (suc n))) ≡ true
received-positive n lost = ground arith

module _ {V : Type 0} where
  abbrev pub Inserted :
      Manager V → Visit V → Ptr → Client → Cells (SensorData V) → Unit {0} → Manager V → Type 0
  Inserted s v client c cs u t =
      (q : Sbuffer) × (t.buffer ≡ some q)
      × IsBuffer t.nodes q (cs ++ (v.block, v.reading) ∷ [])
      × (t.clients.lists.elements ≡ write s.clients.lists.elements client (some (updated v c)))
      × (t.poll_fd ≡ s.poll_fd)
      × (t.counter ≡ s.counter)
      × (t.reports ≡ s.reports)

  -- If the last of the three calls of `recv` returns bytes, the reading is put behind the others in
  -- the shared buffer, whatever the first two calls returned; the client is given the time and, if
  -- it had no sensor, the reading's; and nothing is reported. The conditions are that the client's
  -- socket is open, that the buffer is linked as it should be, and that `malloc` does not fail.
  pub receive_reading-Inserted :
      (v : Visit V) (i n : ℕ) (client : Ptr) (c : Client) (k : Socket) (s : Manager V) (b : Sbuffer)
      (cs : Cells (SensorData V))
      → c.sock_pt ≢ null
      → s.clients.net.sockets c.sock_pt ≡ some k
      → k.cookie ≡ magic_cookie
      → v.ts_count ≡ pos (suc n)
      → s.buffer ≡ some b
      → IsBuffer s.nodes b cs
      → v.block ≢ null
      → s.nodes v.block ≡ none
      → Returns (Inserted s v client c cs) (receive_reading v i client c s)
  unfolding receive_reading
  receive_reading-Inserted v i n client c k s b cs ne at bound count eb is room unused =
      rw
        (
          receive_reading,
          receive-bound v.id_count v.errno c.sock_pt (pos 2) k s.clients.net ne at bound,
          receive-bound v.value_count v.errno c.sock_pt (pos 8) k s.clients.net ne at bound,
          receive-bound v.ts_count v.errno c.sock_pt (pos 8) k s.clients.net ne at bound,
          count,
          received-positive n (no_peer_to_receive v.errno),
          eb,
        )
        (Returns.bind
          (Returns.resumed _ (insert-snoc s.nodes v.block v.reading b cs room unused is))
          λ (st, o) t (h, et, (es, q, eo, is')).
            rw (et, eo) (returns (q, refl, is', refl, refl, refl, refl)))

  client_at-some :
      (p : Ptr) (c : Client) (s : Manager V)
      → p ≢ null
      → s.clients.lists.elements p ≡ some c
      → client_at p s ≡ ok (some c) s
  client_at-some p c s ne at = ground arith

  -- A client whose sensor is the one to stop, while the mutex is free: its descriptor, wherever in
  -- the array, is taken out and the others stay in order; the signal is cleared, the mutex is
  -- released, and the stop is reported. But the client stays in the list, and its socket open. The
  -- condition covers a new client, whose sensor is 0, while no sensor is to be stopped.
  pub settle-stopped :
      (fuel : ℕ) (element_of : Dplist Client → Ptr → Cmd (World Client) Ptr)
      (remove_node : Dplist Client → Ptr → Cmd Clients (Dplist Client)) (dummy : Ptr) (v : Visit V)
      (node client : Ptr) (c : Client) (s : Manager V) (us : List PollFd) (p : PollFd)
      (vs : List PollFd)
      → s.lock_held ≡ false
      → client ≢ null
      → s.clients.lists.elements client ≡ some c
      → c.sensor ≡ s.stopsig
      → s.poll_fd ≡ us ++ p ∷ vs
      → s.counter ≡ length us + length vs
      → settle fuel element_of remove_node dummy v (length us) node client s
        ≡ ok (length us) (record s {
          lock_held = false;
          stopsig = 0;
          poll_fd = us ++ vs;
          counter = s.counter - 1;
          reports = Event.stopped_by_signal c.sensor ∷ s.reports;
        })
  unfolding settle drop_client
  settle-stopped fuel element_of remove_node dummy v node client c s us p vs free ne at same array
        count =
      let found : get_elem? s.poll_fd (length us) ≡ some p = rw array (get_elem?-prefix us p vs) in
      let equal : (c.sensor == s.stopsig) ≡ true = rw same (==_refl s.stopsig) in
      let taken : take_out s.counter (length us) s.poll_fd ≡ some (us ++ vs) =
        rw (array, count) (take_out-removes (length us + length vs) us p vs refl) in
      rw (settle, free, client_at-some client c (record s { lock_held = true }) ne at, found, equal)
        (rw (equal, taken) refl)
