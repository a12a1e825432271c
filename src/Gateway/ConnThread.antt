-- ===== src/Gateway/ConnThread.antt =====
-- Project/main.c: the thread of the connection manager, `conn_mgr`.
use btvnlinux.Prelude.{
  ℕ, zero, suc, ◌≡◌, refl, ◌≢◌, false, Option, none, some, List, [], ◌∷◌, ◌==◌, ==_false, arith, ap,
  ◌∙◌,
}
use btvnlinux.Prelude.Int.{ℤ, pos, ltb_ℤ}
use btvnlinux.Memory.{Ptr, null, Fault, Cmd, ok, fault, ◌>>=◌, ◌>>◌, write}
use btvnlinux.Memory.Returns
use btvnlinux.Memory.Returns.{Returns, returns}
use btvnlinux.Dplist.Defs.{World, Dplist}
use btvnlinux.Tcpsock.Defs.{Code, Net, Replies, unbound, Socket, magic_cookie}
use btvnlinux.Tcpsock.Open.{out_of_range, failed, passive_open, close}
use btvnlinux.Tcpsock.Transfer.{get_sd}
use btvnlinux.Tcpsock.Lifecycle.{passive_open-ok, listening, set_up}
use btvnlinux.Memory.Cells.{write_self}
use btvnlinux.Tcpsock.Closing.{Closed, passive_open-close}
use btvnlinux.Connmgr.{Client, Clients}
use btvnlinux.Connmgr.Poll.{Watch, PollFd, Event, Manager, init}
use btvnlinux.Connmgr.Listen.{Round, code_number, listen, serve, poll_loop}
use btvnlinux.Connmgr.Free.{free, stop, free_clients}

code_number-bad : (c : Code) → c ≢ Code.no_error → (code_number c == 0) ≡ false
code_number-bad Code.no_error bad = absurd (bad refl)
code_number-bad Code.socket_error bad = refl
code_number-bad Code.address_error bad = refl
code_number-bad Code.sockop_error bad = refl
code_number-bad Code.connection_closed bad = refl
code_number-bad Code.memory_error bad = refl

get_sd-listening :
    (p : Ptr) (n : Net) (k : Socket)
    → p ≢ null
    → n.sockets p ≡ some k
    → k.cookie ≡ magic_cookie
    → get_sd p n ≡ ok (Code.no_error, some k.sd) n
unfolding get_sd
get_sd-listening p n k ne at bound = ground arith

-- The sockets once the server's is open.
abbrev opened_net : Net → Replies → ℤ → Net
opened_net w r port = record w {
  sockets =
      write
        (write (write w.sockets r.block (some unbound)) r.block
          (some (record unbound { sd = r.socket })))
        r.block (some (listening r port));
  calls = set_up w r port;
}

-- The server's descriptor in its slot.
abbrev server_slot : PollFd → Socket → PollFd
server_slot first k = record first { fd = k.sd; events = Watch.watching }

-- What the thread leaves when no client ever comes.
abbrev pub Ended :
    {V : Type 0} → Manager V → Replies → (port result : ℤ) → Unit {0} → Manager V → Type 0
Ended s replies port result u t =
    Closed s.clients.net replies port result (Code.no_error, some null) t.clients.net
    × (t.reports ≡ Event.stopped ∷ Event.started ∷ s.reports)
    × (t.poll_fd ≡ [])
    × (t.counter ≡ 0)

module _ {V : Type 0} (fuel : ℕ) (element_of : Dplist Client → Ptr → Cmd (World Client) Ptr)
    (remove_node : Dplist Client → Ptr → Cmd Clients (Dplist Client)) (dummy : Ptr)
    (tcp_conn_ret : ℤ) where
  -- `conn_mgr`: THREAD_SUCCESS, with which the pointer to the result is set, is 0. `result` is what
  -- `shutdown` answers when the server's socket is closed.
  pub conn_mgr :
      (port : ℤ)
      → (l : Dplist Client) → (first : PollFd) → Replies
      → List (Round V)
      → (result : ℤ) → Cmd (Manager V) (Unit {0})
  conn_mgr port l first replies rs result = do
    init none
    sv ← listen fuel element_of remove_node dummy tcp_conn_ret port l first replies rs
    free fuel result sv

  -- Where the server's socket cannot be opened, the thread ends the program by a write through the
  -- pointer to its result, which is NULL.
  pub conn_mgr-crash :
      (port : ℤ) (l : Dplist Client) (first : PollFd) (replies : Replies) (rs : List (Round V))
      (result : ℤ) (s : Manager V) (c : Code) (o : Option Ptr) (n : Net)
      → out_of_range port ≡ false
      → passive_open replies port s.clients.net ≡ ok (c, o) n
      → c ≢ Code.no_error
      → conn_mgr port l first replies rs result s ≡ fault Fault.segfault
  unfolding conn_mgr init listen
  conn_mgr-crash port l first replies rs result s c o n range e bad =
      rw (range, e, code_number-bad c bad) refl

  -- A time-out with no client ends the loop.
  poll_loop-idle :
      (sv : Ptr) (r : Round V) (rs : List (Round V)) (s : Manager V)
      → r.poll_ret ≡ pos 0
      → s.counter ≡ 0
      → poll_loop fuel element_of remove_node dummy sv tcp_conn_ret (r ∷ rs) s ≡ ok tt s
  unfolding poll_loop
  poll_loop-idle sv r rs s timeout none_yet = rw (timeout, none_yet) refl

  serve-idle :
      (first : PollFd) (r : Round V) (rs : List (Round V)) (sv : Ptr) (k : Socket) (s : Manager V)
      → sv ≢ null
      → s.clients.net.sockets sv ≡ some k
      → k.cookie ≡ magic_cookie
      → r.poll_ret ≡ pos 0
      → s.counter ≡ 0
      → serve fuel element_of remove_node dummy tcp_conn_ret first (r ∷ rs) 0 sv s
        ≡ ok tt
            (record s { poll_fd = server_slot first k ∷ []; reports = Event.started ∷ s.reports })
  serve-idle first r rs sv k s ne at bound timeout none_yet =
      rw (get_sd-listening sv s.clients.net k ne at bound) (
        poll_loop-idle sv r rs
          (record s { poll_fd = server_slot first k ∷ []; reports = Event.started ∷ s.reports })
          timeout none_yet)

  -- The clean-up without clients.
  free-alone :
      (k : ℕ) (result : ℤ) (sv : Ptr) (s : Manager V) (o : Option Ptr) (n : Net)
      → k ≢ 0
      → sv ≢ null
      → close result (some sv) s.clients.net ≡ ok (Code.no_error, o) n
      → s.sock_list.head ≡ null
      → free k result (some sv) s
        ≡ ok tt (record s {
          clients = record (s.clients) { net = n };
          poll_fd = [];
          reports = Event.stopped ∷ s.reports;
        })
  unfolding free stop free_clients
  free-alone zero result sv s o n some_fuel ne e nil = absurd (some_fuel refl)
  free-alone (suc k) result sv s o n some_fuel ne e nil = rw (==_false ne, e, nil) refl

  finished :
      (s : Manager V) (replies : Replies) (port result : ℤ) (t : Manager V)
      → fuel ≢ 0
      → replies.block ≢ null
      → t.sock_list.head ≡ null
      → t.reports ≡ Event.started ∷ s.reports
      → t.counter ≡ 0
      → Returns
          (Closed s.clients.net replies port result)
          (close result (some replies.block) t.clients.net)
      → Returns (Ended s replies port result) (free fuel result (some replies.block) t)
  finished s replies port result t some_fuel room nil told alone closing =
      let ((c, o), n, e, done) = Returns.outcome closing in
      let (ec, eo, same, strings, calls) = done in
      let e' = e ∙ ap (λ code. ok (code, o) n) ec in
      rw (free-alone fuel result replies.block t o n some_fuel room e' nil) (
        returns
          ((refl, refl, same, strings, calls), ap (λ es. Event.stopped ∷ es) told, refl, alone))

  -- A gateway that no sensor connects to: when `poll` first returns, by its timeout, the thread of
  -- the connection manager closes the server's socket and ends. The conditions are that the socket
  -- can be opened, that the list of clients is empty, and that there is fuel.
  pub conn_mgr-Ended :
      (port : ℤ) (l : Dplist Client) (first : PollFd) (replies : Replies) (r : Round V)
      (rs : List (Round V)) (result : ℤ) (s : Manager V)
      → out_of_range port ≡ false
      → replies.block ≢ null
      → s.clients.net.sockets replies.block ≡ none
      → ltb_ℤ replies.socket (pos 0) ≡ false
      → failed replies.bind ≡ false
      → failed replies.listen ≡ false
      → l.head ≡ null
      → fuel ≢ 0
      → r.poll_ret ≡ pos 0
      → Returns (Ended s replies port result) (conn_mgr port l first replies (r ∷ rs) result s)
  unfolding conn_mgr init listen
  conn_mgr-Ended port l first replies r rs result s range room unused descriptor fb fl nil some_fuel
        timeout =
      let opened = passive_open-ok s.clients.net replies port range room descriptor fb fl in
      let n = opened_net s.clients.net replies port in
      let k = listening replies port in
      let begun = record s {
        clients = record (s.clients) { net = n };
        sock_list = l;
        poll_fd = first ∷ [];
        counter = 0;
        retval = none;
      } in
      let served =
        serve-idle first r rs replies.block k begun room
          (write_self
            (write (write s.clients.net.sockets replies.block (some unbound)) replies.block
              (some (record unbound { sd = replies.socket })))
            replies.block (some k))
          refl timeout refl in
      let closing =
        rw opened at (
          passive_open-close s.clients.net replies port result range room unused descriptor fb
            fl) in
      rw (range, opened, served)
        (finished s replies port result _ some_fuel room nil refl refl closing)
