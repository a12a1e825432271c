-- ===== src/Connmgr/Free.antt =====
-- `connmgr_free`: what the connection manager does when its loop has ended.
use btvnlinux.Prelude.{
  ℕ, zero, suc, ◌<◌, ◌≡◌, refl, ◌≢◌, inl, inr, false, Option, none, some, [], ◌==◌, ==_false,
  if◌then◌else◌, Bool-cases, arith,
}
use btvnlinux.Prelude.Int.{ℤ, pos, negsuc, eqb_ℤ, ltb_ℤ}
use btvnlinux.Memory.{Ptr, null, ok, Cmd, pure, hang, ◌>>=◌, ◌>>◌, zoom, object, and_then, write}
use btvnlinux.Memory.Returns
use btvnlinux.Memory.Returns.{NeverReturns, Returns, returns, Ensures, ensured, failed}
use btvnlinux.Dplist.Defs.{World, Dplist, Node, load, store, set_next, set_prev}
use btvnlinux.Dplist.Update.{release, remove_front}
use btvnlinux.Tcpsock.Defs
use btvnlinux.Tcpsock.Defs.{Code, Socket, Net, magic_cookie, unbound}
use btvnlinux.Memory.Cells.{write_self}
use btvnlinux.Tcpsock.Open.{shut, close}
use btvnlinux.Connmgr.{Client, Clients, element_free}
use btvnlinux.Connmgr.Poll.{
  Event, Retval, Manager, on_net, on_clients, report, set_retval, written_to, get,
}
use mathlib.Core.Path.{subst}

-- `dpl_remove_at_index(*list, 0, true)` of a list that is not empty. The callback `element_free`
-- closes a socket, so it runs on the clients and the sockets; the rest runs on the list.
abbrev pub in_lists : {A : Type 0} → Cmd (World Client) A → Cmd Clients A
in_lists m = zoom (λ s. s.lists) (λ s w. record s { lists = w }) m

pub remove_first : (result : ℤ) → Dplist Client → Cmd Clients (Dplist Client)
remove_first result l = do
  n ← in_lists (load l.head)
  element_free result n.element
  in_lists (remove_front l false)

-- `dpl_free(&sock_list, true)`
unfoldable pub free_clients : (fuel : ℕ) → (result : ℤ) → Dplist Client → Cmd Clients (Unit {0})
unfolding remove_first
free_clients zero result l = hang
free_clients (suc k) result l =
    if l.head == null then pure tt else do l' ← remove_first result l; free_clients k result l'

-- A list that is not empty cannot lose its first node.
remove_front_from :
    (l : Dplist Client) (w : World Client) (o : Option Node)
    → object w.nodes l.head ≡ o
    → NeverReturns (remove_front l false w)
unfolding remove_front release set_next set_prev load store
remove_front_from l w none e = ground arith
remove_front_from l w (some n) e = ground arith

remove_first-NeverReturns :
    (result : ℤ) (l : Dplist Client) (w : Clients) → NeverReturns (remove_first result l w)
unfolding remove_first
remove_first-NeverReturns result l w = Returns.never_resume _ (load l.head w.lists) _ λ n u.
    Returns.never (element_free result n.element (record w { lists = u })) _ λ x t.
      Returns.never_put _ (remove_front l false t.lists)
        (remove_front_from l t.lists (object t.lists.nodes l.head) refl)

free_clients-NeverReturns :
    (fuel : ℕ) (result : ℤ) (l : Dplist Client) (w : Clients)
    → l.head ≢ null
    → NeverReturns (free_clients fuel result l w)
unfolding free_clients
free_clients-NeverReturns zero result l w ne = tt
free_clients-NeverReturns (suc k) result l w ne =
    rw (==_false ne)
      (Returns.never_first (remove_first result l w) _ (remove_first-NeverReturns result l w))

free_clients-empty :
    (fuel : ℕ) (result : ℤ) (l : Dplist Client) (w : Clients)
    → 0 < fuel
    → l.head ≡ null
    → free_clients fuel result l w ≡ ok tt w
unfolding free_clients
free_clients-empty zero result l w lt nil = absurd (omega arith)
free_clients-empty (suc k) result l w lt nil = rw nil refl

-- A server that `tcp_close` can close: there is none, or it is at an address that holds a socket
-- with no peer.
abbrev pub CanStop : Net → Option Ptr → Type 0
CanStop n none = Unit {0}
CanStop n (some p) = (p ≢ null) × (k : Socket) × (n.sockets p ≡ some k) × (k.ip_addr ≡ null)

shut-Returns : (result sd : ℤ) (n : Net) → Returns (λ _ _. Unit {0}) (shut result sd n)
shut-Returns result sd n = elim (Bool-cases (ltb_ℤ sd (pos 0))) [
  | inl unset ↦ rw unset (returns tt)
  | inr set_up ↦ elim (Bool-cases (eqb_ℤ result (negsuc 0))) [
    | inl bad ↦ rw (set_up, bad) (returns tt)
    | inr good ↦ rw (set_up, good) (returns tt)
  ]
]

-- The end of `tcp_close`.
let_go-no_error :
    (p : Ptr) (n : Net)
    → p ≢ null
    → Returns
        (λ x _. x.0 ≡ Code.no_error)
        ((Defs.free p >> pure {S = Net} {A = Code × Option Ptr} (Code.no_error, some null))
          (record n { sockets = write n.sockets p (some unbound) }))
let_go-no_error p n ne = rw (==_false ne, write_self n.sockets p (some unbound)) (returns refl)

close-no_error :
    (result : ℤ) (p : Ptr) (n : Net)
    → CanStop n (some p)
    → Returns (λ x _. x.0 ≡ Code.no_error) (close result (some p) n)
unfolding close
close-no_error result p n (ne, k, at, no_peer) = elim (Bool-cases (k.cookie == magic_cookie)) [
  | inl bound ↦
      rw (==_false ne, at, ==_false ne, bound, no_peer)
        (Returns.bind (shut-Returns result k.sd n) λ x m done. let_go-no_error p m ne)
  | inr free_of ↦ rw (==_false ne, at, ==_false ne, free_of) (let_go-no_error p n ne)
]

module _ {V : Type 0} where
  -- What is reported, by the code of `tcp_close`.
  abbrev pub closed : Code → Cmd (Manager V) (Unit {0})
  closed Code.no_error = report Event.stopped
  closed c = do set_retval Retval.close_socket_error; report Event.failed_to_stop

  -- The server's socket is closed, unless `sv` is NULL.
  unfoldable pub stop : (result : ℤ) → (sv : Ptr) → Cmd (Manager V) (Unit {0})
  stop result sv =
      if sv == null
      then report Event.stopped
      else do (code, o) ← on_net (close result (some sv)); closed code

  -- `connmgr_free`, given what `connmgr_listen` left the static pointers with: none where all are
  -- NULL. `result` is what `shutdown` answers.
  unfoldable pub free : (fuel : ℕ) → (result : ℤ) → Option Ptr → Cmd (Manager V) (Unit {0})
  unfolding stop free_clients
  free fuel result none = report Event.stopped
  free fuel result (some sv) = do
    stop result sv
    λ s. ok tt (record s { poll_fd = [] })
    l ← get (λ s. s.sock_list)
    on_clients (free_clients fuel result l)

  -- The list of clients is left alone.
  abbrev SameList : Dplist Client → Unit {0} → Manager V → Type 0
  SameList l u t = t.sock_list ≡ l

  failed_to_stop-SameList :
      (q : Option Retval) (s : Manager V)
      → Ensures
          (SameList s.sock_list)
          (and_then (written_to q Retval.close_socket_error s) λ _. report Event.failed_to_stop)
  failed_to_stop-SameList none s = failed
  failed_to_stop-SameList (some r) s = ensured refl

  closed-SameList : (c : Code) (s : Manager V) → Ensures (SameList s.sock_list) (closed c s)
  closed-SameList Code.no_error s = ensured refl
  closed-SameList Code.socket_error s = failed_to_stop-SameList s.retval s
  closed-SameList Code.address_error s = failed_to_stop-SameList s.retval s
  closed-SameList Code.sockop_error s = failed_to_stop-SameList s.retval s
  closed-SameList Code.connection_closed s = failed_to_stop-SameList s.retval s
  closed-SameList Code.memory_error s = failed_to_stop-SameList s.retval s

  stop-SameList :
      (result : ℤ) (sv : Ptr) (s : Manager V) → Ensures (SameList s.sock_list) (stop result sv s)
  unfolding stop
  stop-SameList result sv s = elim (Bool-cases (sv == null)) [
    | inl nil ↦ rw nil (ensured refl)
    | inr server ↦ rw server (
        Returns.ensures_bind
          (Returns.ensures_resumed {P = λ x t. t.sock_list ≡ s.sock_list} _
            (close result (some sv) s.clients.net) λ x n. refl)
          λ x t same. subst (λ l. Ensures (SameList l) (closed x.0 t)) same (closed-SameList x.0 t))
  ]

  -- A manager that has clients left never ends its clean-up: `dpl_free` cannot remove the first
  -- node, whatever state the list and the sockets are in.
  pub free-NeverReturns :
      (fuel : ℕ) (result : ℤ) (sv : Ptr) (s : Manager V)
      → s.sock_list.head ≢ null
      → NeverReturns (free fuel result (some sv) s)
  unfolding free
  free-NeverReturns fuel result sv s some_client =
      Returns.never_after _ (stop-SameList result sv s) λ x t same.
        Returns.never_put _ (free_clients fuel result t.sock_list t.clients)
          (free_clients-NeverReturns fuel result t.sock_list t.clients (rw same some_client))

  -- A manager that has no clients ends its clean-up, and leaves the shared buffer alone.
  pub free-empty :
      (fuel : ℕ) (result : ℤ) (sv : Option Ptr) (s : Manager V)
      → 0 < fuel
      → s.sock_list.head ≡ null
      → CanStop s.clients.net sv
      → Returns (λ _ t. t.nodes ≡ s.nodes) (free fuel result sv s)
  unfolding free stop
  free-empty fuel result none s lt nil can = returns refl
  free-empty fuel result (some p) s lt nil can = rw (==_false can.0) (
      Returns.bind {P = λ _ t. (t.nodes ≡ s.nodes) × (t.sock_list.head ≡ null)}
        (Returns.bind (Returns.resumed _ (close-no_error result p s.clients.net can))
          λ x t (n, et, good). rw (good, et) (returns (refl, nil)))
        λ y u (same, nil_u).
          rw (free_clients-empty fuel result u.sock_list u.clients lt nil_u) (returns same))
