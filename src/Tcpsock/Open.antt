-- ===== src/Tcpsock/Open.antt =====
-- The functions of lib/tcpsock.c that open and close sockets. Each returns its code and what it
-- writes through its pointer argument, none where it leaves that as it was.
use btvnlinux.Prelude.{ℕ, ◌||◌, Bool, true, false, Option, none, some, List, ◌==◌, if◌then◌else◌}
use btvnlinux.Prelude.Int.{ℤ, pos, negsuc, ltb_ℤ, eqb_ℤ}
use btvnlinux.Memory.{Ptr, null, Cmd, pure, ◌>>=◌, ◌>>◌}
use btvnlinux.Tcpsock.Defs.{
  Code, no_error, socket_error, address_error, sockop_error, memory_error, min_port, max_port,
  magic_cookie, char_ip_addr_length, Call, Net, Replies, to_port, strncpy, load, store,
  store_string, call, free, free_string, unbound, create, set_sd, set_bound, give_up,
}

-- `(port < MIN_PORT) || (port > MAX_PORT)`
abbrev pub out_of_range : ℤ → Bool
out_of_range port = ltb_ℤ port min_port || ltb_ℤ max_port port

-- `result != 0`, for the calls that return an `int`.
abbrev pub failed : ℤ → Bool
failed result = if eqb_ℤ result (pos 0) then false else true

-- `tcp_passive_open`
unfoldable pub passive_open : Replies → (port : ℤ) → Cmd Net (Code × Option Ptr)
unfolding create
passive_open r port = if out_of_range port then pure (address_error, none) else do
  s ← create r
  if s == null then pure (memory_error, none) else do
    call Call.socket
    set_sd s r.socket
    if ltb_ℤ r.socket (pos 0) then give_up s sockop_error else do
      call (Call.bind r.socket (to_port port))
      if failed r.bind then give_up s sockop_error else do
        call (Call.listen r.socket)
        if failed r.listen
            then give_up s sockop_error
            else do set_bound s null port; pure (no_error, some s)

-- `s->ip_addr = malloc(...); ... *sock = s`, with which `tcp_active_open` and
-- `tcp_wait_for_connection` end.
abbrev pub name_peer : Replies → Ptr → Cmd Net (Code × Option Ptr)
name_peer r s = if r.string == null then give_up s memory_error else do
  store_string r.string (some (strncpy r.text char_ip_addr_length))
  set_bound s r.string r.peer_port
  pure (no_error, some s)

-- `tcp_active_open`
unfoldable pub active_open :
    Replies → (remote_port : ℤ) → (remote_ip : Option (List ℕ)) → Cmd Net (Code × Option Ptr)
unfolding create
active_open r remote_port none = pure (address_error, none)
active_open r remote_port (some ip) =
    if out_of_range remote_port then pure (address_error, none) else do
      s ← create r
      if s == null then pure (memory_error, none) else do
        call Call.socket
        set_sd s r.socket
        if ltb_ℤ r.socket (pos 0)
            then give_up s sockop_error
            else if eqb_ℤ r.aton (pos 0)
            then give_up s address_error
            else do
              call (Call.connect r.socket (to_port remote_port))
              if failed r.connect
                  then give_up s sockop_error
                  else if failed r.getsockname
                  then give_up s sockop_error
                  else name_peer r s

-- `tcp_wait_for_connection`
unfoldable pub wait_for_connection : Replies → (socket : Ptr) → Cmd Net (Code × Option Ptr)
unfolding create
wait_for_connection r socket = if socket == null then pure (socket_error, none) else do
  own ← load socket
  if own.cookie == magic_cookie
      then (do
        s ← create r
        if s == null then pure (memory_error, none) else do
          call (Call.accept own.sd)
          set_sd s r.accept
          if eqb_ℤ r.accept (negsuc 0) then give_up s sockop_error else name_peer r s)
      else pure (socket_error, none)

-- `shutdown`, and `close` unless that failed; `result` is what `shutdown` returns.
abbrev pub shut : (result : ℤ) → (sd : ℤ) → Cmd Net (Unit {0})
shut result sd = if ltb_ℤ sd (pos 0) then pure tt else do
  call (Call.shutdown sd)
  if eqb_ℤ result (negsuc 0) then pure tt else call (Call.close sd)

-- `tcp_close`, of a pointer to a pointer to a socket: none for NULL. It returns the pointer that
-- `*socket` is left with.
unfoldable pub close : (result : ℤ) → Option Ptr → Cmd Net (Code × Option Ptr)
close result none = pure (socket_error, none)
close result (some p) = if p == null then pure (socket_error, some null) else do
  s ← load p
  if s.cookie == magic_cookie
      then (do if s.ip_addr == null then pure tt else free_string s.ip_addr; shut result s.sd)
      else pure tt
  store p (some unbound)
  free p
  pure (no_error, some null)
