-- ===== src/Tcpsock/Guards.antt =====
-- What the functions on a socket do with one that is not bound, and the codes of a transfer.
use btvnlinux.Prelude.{
  ℕ, suc, ◌+◌, ◌≡◌, refl, ◌≢◌, ◌↔◌, ◌≤◌, ◌%◌, ◌⊎◌, inl, inr, Bool, true, false, Option, none, some,
  arith, ◌==◌, if◌then◌else◌, Bool-cases, ==_false, ltb,
}
use btvnlinux.Prelude.Int.{ℤ, pos, negsuc}
use btvnlinux.Memory.{Ptr, null, ok, Cmd}
use btvnlinux.Tcpsock.Defs.{
  Code, no_error, socket_error, sockop_error, connection_closed, magic_cookie, Socket, Net, Replies,
  to_port,
}
use btvnlinux.Tcpsock.Open.{out_of_range, wait_for_connection}
use btvnlinux.Tcpsock.Transfer.{
  Errno, no_peer_to_send, no_peer_to_receive, transferred, when_bound, send, receive, get_ip_addr,
  get_port, get_sd,
}

-- At `p` there is the socket `s`.
abbrev pub Holds : Net → Ptr → Socket → Type 0
Holds w p s = (p ≢ null) × (w.sockets p ≡ some s)

-- `p` is NULL or points to a socket that is not bound.
abbrev pub IsUnbound : Net → Ptr → Type 0
IsUnbound w p = (p ≡ null) ⊎ ((s : Socket) × Holds w p s × ((s.cookie == magic_cookie) ≡ false))

when_bound-unbound :
    {A : Type 0} (w : Net) (p : Ptr) (body : Socket → Cmd Net (Code × Option A))
    → IsUnbound w p
    → when_bound p body w ≡ ok (socket_error, none) w
when_bound-unbound w p body (inl nil) = rw nil refl
when_bound-unbound w p body (inr (s, (ne, at), bad)) = ground arith

when_bound-bound :
    {A : Type 0} (w : Net) (p : Ptr) (s : Socket) (body : Socket → Cmd Net (Code × Option A))
    → Holds w p s
    → s.cookie ≡ magic_cookie
    → when_bound p body w ≡ body s w
when_bound-bound w p s body (ne, at) good = ground arith

wait-unbound :
    (w : Net) (p : Ptr) (r : Replies)
    → IsUnbound w p
    → wait_for_connection r p w ≡ ok (socket_error, none) w
unfolding wait_for_connection
wait-unbound w p r (inl nil) = rw nil refl
wait-unbound w p r (inr (s, (ne, at), bad)) = ground arith

-- Every function that uses a socket, other than `tcp_close`, refuses NULL and a socket that is not
-- bound with TCP_SOCKET_ERROR, makes no call of the operating system and changes nothing.
pub unbound_refused :
    (w : Net) (p buffer : Ptr) (r : Replies) (count : ℤ) (errno : Errno) (buf_size : Option ℤ)
    → IsUnbound w p
    → (wait_for_connection r p w ≡ ok (socket_error, none) w)
      × (send count errno p buffer buf_size w ≡ ok (socket_error, none) w)
      × (receive count errno p buffer buf_size w ≡ ok (socket_error, none) w)
      × (get_ip_addr p w ≡ ok (socket_error, none) w)
      × (get_port p w ≡ ok (socket_error, none) w)
      × (get_sd p w ≡ ok (socket_error, none) w)
unfolding send receive get_ip_addr get_port get_sd
unbound_refused w p buffer r count errno buf_size un = (
  wait-unbound w p r un,
  when_bound-unbound w p _ un,
  when_bound-unbound w p _ un,
  when_bound-unbound w p _ un,
  when_bound-unbound w p _ un,
  when_bound-unbound w p _ un,
)

-- The codes that a count of bytes may have.
abbrev pub IsCodeOf : (count : ℤ) → (lost : Bool) → Code → Type 0
IsCodeOf (pos n) lost c = if n == 0 then c ≡ connection_closed else c ≡ no_error
IsCodeOf (negsuc n) lost c = if lost then c ≡ connection_closed else c ≡ sockop_error

transferred-IsCodeOf : (count : ℤ) (lost : Bool) → IsCodeOf count lost (transferred count lost)
transferred-IsCodeOf (pos n) lost = elim (Bool-cases (n == 0)) [
  | inl e ↦ rw (e) refl
  | inr e ↦ let low : ltb (n + 0) 0 ≡ false = ground arith in rw (e, low) refl
]
transferred-IsCodeOf (negsuc n) true =
    let low : ltb 0 (0 + suc n) ≡ true = ground arith in rw (low) refl
transferred-IsCodeOf (negsuc n) false =
    let low : ltb 0 (0 + suc n) ≡ true = ground arith in rw (low) refl

-- On a bound socket, with a buffer and a size, `tcp_send` and `tcp_receive` report the count that
-- the operating system returned and change nothing else. Their code is TCP_NO_ERROR for a positive
-- count, TCP_CONNECTION_CLOSED for 0, and for a negative count TCP_CONNECTION_CLOSED where `errno`
-- says that there is no peer and TCP_SOCKOP_ERROR elsewhere.
pub transfer_codes :
    (w : Net) (p : Ptr) (s : Socket) (buffer : Ptr) (count size : ℤ) (errno : Errno)
    → Holds w p s
    → s.cookie ≡ magic_cookie
    → buffer ≢ null
    → ((c : Code) × (send count errno p buffer (some size) w ≡ ok (c, some count) w)
        × IsCodeOf count (no_peer_to_send errno) c)
      × ((c : Code) × (receive count errno p buffer (some size) w ≡ ok (c, some count) w)
          × IsCodeOf count (no_peer_to_receive errno) c)
unfolding send receive
transfer_codes w p s buffer count size errno at bound ne = (
  (
    transferred count (no_peer_to_send errno),
    rw (when_bound-bound w p s _ at bound, ==_false ne) refl,
    transferred-IsCodeOf count (no_peer_to_send errno),
  ),
  (
    transferred count (no_peer_to_receive errno),
    rw (when_bound-bound w p s _ at bound, ==_false ne) refl,
    transferred-IsCodeOf count (no_peer_to_receive errno),
  ),
)

-- The three getters of a bound socket return its fields, and change nothing.
pub getters-bound :
    (w : Net) (p : Ptr) (s : Socket)
    → Holds w p s
    → s.cookie ≡ magic_cookie
    → (get_ip_addr p w ≡ ok (no_error, some s.ip_addr) w)
      × (get_port p w ≡ ok (no_error, some s.port) w)
      × (get_sd p w ≡ ok (no_error, some s.sd) w)
unfolding get_ip_addr get_port get_sd
getters-bound w p s at bound = (
  when_bound-bound w p s _ at bound,
  when_bound-bound w p s _ at bound,
  when_bound-bound w p s _ at bound,
)

negative-out_of_range : (n : ℕ) → out_of_range (negsuc n) ≡ true
negative-out_of_range n = ground arith

in_range : (n : ℕ) → out_of_range (pos n) ≡ false → (1024 ≤ n) × (n ≤ 65536)
in_range n range = ground arith

cut_exact : (n : ℕ) → 1024 ≤ n → n ≤ 65536 → (n % 65536 ≡ n) ↔ (n ≢ 65536)
cut_exact n lo hi = ((λ e top. absurd (omega arith)), λ ne. omega arith)

-- A port that passes the range test is from 1024 to 65536, and the number that is sent for it is
-- the port itself unless the port is 65536.
pub to_port-out_of_range :
    (port : ℤ)
    → out_of_range port ≡ false
    → (n : ℕ) × (port ≡ pos n) × (1024 ≤ n) × (n ≤ 65536) × ((to_port port ≡ n) ↔ (n ≢ 65536))
to_port-out_of_range (pos n) range =
    let (lo, hi) = in_range n range in (n, refl, lo, hi, cut_exact n lo hi)
to_port-out_of_range (negsuc n) range = absurd (ground (arith, negative-out_of_range n))
