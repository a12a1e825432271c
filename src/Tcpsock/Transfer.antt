-- ===== src/Tcpsock/Transfer.antt =====
-- The functions of lib/tcpsock.c that use an open socket: sending, receiving, and the getters.
use btvnlinux.Prelude.{◌&&◌, Bool, true, false, Option, none, some, ◌==◌, if◌then◌else◌}
use btvnlinux.Prelude.Int.{ℤ, pos, ltb_ℤ, eqb_ℤ}
use btvnlinux.Memory.{Ptr, null, Fault, Cmd, pure, fail, ◌>>=◌}
use btvnlinux.Tcpsock.Defs.{
  Code, no_error, socket_error, connection_closed, sockop_error, magic_cookie, Socket, Net, load,
}

-- The values of `errno` that the code tells apart.
pub data Errno : Type 0 where
  epipe : Errno
  enotconn : Errno
  other : Errno

abbrev pub no_peer_to_send : Errno → Bool
no_peer_to_send epipe = true
no_peer_to_send enotconn = true
no_peer_to_send other = false

abbrev pub no_peer_to_receive : Errno → Bool
no_peer_to_receive epipe = false
no_peer_to_receive enotconn = true
no_peer_to_receive other = false

-- The code for a count of bytes that `sendto` or `recv` returned, where `lost` tells whether
-- `errno` says that there is no peer.
abbrev pub transferred : (count : ℤ) → (lost : Bool) → Code
transferred count lost =
    if eqb_ℤ count (pos 0)
    then connection_closed
    else if ltb_ℤ count (pos 0) && lost
    then connection_closed
    else if ltb_ℤ count (pos 0)
    then sockop_error
    else no_error

-- The test with which the functions on an open socket begin; they return a code, and what they
-- write through their pointer argument.
abbrev pub when_bound :
    {A : Type 0} → Ptr → (Socket → Cmd Net (Code × Option A)) → Cmd Net (Code × Option A)
when_bound p body =
    if p == null
    then pure (socket_error, none)
    else do s ← load p; if s.cookie == magic_cookie then body s else pure (socket_error, none)

-- The common body of `tcp_send` and `tcp_receive`. `buf_size` is none for NULL; the code tests the
-- pointer, and then writes through it.
abbrev pub transfer :
    (count : ℤ) → (lost : Bool) → (buffer : Ptr) → (buf_size : Option ℤ) → Cmd Net (Code × Option ℤ)
transfer count lost buffer none = fail Fault.segfault
transfer count lost buffer (some n) =
    if buffer == null
    then pure (no_error, some (pos 0))
    else pure (transferred count lost, some count)

-- `tcp_send`: `sent` is what `sendto` returns, and `errno` what it leaves.
unfoldable pub send :
    (sent : ℤ) → Errno → (socket buffer : Ptr) → (buf_size : Option ℤ) → Cmd Net (Code × Option ℤ)
send sent errno socket buffer buf_size =
    when_bound socket (λ s. transfer sent (no_peer_to_send errno) buffer buf_size)

-- `tcp_receive`
unfoldable pub receive :
    (received : ℤ)
    → Errno
    → (socket buffer : Ptr) → (buf_size : Option ℤ) → Cmd Net (Code × Option ℤ)
receive received errno socket buffer buf_size =
    when_bound socket (λ s. transfer received (no_peer_to_receive errno) buffer buf_size)

-- `tcp_get_ip_addr`, `tcp_get_port` and `tcp_get_sd`
unfoldable pub get_ip_addr : Ptr → Cmd Net (Code × Option Ptr)
get_ip_addr socket = when_bound socket (λ s. pure (no_error, some s.ip_addr))

unfoldable pub get_port : Ptr → Cmd Net (Code × Option ℤ)
get_port socket = when_bound socket (λ s. pure (no_error, some s.port))

unfoldable pub get_sd : Ptr → Cmd Net (Code × Option ℤ)
get_sd socket = when_bound socket (λ s. pure (no_error, some s.sd))
