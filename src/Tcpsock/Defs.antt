-- ===== src/Tcpsock/Defs.antt =====
-- The state that lib/tcpsock.c works on, and the steps that its functions share.
use btvnlinux.Prelude.{
  ℕ, ◌-◌, ◌%◌, ◌++◌, Option, none, some, List, ◌∷◌, ◌==◌, if◌then◌else◌, take, replicate,
}
use btvnlinux.Prelude.Int.{ℤ, pos, negsuc}
use btvnlinux.Memory.{Ptr, null, Heap, Cmd, ok, pure, ◌>>=◌, ◌>>◌, object, expect, write}

-- The codes TCP_NO_ERROR, TCP_SOCKET_ERROR, TCP_ADDRESS_ERROR, TCP_SOCKOP_ERROR,
-- TCP_CONNECTION_CLOSED and TCP_MEMORY_ERROR.
pub data Code : Type 0 where
  no_error : Code
  socket_error : Code
  address_error : Code
  sockop_error : Code
  connection_closed : Code
  memory_error : Code

-- MIN_PORT, MAX_PORT, MAGIC_COOKIE (0xA2E1CF37D35) and CHAR_IP_ADDR_LENGTH
abbrev pub min_port : ℤ
min_port = pos 1024

abbrev pub max_port : ℤ
max_port = pos 65536

abbrev pub magic_cookie : ℕ
magic_cookie = 11193170492725

abbrev pub char_ip_addr_length : ℕ
char_ip_addr_length = 16

-- `struct tcpsock`
pub record Socket : Type 0 where
  pub cookie : ℕ
  pub sd : ℤ
  pub ip_addr : Ptr
  pub port : ℤ

-- The calls of the operating system that open, set up and close descriptors, with the port number
-- as it is sent where there is one.
pub data Call : Type 0 where
  socket : Call
  bind : (sd : ℤ) → (port : ℕ) → Call
  listen : (sd : ℤ) → Call
  connect : (sd : ℤ) → (port : ℕ) → Call
  accept : (sd : ℤ) → Call
  shutdown : (sd : ℤ) → Call
  close : (sd : ℤ) → Call

-- The store: the sockets, the strings that hold addresses, and the calls made, the last one first.
pub record Net : Type 0 where
  pub sockets : Heap Socket
  pub strings : Heap (List ℕ)
  pub calls : List Call

-- What `malloc` and the operating system answer to the calls of one function, each of which makes
-- any of these calls once at most. `text` and `peer_port` are what `inet_ntoa` and `ntohs` make of
-- the address that `getsockname` or `accept` filled in.
pub record Replies : Type 0 where
  pub block : Ptr
  pub string : Ptr
  pub socket : ℤ
  pub bind : ℤ
  pub listen : ℤ
  pub aton : ℤ
  pub connect : ℤ
  pub getsockname : ℤ
  pub accept : ℤ
  pub text : List ℕ
  pub peer_port : ℤ

-- `htons` takes a `uint16_t`, to which an `int` is cut.
abbrev pub to_port : ℤ → ℕ
to_port (pos n) = n % 65536
to_port (negsuc n) = 65535 - n % 65536

-- `strncpy` into a block of `n` bytes.
abbrev pub strncpy : List ℕ → ℕ → List ℕ
strncpy text n = take n (text ++ replicate n 0)

abbrev pub load : Ptr → Cmd Net Socket
load p w = expect (object w.sockets p) w

abbrev pub store : Ptr → Option Socket → Cmd Net (Unit {0})
store p c w = ok tt (record w { sockets = write w.sockets p c })

abbrev pub store_string : Ptr → Option (List ℕ) → Cmd Net (Unit {0})
store_string p c w = ok tt (record w { strings = write w.strings p c })

abbrev pub call : Call → Cmd Net (Unit {0})
call c w = ok tt (record w { calls = c ∷ w.calls })

-- `free(s)` of a socket
abbrev pub free : Ptr → Cmd Net (Unit {0})
free p = load p >> store p none

-- `free` of a string
abbrev pub free_string : Ptr → Cmd Net (Unit {0})
free_string p w = (expect (object w.strings p) >> store_string p none) w

abbrev pub unbound : Socket
unbound = record { cookie = 0; sd = negsuc 0; ip_addr = null; port = negsuc 0 }

-- `tcp_sock_create`: NULL, or a socket that is not bound yet.
unfoldable pub create : Replies → Cmd Net Ptr
create r = if r.block == null then pure null else (do store r.block (some unbound); pure r.block)

abbrev pub set_sd : Ptr → ℤ → Cmd Net (Unit {0})
set_sd p d = do s ← load p; store p (some (record s { sd = d }))

-- `s->ip_addr = ...; s->port = ...; s->cookie = MAGIC_COOKIE`
abbrev pub set_bound : Ptr → (ip_addr : Ptr) → (port : ℤ) → Cmd Net (Unit {0})
set_bound p a n = do
  s ← load p
  store p (some (record s { ip_addr = a; port = n; cookie = magic_cookie }))

-- `free(s); return code;`, with the caller's pointer left as it was.
abbrev pub give_up : Ptr → Code → Cmd Net (Code × Option Ptr)
give_up p c = do free p; pure (c, none)
