-- ===== src/Tcpsock/Getters.antt =====
-- The getters of lib/tcpsock.c on a socket that has just been opened.
use btvnlinux.Prelude.{◌≡◌, refl, ◌≢◌, ◌⊎◌, inl, inr, Option, none, some}
use btvnlinux.Prelude.Int.{ℤ}
use btvnlinux.Memory.{Ptr, null, ok}
use btvnlinux.Memory.Returns
use btvnlinux.Memory.Returns.{Returns}
use btvnlinux.Tcpsock.Defs.{Code, no_error, Net, Replies}
use btvnlinux.Tcpsock.Open.{passive_open}
use btvnlinux.Tcpsock.Transfer.{get_ip_addr, get_port, get_sd}
use btvnlinux.Tcpsock.Guards.{getters-bound}
use btvnlinux.Tcpsock.Lifecycle.{listening, passive_open-Opened}

-- Either no socket was returned, or the getters of the one that was answer as it was opened.
abbrev pub Answers : Replies → ℤ → Code × Option Ptr → Net → Type 0
Answers r port (c, o) v =
    ((c ≢ no_error) × (o ≡ none))
    ⊎ ((p : Ptr) × (c ≡ no_error)
        × (o ≡ some p)
        × (get_ip_addr p v ≡ ok (no_error, some null) v)
        × (get_port p v ≡ ok (no_error, some port) v)
        × (get_sd p v ≡ ok (no_error, some r.socket) v))

-- Where `tcp_passive_open` returns a socket, `tcp_get_port` returns the port that was asked for,
-- `tcp_get_sd` the descriptor that the operating system gave, and `tcp_get_ip_addr` NULL, and they
-- change nothing, if `malloc` returns NULL or the address of no socket in use.
pub passive_open-getters :
    (w : Net) (r : Replies) (port : ℤ)
    → (r.block ≢ null → w.sockets r.block ≡ none)
    → Returns (Answers r port) (passive_open r port w)
passive_open-getters w r port fresh =
    Returns.mono (passive_open-Opened w r port fresh) λ (c, o) v opened. elim opened [
      | inl (bad, nil, same) ↦ inl (bad, nil)
      | inr (good, at, holds, same) ↦
          let (ip, number, sd) = getters-bound v r.block (listening r port) holds refl in
          inr (r.block, good, at, ip, number, sd)
    ]
