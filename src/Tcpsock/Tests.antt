-- ===== src/Tcpsock/Tests.antt =====
-- The socket functions on small inputs, and their theorems at them.
use btvnlinux.Prelude.{ℕ, ◌≤◌, ◌≡◌, refl, ◌≢◌, ◌↔◌, none, some, [], arith}
use btvnlinux.Prelude.Int.{ℤ, pos, negsuc}
use btvnlinux.Memory.{null, write, and_then}
use btvnlinux.Memory.Returns.{Returns}
use btvnlinux.Tcpsock.Defs.{magic_cookie, Socket, Net, Replies, to_port}
use btvnlinux.Tcpsock.Open.{passive_open, close}
use btvnlinux.Tcpsock.Guards.{to_port-out_of_range}
use btvnlinux.Tcpsock.Closing.{Closed, passive_open-close}
use btvnlinux.Tcpsock.Lifecycle.{Opened, passive_open-Opened}

abbrev socket_on : ℕ → Socket
socket_on n = record { cookie = magic_cookie; sd = pos n; ip_addr = null; port = pos 5678 }

-- The socket at 8 is bound, the one at 9 is not.
abbrev two_sockets : Net
two_sockets = record {
  sockets =
      write (write (λ a. none) 8 (some (socket_on 3))) 9
        (some (record (socket_on 3) { cookie = 0 }));
  strings = λ a. none;
  calls = [];
}

-- All goes well but for `listen`, which answers as given.
abbrev replies : ℤ → Replies
replies n = record {
  block = 7;
  string = 20;
  socket = pos 4;
  bind = pos 0;
  listen = n;
  aton = pos 1;
  connect = pos 0;
  getsockname = pos 0;
  accept = pos 5;
  text = [];
  peer_port = pos 40000;
}

passive_open-Opened_example :
    Returns
      (Opened two_sockets (replies (pos 0)) (pos 5678))
      (passive_open (replies (pos 0)) (pos 5678) two_sockets)
passive_open-Opened_example =
    passive_open-Opened two_sockets (replies (pos 0)) (pos 5678) (λ ne. refl)

passive_open-close_example : Returns (Closed two_sockets (replies (pos 0)) (pos 5678) (negsuc 0)) (
    and_then (passive_open (replies (pos 0)) (pos 5678) two_sockets) (λ (c, o). close (negsuc 0) o))
passive_open-close_example =
    passive_open-close two_sockets (replies (pos 0)) (pos 5678) (negsuc 0) refl (omega arith) refl
      refl refl refl

to_port-out_of_range_example :
    (n : ℕ) × (pos 65536 ≡ pos n)
    × (1024 ≤ n)
    × (n ≤ 65536)
    × ((to_port (pos 65536) ≡ n) ↔ (n ≢ 65536))
to_port-out_of_range_example = to_port-out_of_range (pos 65536) refl
