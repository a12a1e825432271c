-- ===== src/Connmgr/Tests.antt =====
-- The connection manager on small inputs, and its theorems at them. A value is a natural number.
use btvnlinux.Prelude.{List, ℕ, ◌≡◌, refl, true, false, none, some, [], ◌∷◌, arith}
use btvnlinux.Prelude.Int.{negsuc, ℤ, pos}
use btvnlinux.Memory.{Ptr, Cmd, write, ok, pure, fault, Fault}
use btvnlinux.Memory.Returns.{Ensures, NeverReturns}
use btvnlinux.Sbuffer
use btvnlinux.Sbuffer.Queue.{IsBuffer}
use btvnlinux.Dplist.Defs.{World, world, Dplist, node, load}
use btvnlinux.Dplist.Update.{get_reference_of_element}
use btvnlinux.Tcpsock.Defs.{Socket, magic_cookie, Replies}
use btvnlinux.Tcpsock.Transfer.{Errno}
use btvnlinux.Connmgr.{Client, Clients, take_out, element_compare}
use btvnlinux.Connmgr.Compact.{take_out-removes}
use btvnlinux.Connmgr.Poll.{Watch, PollFd, Event, Manager}
use btvnlinux.Connmgr.Visit.{Visit, settle, find_client, arrive, visit}
use btvnlinux.Connmgr.Listen.{Round, listen}
use btvnlinux.Connmgr.Received.{settle-stopped}
use btvnlinux.Connmgr.Mutex.{Released, visit-Released, visit-deadlock}
use btvnlinux.Connmgr.Counted.{Counted}
use btvnlinux.Connmgr.Free.{free, free-NeverReturns}
use btvnlinux.Connmgr.Listening.{listen-Counted}

-- The server at 3 and three clients, the second of which is taken out.
take_out-removes_example : take_out {A = ℕ} 3 2 (3 ∷ 4 ∷ 5 ∷ 6 ∷ []) ≡ some (3 ∷ 4 ∷ 6 ∷ [])
take_out-removes_example = take_out-removes {A = ℕ} 3 (3 ∷ 4 ∷ []) 5 (6 ∷ []) (omega arith)

-- The client at 200, with its socket at 50 and the descriptor 4; it has no sensor yet.
abbrev client : Client
client = record { sock_pt = 50; sd = pos 4; last_active = 1000; sensor = 0 }

abbrev socket : Socket
socket = record { cookie = magic_cookie; sd = pos 4; ip_addr = 0; port = pos 1234 }

-- The server's socket, at 70.
abbrev server : Socket
server = record { cookie = magic_cookie; sd = pos 3; ip_addr = 0; port = pos 5678 }

abbrev fd_of : ℤ → PollFd
fd_of n = record { fd = n; events = Watch.watching; readable = true; hung_up = false }

-- A manager with the server and one client, and an empty shared buffer. The local `sock_dum` is at
-- the address 300.
abbrev manager : Manager ℕ
manager = record {
  clients = record {
    lists =
        world (write (λ a. none) 30 (some (node 0 0 200)))
          (write (write (λ a. none) 200 (some client)) 300 (some client));
    net = record {
      sockets = write (write (λ a. none) 50 (some socket)) 70 (some server);
      strings = λ a. none;
      calls = [];
    };
  };
  sock_list = record {
    head = 30;
    element_copy = λ e. pure e;
    element_free = λ e. pure tt;
    element_compare = element_compare;
  };
  poll_fd = fd_of (pos 3) ∷ fd_of (pos 4) ∷ [];
  counter = 1;
  nodes = λ a. none;
  buffer = some (Sbuffer.sbuffer 0 0);
  stopsig = 0;
  lock_held = false;
  retval = none;
  reports = [];
}

abbrev found : Visit ℕ
found = record {
  id_count = pos 2;
  value_count = pos 8;
  ts_count = pos 8;
  errno = Errno.other;
  reading = record { id = 15; value = 20; ts = 1001 };
  block = 8;
  now_before = 1001;
  now_received = 1001;
  now_after = 1001;
}

empty-IsBuffer : IsBuffer manager.nodes (Sbuffer.sbuffer 0 0) []
empty-IsBuffer = record { head = refl; tail = refl; chain = tt; owned = λ a e. refl }

-- The client at an address that the list gives, and a removal that leaves the list alone.
abbrev element_at : Dplist Client → Ptr → Cmd (World Client) Ptr
element_at l p = pure 200

abbrev removed : Dplist Client → Ptr → Cmd Clients (Dplist Client)
removed l p = pure l

-- No sensor is to be stopped, and the client has not sent its sensor yet.
settle-stopped_example :
    settle 9 element_at removed 300 found 1 30 200 manager
    ≡ ok 1 (record manager {
      poll_fd = fd_of (pos 3) ∷ [];
      counter = 0;
      reports = Event.stopped_by_signal 0 ∷ [];
    })
settle-stopped_example =
    settle-stopped 9 element_at removed 300 found 30 200 client manager (fd_of (pos 3) ∷ [])
      (fd_of (pos 4)) [] refl (omega arith) refl refl refl (omega arith)

visit-Released_example :
    Ensures (Released 9 element_at removed 300) (visit 9 element_at removed 300 found 1 manager)
visit-Released_example = visit-Released 9 element_at removed 300 found 1 manager refl

-- A visit that comes too late for its client's reading.
abbrev late : Visit ℕ
late = record found { now_before = 5000 }

visit-deadlock_example :
    visit 9 element_at removed 300 late 1 (record manager { lock_held = true })
    ≡ fault Fault.deadlock
unfolding arrive find_client get_reference_of_element load element_compare
visit-deadlock_example =
    visit-deadlock 9 element_at removed 300 late 1 (record manager { lock_held = true }) _ _ refl
      refl

abbrev quiet : Replies
quiet = record {
  block = 60;
  string = 61;
  socket = pos 5;
  bind = pos 0;
  listen = pos 0;
  aton = pos 1;
  connect = pos 0;
  getsockname = pos 0;
  accept = pos 5;
  text = 49 ∷ [];
  peer_port = pos 4000;
}

-- Data for the server and for the client.
abbrev busy : Round ℕ
busy = record {
  poll_ret = pos 2;
  revents = (true, false) ∷ (true, false) ∷ [];
  client_block = 201;
  node_block = record { address = 31; garbage = node 0 0 0 };
  replies = quiet;
  unset_client = client;
  unset_slot = fd_of (pos 9);
  now = 1001;
  visits = found ∷ found ∷ found ∷ [];
}

-- A round in which a client arrives and one is served, and then a failure of `poll`.
abbrev rounds : List (Round ℕ)
rounds = busy ∷ record busy { poll_ret = negsuc 0 } ∷ []

listen-Counted_example :
    Ensures
      (λ u t. Counted t)
      (listen 9 element_at removed 300
        (pos 1)
        (pos 5678)
        manager.sock_list
        (fd_of (pos 9))
        (record quiet { block = 70 })
        rounds
        manager)
listen-Counted_example =
    listen-Counted 9 element_at removed 300 (pos 1) (pos 5678) manager.sock_list (fd_of (pos 9))
      (record quiet { block = 70 }) rounds manager refl

free-NeverReturns_example : NeverReturns (free 9 (pos 0) (some 70) manager)
free-NeverReturns_example = free-NeverReturns 9 (pos 0) 70 manager (omega arith)
