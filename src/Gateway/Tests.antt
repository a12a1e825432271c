-- ===== src/Gateway/Tests.antt =====
-- The log process and the storage thread at small inputs.
use btvnlinux.Prelude.{◌≢◌, ℕ, ◌≡◌, refl, true, false, none, some, List, [], ◌∷◌, arith}
use btvnlinux.Prelude.Int.{ℤ, pos}
use btvnlinux.Memory.{Ptr, Heap, Cmd, write, ok, fault, Fault}
use btvnlinux.Memory.Cells.{Cells}
use btvnlinux.Config.{SensorData}
use btvnlinux.Sbuffer.{Node, node, sbuffer}
use btvnlinux.Sbuffer.Consumer.{Thread}
use btvnlinux.Sbuffer.Queue.{IsBuffer}
use btvnlinux.SensorDb.Sqlite.{Statement, Sqlite, Formats}
use btvnlinux.SensorDb.Defs.{Store}
use btvnlinux.Memory.Returns.{Returns}
use btvnlinux.Dplist.Defs
use btvnlinux.Dplist.Defs.{World, world, Dplist}
use btvnlinux.Tcpsock.Defs.{Code, Replies, Socket, magic_cookie, create}
use btvnlinux.Tcpsock.Open.{passive_open}
use btvnlinux.Tcpsock.Transfer.{Errno}
use btvnlinux.Connmgr.{Client, Clients}
use btvnlinux.Connmgr.Listen.{Round}
use btvnlinux.Connmgr.Poll.{Watch, PollFd, Manager}
use btvnlinux.Connmgr.Visit.{Visit, receive_reading}
use btvnlinux.Gateway.Delivery.{Delivers, receive_reading-Delivers}
use btvnlinux.Gateway.ConnThread.{conn_mgr, conn_mgr-crash, Ended, conn_mgr-Ended}
use btvnlinux.Gateway.Main.{works, main, main-works}
use btvnlinux.Gateway.Log.{entry, terminated, log_process, log_process-numbered}

-- The third report comes in the same read as the second.
log_process-numbered_example :
    log_process true ((72 ∷ 105 ∷ 0 ∷ []) ∷ (79 ∷ 0 ∷ 88 ∷ 0 ∷ []) ∷ []) false (1 ∷ 2 ∷ 3 ∷ [])
    ≡ ok tt (entry 0 (72 ∷ 105 ∷ []) ∷ entry 1 (79 ∷ []) ∷ terminated 2 ∷ [])
log_process-numbered_example =
    log_process-numbered ((72 ∷ 105 ∷ [], []) ∷ (79 ∷ [], 88 ∷ 0 ∷ []) ∷ []) false (1 ∷ 2 ∷ 3 ∷ [])
      ((omega arith, (omega arith, tt)), ((omega arith, tt), tt))

-- A database that answers every `sqlite3_open` with `code`, and keeps the statements.
abbrev answering : (code : ℤ) → Sqlite
answering code = record {
  State = List Statement;
  Callback = Unit {0};
  open_db = λ l. (code, 7, l);
  exec = λ p q c l. (pos 0, q ∷ l);
  close_db = λ p l. (pos 0, l);
}

abbrev formats : Formats ℕ
formats = record { format_e = λ v. v ∷ []; format_g = λ v. v ∷ [] }

abbrev reading : SensorData ℕ
reading = record { id = 15; value = 20; ts = 1000 }

-- One node, at 8.
abbrev nodes : Heap (Node (SensorData ℕ))
nodes = write (λ a. none) 8 (some (node 0 reading))

abbrev cells : Cells (SensorData ℕ)
cells = (8, reading) ∷ []

cells-IsBuffer : IsBuffer nodes (sbuffer 8 8) cells
cells-IsBuffer = record {
  head = refl;
  tail = refl;
  chain = (omega arith, refl, refl, tt);
  owned = ground arith;
}

abbrev thread : (code : ℤ) → Thread (SensorData ℕ) (Store formats (answering code))
thread code = record { own = record { library = []; texts = 0; events = [] }; nodes = nodes }

-- A client at 200 with its socket at 50, and a buffer that holds one reading.
abbrev client : Client
client = record { sock_pt = 50; sd = pos 4; last_active = 1000; sensor = 15 }

abbrev socket : Socket
socket = record { cookie = magic_cookie; sd = pos 4; ip_addr = 0; port = pos 1234 }

abbrev manager : Manager ℕ
manager = record {
  clients = record {
    lists = world (λ a. none) (write (λ a. none) 200 (some client));
    net = record { sockets = write (λ a. none) 50 (some socket); strings = λ a. none; calls = [] };
  };
  sock_list = record {
    head = 0;
    element_copy = λ e s. ok e s;
    element_free = λ e s. ok tt s;
    element_compare = λ x y s. ok (pos 0) s;
  };
  poll_fd = [];
  counter = 0;
  nodes = nodes;
  buffer = some (sbuffer 8 8);
  stopsig = 0;
  lock_held = false;
  retval = none;
  reports = [];
}

abbrev next_reading : SensorData ℕ
next_reading = record { id = 15; value = 21; ts = 1030 }

abbrev found : Visit ℕ
found = record {
  id_count = pos 2;
  value_count = pos 8;
  ts_count = pos 8;
  errno = Errno.other;
  reading = next_reading;
  block = 9;
  now_before = 1001;
  now_received = 1001;
  now_after = 1001;
}

receive_reading-Delivers_example :
    Returns
      (Delivers formats
        (answering (pos 0))
        7
        (thread (pos 0)).own
        reading
        (reading ∷ next_reading ∷ []))
      (receive_reading found 1 200 client manager)
receive_reading-Delivers_example =
    receive_reading-Delivers formats (answering (pos 0)) 7 (thread (pos 0)).own reading found 1 7
      200 client socket manager (sbuffer 8 8) cells (omega arith) refl refl refl refl cells-IsBuffer
      (omega arith) refl

-- A round that finds the time-out of `poll`, and the answers of an operating system that opens the
-- server's socket at 60, or does not.
abbrev answers : Replies
answers = record {
  block = 60;
  string = 61;
  socket = pos 3;
  bind = pos 0;
  listen = pos 0;
  aton = pos 1;
  connect = pos 0;
  getsockname = pos 0;
  accept = pos 5;
  text = 49 ∷ [];
  peer_port = pos 4000;
}

abbrev unset_slot : PollFd
unset_slot = record { fd = pos 0; events = Watch.watching; readable = false; hung_up = false }

abbrev timed_out : Round ℕ
timed_out = record {
  poll_ret = pos 0;
  revents = [];
  client_block = 201;
  node_block = record { address = 31; garbage = Defs.node 0 0 0 };
  replies = answers;
  unset_client = client;
  unset_slot = unset_slot;
  now = 1001;
  visits = [];
}

abbrev element_at : Dplist Client → Ptr → Cmd (World Client) Ptr
element_at l p w = ok p w

abbrev keep_nodes : Dplist Client → Ptr → Cmd Clients (Dplist Client)
keep_nodes l p w = ok l w

conn_mgr-Ended_example : Returns (Ended manager answers (pos 5678) (pos 0)) (
    conn_mgr 9 element_at keep_nodes 300
      (pos 1)
      (pos 5678)
      manager.sock_list
      unset_slot
      answers
      (timed_out ∷ [])
      (pos 0)
      manager)
conn_mgr-Ended_example =
    conn_mgr-Ended 9 element_at keep_nodes 300 (pos 1) (pos 5678) manager.sock_list unset_slot
      answers timed_out [] (pos 0) manager refl (omega arith) refl refl refl refl refl (omega arith)
      refl

abbrev full : Replies
full = record answers { block = 0 }

memory_error-bad : Code.memory_error ≢ Code.no_error
memory_error-bad = ground arith

conn_mgr-crash_example :
    conn_mgr 9 element_at keep_nodes 300
      (pos 1)
      (pos 5678)
      manager.sock_list
      unset_slot
      full
      (timed_out ∷ [])
      (pos 0)
      manager
    ≡ fault Fault.segfault
unfolding passive_open create
conn_mgr-crash_example =
    conn_mgr-crash 9 element_at keep_nodes 300 (pos 1) (pos 5678) manager.sock_list unset_slot full
      (timed_out ∷ []) (pos 0) manager Code.memory_error none manager.clients.net refl refl
      memory_error-bad

main-works_example :
    Returns (λ status acts. (status ≡ 0) × (works acts ≡ 0)) (main 2 (pos 5678) (pos 0) (pos 41) [])
main-works_example = main-works 2 (pos 5678) (pos 0) (pos 41)
