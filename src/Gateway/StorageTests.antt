-- ===== src/Gateway/StorageTests.antt =====
-- The thread of the storage manager at small inputs. A value is a natural number.
use btvnlinux.Prelude.{ℕ, suc, ◌+◌, false, none, some, [], ◌∷◌, ltb, ◌==◌, if◌then◌else◌}
use btvnlinux.Prelude.Int.{ℤ, pos}
use btvnlinux.Memory.{Ptr, Heap, Cmd, write, pure}
use btvnlinux.Memory.Cells.{Cells}
use btvnlinux.Config.{Doubles, SensorData}
use btvnlinux.Connmgr.Poll.{Manager}
use btvnlinux.Datamgr.{SensorNode}
use btvnlinux.Dplist.Defs.{World, world, Dplist}
use btvnlinux.Sbuffer.{Node, node, sbuffer}
use btvnlinux.SensorDb.Sqlite.{Sqlite, Formats}
use btvnlinux.Tcpsock.Defs.{magic_cookie}
use btvnlinux.Gateway.Storage.{Process}

abbrev numbers : Doubles
numbers = record {
  Value = ℕ;
  zero_value = 0;
  add = λ x y. x + y;
  divide = λ x n. x;
  above = λ x y. ltb y x;
  is_zero_value = λ x. x == 0;
}

abbrev formats : Formats ℕ
formats = record { format_e = λ v. v ∷ []; format_g = λ v. v ∷ [] }

-- A database that refuses so many attempts to open it, and then opens at 7.
abbrev opens_after : (refusals : ℕ) → Sqlite
opens_after refusals = record {
  State = ℕ;
  Callback = Unit {0};
  open_db = λ n. ((if ltb n refusals then pos 14 else pos 0), 7, suc n);
  exec = λ p q c n. (pos 0, n);
  close_db = λ p n. (pos 0, n);
}

abbrev reading : SensorData ℕ
reading = record { id = 15; value = 20; ts = 1000 }

-- One node, at 8.
abbrev nodes : Heap (Node (SensorData ℕ))
nodes = write (λ a. none) 8 (some (node 0 reading))

abbrev cells : Cells (SensorData ℕ)
cells = (8, reading) ∷ []

abbrev no_sensors : Dplist (SensorNode ℕ)
no_sensors = record {
  head = 0;
  element_copy = λ e. pure e;
  element_free = λ e. pure tt;
  element_compare = λ x y. pure (pos 0);
}

abbrev element_at : Dplist (SensorNode ℕ) → ℤ → Cmd (World (SensorNode ℕ)) Ptr
element_at l i = pure 1

-- The server's socket at 70, and no client.
abbrev connections : Manager ℕ
connections = record {
  clients = record {
    lists = world (λ a. none) (λ a. none);
    net = record {
      sockets =
          write (λ a. none) 70
            (some (record { cookie = magic_cookie; sd = pos 3; ip_addr = 0; port = pos 5678 }));
      strings = λ a. none;
      calls = [];
    };
  };
  sock_list = record {
    head = 0;
    element_copy = λ e. pure e;
    element_free = λ e. pure tt;
    element_compare = λ x y. pure (pos 0);
  };
  poll_fd = [];
  counter = 0;
  nodes = nodes;
  buffer = some (sbuffer 8 8);
  stopsig = 0;
  lock_held = false;
  retval = none;
  reports = [];
}

abbrev process :
    (refusals : ℕ)
    → Process numbers formats (opens_after refusals) 4 element_at 30 10 (pos 0) (some 70) no_sensors
process refusals = record {
  own = record {
    storage = record { library = 0; texts = 0; events = [] };
    connections = connections;
    sensors = record { lists = world (λ a. none) (λ a. none); stopsig = 0; events = [] };
  };
  nodes = nodes;
}
