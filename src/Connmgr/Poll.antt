-- ===== src/Connmgr/Poll.antt =====
-- `connmgr_listen`: the state of the connection manager.
use btvnlinux.Prelude.{ℕ, Bool, Option, none, some, List, ◌∷◌}
use btvnlinux.Prelude.Int.{ℤ}
use btvnlinux.Memory.{Heap, Fault, Cmd, ok, fault, zoom}
use btvnlinux.Config.{SensorData}
use btvnlinux.Sbuffer
use btvnlinux.Sbuffer.{Sbuffer}
use btvnlinux.Dplist.Defs.{World, Dplist}
use btvnlinux.Tcpsock.Defs.{Net}
use btvnlinux.Connmgr.{Client, Clients}

-- TIMEOUT and MAX_CONN, as the Makefile sets them
abbrev pub timeout : ℕ
timeout = 5

abbrev pub max_conn : ℕ
max_conn = 10

-- The field `events` of a `struct pollfd`: what is waited for, or the -1 of a lost connection.
pub data Watch : Type 0 where
  watching : Watch
  lost : Watch

-- `struct pollfd`, with the flags POLLIN and POLLHUP of its `revents`.
pub record PollFd : Type 0 where
  pub fd : ℤ
  pub events : Watch
  pub readable : Bool
  pub hung_up : Bool

-- What the manager reports through the pipe.
pub data Event : Type 0 where
  invalid_port : Event
  open_failed : Event
  started : Event
  poll_failed : Event
  not_accepted : Event
  new_connection : Event
  connection_lost : Event
  stopped_by_signal : (sensor : ℕ) → Event
  connection_closed_to : (sensor : ℕ) → Event
  failed_to_stop : Event
  stopped : Event

-- The codes that are written to `*retval`.
pub data Retval : Type 0 where
  thread_success : Retval
  open_socket_error : Retval
  accept_connection_error : Retval
  poll_error : Retval
  close_socket_error : Retval

-- The manager, with the nodes of the shared buffer, the shared identifier of the sensor to stop and
-- whether the manager holds the mutex on it; `retval` is none where that pointer is NULL. The last
-- report stands first.
pub record Manager (V : Type 0) : Type 0 where
  pub clients : Clients
  pub sock_list : Dplist Client
  pub poll_fd : List PollFd
  pub counter : ℕ
  pub nodes : Heap (Sbuffer.Node (SensorData V))
  pub buffer : Option Sbuffer
  pub stopsig : ℕ
  pub lock_held : Bool
  pub retval : Option Retval
  pub reports : List Event

module _ {V : Type 0} where
  abbrev pub on_lists : {A : Type 0} → Cmd (World Client) A → Cmd (Manager V) A
  on_lists m =
      zoom (λ s. s.clients.lists) (λ s w. record s { clients = record (s.clients) { lists = w } }) m

  abbrev pub on_net : {A : Type 0} → Cmd Net A → Cmd (Manager V) A
  on_net m =
      zoom (λ s. s.clients.net) (λ s n. record s { clients = record (s.clients) { net = n } }) m

  abbrev pub on_clients : {A : Type 0} → Cmd Clients A → Cmd (Manager V) A
  on_clients m = zoom (λ s. s.clients) (λ s c. record s { clients = c }) m

  abbrev pub on_nodes :
      {A : Type 0} → Cmd (Heap (Sbuffer.Node (SensorData V))) A → Cmd (Manager V) A
  on_nodes m = zoom (λ s. s.nodes) (λ s h. record s { nodes = h }) m

  abbrev pub get : {A : Type 0} → (Manager V → A) → Cmd (Manager V) A
  get f s = ok (f s) s

  abbrev pub report : Event → Cmd (Manager V) (Unit {0})
  report e s = ok tt (record s { reports = e ∷ s.reports })

  -- `*retval = ...`
  abbrev pub written_to : Option Retval → Retval → Cmd (Manager V) (Unit {0})
  written_to none r s = fault Fault.segfault
  written_to (some q) r s = ok tt (record s { retval = some r })

  abbrev pub set_retval : Retval → Cmd (Manager V) (Unit {0})
  set_retval r s = written_to s.retval r s

  -- `connmgr_init`, where it sets the pointer to the thread's result. The other pointers that it
  -- copies are to the pipe, its mutex, the stop signal and the mutex on it, of which the last two
  -- are in the state.
  unfoldable pub init : (status : Option Retval) → Cmd (Manager V) (Unit {0})
  init status s = ok tt (record s { retval = status })
