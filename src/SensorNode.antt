-- ===== src/SensorNode.antt =====
-- Project/sensor_node.c: the simulated sensor, built as the Makefile says, with LOOPS (3600) and
-- LOG_SENSOR_DATA. What `atoi` makes of the arguments is an argument, and so is what adding a random
-- change to a temperature gives.
pub mod Sent
mod Tests
use btvnlinux.Prelude.{
  ℕ, zero, suc, ◌%◌, Bool, true, false, Option, none, some, List, [], ◌∷◌, ◌++◌, take,
  if◌then◌else◌,
}
use btvnlinux.Prelude.Int.{ℤ, pos}
use btvnlinux.Memory.{Ptr, null, Fault, Cmd, Run, ok, pure, fail, ◌>>=◌, ◌>>◌, zoom}
use btvnlinux.Config.{SensorData}
use btvnlinux.Tcpsock.Defs.{Code, Net, Replies}
use btvnlinux.Tcpsock.Open.{active_open, close}
use btvnlinux.Tcpsock.Transfer.{Errno, send}

-- LOOPS
abbrev pub loops : ℕ
loops = 3600

-- What is handed to `tcp_send`: a reading's fields one by one.
pub data Field (V : Type 0) : Type 0 where
  id_field : ℕ → Field V
  value_field : V → Field V
  ts_field : ℕ → Field V

-- What a round of the loop finds: what the three calls of `sendto` return, the temperature's change
-- and the time.
pub record Round (V : Type 0) : Type 0 where
  pub id_count : ℤ
  pub value_count : ℤ
  pub ts_count : ℤ
  pub errno : Errno
  pub change : V → V
  pub now : ℕ

-- The sockets, the fields that `tcp_send` took without an error, and the lines of the log.
pub record Node (V : Type 0) : Type 0 where
  pub net : Net
  pub sent : List (Field V)
  pub log : List (SensorData V)

-- What `strncpy` copies at most of the third argument: the length of "000.000.000.000".
abbrev pub server_ip_length : ℕ
server_ip_length = 15

-- The arguments: `atoi` of the first, which is taken not to be negative, of the second and of the
-- fourth, and the third.
pub record Arguments : Type 0 where
  pub id : ℕ
  pub sleep_time : ℤ
  pub server_ip : List ℕ
  pub server_port : ℤ

abbrev pub is_ok : Code → Bool
is_ok Code.no_error = true
is_ok c = false

-- The address of the local `data`.
abbrev pub data_address : Ptr
data_address = 1

module _ {V : Type 0} where
  abbrev pub on_net : {A : Type 0} → Cmd Net A → Cmd (Node V) A
  on_net m = zoom (λ s. s.net) (λ s n. record s { net = n }) m

  -- `if (tcp_send(...) != TCP_NO_ERROR) exit(EXIT_FAILURE)`
  unfoldable pub send_field :
      (count : ℤ) → Errno → (client : Ptr) → (bytes : ℤ) → Field V → Cmd (Node V) (Unit {0})
  send_field count errno client bytes f = do
    (c, n) ← on_net (send count errno client data_address (some bytes))
    if is_ok c then (λ s. ok tt (record s { sent = s.sent ++ f ∷ [] })) else fail (Fault.exit 1)

  -- The reading of a round.
  abbrev pub measured : Round V → SensorData V → SensorData V
  measured r d = record d { value = r.change d.value; ts = r.now }

  -- One round: the fields in their order, and the line of the log.
  unfoldable pub send_reading : Round V → (client : Ptr) → SensorData V → Cmd (Node V) (Unit {0})
  unfolding send_field
  send_reading r client d = do
    send_field r.id_count r.errno client (pos 2) (id_field d.id)
    send_field r.value_count r.errno client (pos 8) (value_field d.value)
    send_field r.ts_count r.errno client (pos 8) (ts_field d.ts)
    λ s. ok tt (record s { log = s.log ++ d ∷ [] })

  -- The loop, with the rounds that are left; `find` tells what each finds.
  unfoldable pub send_readings :
      (i : ℕ) → (find : ℕ → Round V) → (client : Ptr) → SensorData V → Cmd (Node V) (Unit {0})
  unfolding send_reading
  send_readings zero find client d = pure tt
  send_readings (suc i) find client d = do
    send_reading (find i) client (measured (find i) d)
    send_readings i find client (measured (find i) d)

  -- `main`: `arguments` is none for a wrong number of them, `log_open` tells whether the log can be
  -- opened, `initial` is INITIAL_TEMPERATURE, and `unset` the time in `data` before the first round.
  unfoldable pub main :
      (log_open : Bool)
      → Option Arguments
      → Replies
      → (result : ℤ) → (initial : V) → (unset : ℕ) → (find : ℕ → Round V) → Cmd (Node V) (Unit {0})
  unfolding send_readings
  main false arguments replies result initial unset find = fail (Fault.exit 1)
  main true none replies result initial unset find = fail (Fault.exit 0)
  main true (some a) replies result initial unset find = do
    (c, o) ← on_net (active_open replies a.server_port (some (take server_ip_length a.server_ip)))
    if is_ok c
        then (do
          send_readings loops find (client_of o)
              (record { id = a.id % 65536; value = initial; ts = unset })
          (e, p) ← on_net (close result o)
          fail (Fault.exit (if is_ok e then 0 else 1)))
        else fail (Fault.exit 1)
    where
      client_of : Option Ptr → Ptr
      client_of none = null
      client_of (some p) = p
