-- ===== src/Gateway/Storage.antt =====
-- Project/main.c: the thread of the storage manager, `stor_mgr`, with the managers that it cleans up
-- when it cannot reach the database.
use btvnlinux.Prelude.{ℕ, zero, suc, ◌≡◌, Bool, true, false, Option, ◌==◌, if◌then◌else◌}
use btvnlinux.Prelude.Int.{ℤ}
use btvnlinux.Memory.{Ptr, null, Fault, Cmd, ok, fail, pure, ◌>>=◌, ◌>>◌, zoom}
use btvnlinux.Memory.Cells.{Cells}
use btvnlinux.Memory.Returns
use btvnlinux.Memory.Returns.{Returns}
use btvnlinux.Config.{Doubles, SensorData}
use btvnlinux.Connmgr.Poll.{Manager}
use btvnlinux.Connmgr.Free.{free, CanStop}
use btvnlinux.Datamgr
use btvnlinux.Datamgr.{SensorNode, free_sensors}
use btvnlinux.Dplist.Defs.{World, Dplist}
use btvnlinux.Sbuffer.{Sbuffer, free_all}
use btvnlinux.Sbuffer.Consumer.{Thread, on_own, on_nodes}
use btvnlinux.SensorDb.Sqlite.{Sqlite, Formats}
use btvnlinux.SensorDb.Defs.{
  Store, server_failed, report, init_connection, disconnect, parse_sensor_data,
}

-- `element_of` is what the data manager uses of `dpl_get_element_of_index`, `result` what `shutdown`
-- answers, `sv` the server's socket that `connmgr_listen` has left (none where the pointers are all
-- NULL), and `l` the list of sensors.
module _ (F : Doubles) (P : Formats F.Value) (S : Sqlite) (fuel : ℕ)
    (element_of : Dplist (SensorNode F.Value) → ℤ → Cmd (World (SensorNode F.Value)) Ptr)
    (max_temp min_temp : F.Value) (result : ℤ) (sv : Option Ptr)
    (l : Dplist (SensorNode F.Value)) where
  open F use {Value}

  -- The static variables of the three managers.
  pub record Managers : Type 0 where
    pub storage : Store P S
    pub connections : Manager Value
    pub sensors : Datamgr.Store Value

  -- The whole process as this thread sees it: the managers, and the nodes of the shared buffer.
  abbrev pub Process : Type 0
  Process = Thread (SensorData Value) Managers

  abbrev on_storage : {A : Type 0} → Cmd (Thread (SensorData Value) (Store P S)) A → Cmd Process A
  on_storage m =
      zoom (λ t. record { own = t.own.storage; nodes = t.nodes })
        (λ t u. record { own = record (t.own) { storage = u.own }; nodes = u.nodes }) m

  -- The connection manager has the nodes of the buffer in its own state.
  abbrev on_connections : {A : Type 0} → Cmd (Manager Value) A → Cmd Process A
  on_connections m =
      zoom (λ t. record (t.own.connections) { nodes = t.nodes })
        (λ t c. record { own = record (t.own) { connections = c }; nodes = c.nodes }) m

  abbrev on_sensors : {A : Type 0} → Cmd (Datamgr.Store Value) A → Cmd Process A
  on_sensors m = on_own (zoom (λ s. s.sensors) (λ s d. record s { sensors = d }) m)

  -- What `stor_mgr` does after its last attempt.
  unfoldable pub give_up : Option Sbuffer → Cmd Process Ptr
  give_up b = do
    on_connections (free fuel result sv)
    on_sensors (free_sensors F fuel element_of max_temp min_temp l)
    on_nodes (free_all fuel b)
    fail (Fault.exit 1)

  -- `i == 3`, by the attempts that are left after this one.
  abbrev is_last : ℕ → Bool
  is_last zero = true
  is_last (suc k) = false

  -- The loop of `stor_mgr` that connects, with the attempts that are left.
  unfoldable pub connect : (attempts : ℕ) → Option Sbuffer → Cmd Process Ptr
  unfolding give_up
  connect zero b = pure null
  connect (suc k) b = do
    database ← on_storage (on_own (init_connection P S 1))
    let rest = connect k b
    if database == null then (if is_last k then give_up b else rest) else pure database

  -- `stor_mgr`
  unfoldable pub stor_mgr :
      (rounds : ℕ) → (d : SensorData Value) → Option Sbuffer → Cmd Process (Unit {0})
  unfolding connect
  stor_mgr rounds d b = do
    database ← connect 4 b
    on_storage (
        if database == null
        then on_own (report P S server_failed)
        else (do parse_sensor_data P S rounds database d b; on_own (disconnect P S database)))

  -- So many attempts in a row that give NULL.
  pub data Refuses : ℕ → Store P S → Store P S → Type 0 where
    no_attempt : {s : Store P S} → Refuses 0 s s
    attempt :
        {n : ℕ} {s t u : Store P S}
        → init_connection P S 1 s ≡ ok null t
        → Refuses n t u
        → Refuses (suc n) s u

  -- The state of the other managers in which their clean-up comes to an end: no client and no sensor
  -- is left, and the server's socket can be closed.
  pub record AtRest (t : Process) : Type 0 where
    pub no_client : t.own.connections.sock_list.head ≡ null
    pub no_sensor : l.head ≡ null
    pub server : CanStop t.own.connections.clients.net sv
