-- ===== src/Gateway/Threads.antt =====
-- Project/main.c: the thread of the data manager, `data_mgr`.
use btvnlinux.Prelude.{ℕ, Option, none, some, List}
use btvnlinux.Prelude.Int.{ℤ}
use btvnlinux.Memory.{Ptr, Heap, Fault, Cmd, fail, pure, ◌>>=◌, ◌>>◌}
use btvnlinux.Memory.Cells.{Cells}
use btvnlinux.Memory.Returns
use btvnlinux.Memory.Returns.{Returns, returns, NeverReturns}
use btvnlinux.Config.{Doubles, SensorData}
use btvnlinux.Dplist.Defs.{World, Dplist}
use btvnlinux.Sbuffer.{Sbuffer}
use btvnlinux.Sbuffer.Consumer.{Thread, on_own}
use btvnlinux.Sbuffer.Queue.{IsBuffer}
use btvnlinux.Datamgr
use btvnlinux.Datamgr.{SensorNode, free_sensors}
use btvnlinux.Datamgr.RoomMap.{Line}
use btvnlinux.Datamgr.Loop.{parse_sensor_files, parse_sensor_files-NeverReturns}

module _ (F : Doubles) (fuel : ℕ)
    (element_of : Dplist (SensorNode F.Value) → ℤ → Cmd (World (SensorNode F.Value)) Ptr)
    (max_temp min_temp : F.Value) where
  open F use {Value}

  -- `data_mgr`: `map` is none where the room map cannot be opened.
  unfoldable pub data_mgr :
      (block : Ptr)
      → (fresh : Heap (SensorNode Value) → Ptr) → (local : Ptr) → (map : Option (List Line))
      → (rounds : ℕ) → (d : SensorData Value) → Option Sbuffer
      → Cmd (Thread (SensorData Value) (Datamgr.Store Value)) (Unit {0})
  data_mgr block fresh local none rounds d b = fail (Fault.exit 1)
  data_mgr block fresh local (some xs) rounds d b = do
    l ←
        parse_sensor_files F fuel element_of max_temp min_temp block fresh local (some xs) rounds d
          b
    on_own (free_sensors F fuel element_of max_temp min_temp l)
    pure tt

  -- The thread never gets to the end of its function, where it would free the sensors.
  pub data_mgr-NeverReturns :
      (block : Ptr) (fresh : Heap (SensorNode Value) → Ptr) (local : Ptr) (map : Option (List Line))
      (rounds : ℕ) (t : Thread (SensorData Value) (Datamgr.Store Value)) (d : SensorData Value)
      (b : Sbuffer) (cs : Cells (SensorData Value))
      → IsBuffer t.nodes b cs
      → NeverReturns (data_mgr block fresh local map rounds d (some b) t)
  unfolding data_mgr
  data_mgr-NeverReturns block fresh local none rounds t d b cs is = tt
  data_mgr-NeverReturns block fresh local (some xs) rounds t d b cs is = Returns.never_first _ _ (
      parse_sensor_files-NeverReturns F fuel element_of max_temp min_temp block fresh local
        (some xs) rounds t d b cs is)
