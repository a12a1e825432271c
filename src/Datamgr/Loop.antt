-- ===== src/Datamgr/Loop.antt =====
-- Project/datamgr.c: `datamgr_parse_sensor_files` as a whole, the room map first and then the loop
-- over the readings of the shared buffer.
use btvnlinux.Prelude.{ℕ, suc, ◌<◌, ◌≡◌, Option, none, some, List, ◌∷◌}
use btvnlinux.Prelude.Int.{ℤ}
use btvnlinux.Memory.{Ptr, Heap, fault, Fault, Cmd, fail, pure, ◌>>=◌, ◌>>◌}
use btvnlinux.Memory.Cells.{Cells}
use btvnlinux.Memory.Returns
use btvnlinux.Memory.Returns.{NeverReturns}
use btvnlinux.Config.{Doubles, SensorData}
use btvnlinux.Dplist.Defs.{World, Dplist, create}
use btvnlinux.Dplist.Chain.{IsList}
use btvnlinux.Sbuffer.{Sbuffer}
use btvnlinux.Sbuffer.Consumer.{Thread, on_own, consume, consume-first, consume-NeverReturns}
use btvnlinux.Sbuffer.Queue.{IsBuffer}
use btvnlinux.Datamgr.{
  SensorNode, Store, on_lists, copy_sensor, free_sensor, compare_sensor, handle_reading,
}
use btvnlinux.Datamgr.Crash.{handle_reading-crash}
use btvnlinux.Datamgr.RoomMap.{Line, load_rooms}

module _ (F : Doubles) (fuel : ℕ)
    (element_of : Dplist (SensorNode F.Value) → ℤ → Cmd (World (SensorNode F.Value)) Ptr)
    (max_temp min_temp : F.Value) where
  open F use {Value}

  -- The loop over the readings. The local `tempnode.sensor` is uninitialised: `d` is what it
  -- happens to hold.
  unfoldable pub parse_readings :
      Dplist (SensorNode Value)
      → (rounds : ℕ) → (d : SensorData Value) → Option Sbuffer
      → Cmd (Thread (SensorData Value) (Store Value)) (Unit {0})
  parse_readings l rounds d b =
      consume (handle_reading F fuel element_of max_temp min_temp l) rounds d b

  -- `ERROR_HANDLER(fp_sensor_map == NULL, ...)`
  abbrev opened_map : {S : Type 0} → Option (List Line) → Cmd S (List Line)
  opened_map none = fail (Fault.exit 1)
  opened_map (some xs) = pure xs

  -- `datamgr_parse_sensor_files`, given the lines of the map, none for a NULL file; it returns the
  -- list, which the source keeps in a static variable. `block` is what
  -- `malloc` returns for the list, `fresh` for a sensor, and `local` the address of `node`.
  unfoldable pub parse_sensor_files :
      (block : Ptr)
      → (fresh : Heap (SensorNode Value) → Ptr) → (local : Ptr) → Option (List Line)
      → (rounds : ℕ) → (d : SensorData Value) → Option Sbuffer
      → Cmd (Thread (SensorData Value) (Store Value)) (Dplist (SensorNode Value))
  unfolding parse_readings
  parse_sensor_files block fresh local map rounds d b = do
    l ← on_own (on_lists (create block (copy_sensor fresh) free_sensor compare_sensor))
    xs ← opened_map map
    l' ← on_own (on_lists (load_rooms F fuel local xs l))
    parse_readings l' rounds d b
    pure l'

  parse_readings-NeverReturns :
      (l : Dplist (SensorNode Value)) (rounds : ℕ) (t : Thread (SensorData Value) (Store Value))
      (d : SensorData Value) (b : Sbuffer) (cs : Cells (SensorData Value))
      → IsBuffer t.nodes b cs
      → NeverReturns (parse_readings l rounds d (some b) t)
  unfolding parse_readings
  parse_readings-NeverReturns l rounds t d b cs is =
      consume-NeverReturns (handle_reading F fuel element_of max_temp min_temp l) rounds t d b cs is

  -- Over a buffer that is linked as it should be `datamgr_parse_sensor_files` never returns,
  -- whatever the map holds and however much fuel its loops have: the condition of its second loop,
  -- that the buffer is not NULL, stays true.
  pub parse_sensor_files-NeverReturns :
      (block : Ptr) (fresh : Heap (SensorNode Value) → Ptr) (local : Ptr) (map : Option (List Line))
      (rounds : ℕ) (t : Thread (SensorData Value) (Store Value)) (d : SensorData Value)
      (b : Sbuffer) (cs : Cells (SensorData Value))
      → IsBuffer t.nodes b cs
      → NeverReturns (parse_sensor_files block fresh local map rounds d (some b) t)
  unfolding parse_sensor_files
  parse_sensor_files-NeverReturns block fresh local none rounds t d b cs is =
      Returns.never_resume _
        (on_lists (create block (copy_sensor fresh) free_sensor compare_sensor) t.own) _ λ l s. tt
  parse_sensor_files-NeverReturns block fresh local (some xs) rounds t d b cs is =
      Returns.never_resume _
        (on_lists (create block (copy_sensor fresh) free_sensor compare_sensor) t.own) _
        λ l s. Returns.never_resume _ (on_lists (load_rooms F fuel local xs l) s) _ λ l' u.
          Returns.never_first
            (parse_readings l' rounds d (some b) (record { own = u; nodes = t.nodes })) _
            (parse_readings-NeverReturns l' rounds (record { own = u; nodes = t.nodes }) d b cs is)

  -- The first reading whose identifier is not the address of a sensor's node ends the program with
  -- a fault, whenever the list of sensors is not empty.
  pub parse_readings-crash :
      (l : Dplist (SensorNode Value)) (k : ℕ) (t : Thread (SensorData Value) (Store Value))
      (d r : SensorData Value) (b : Sbuffer) (x : Ptr) (cs : Cells (SensorData Value)) (a e : Ptr)
      (ds : Cells Ptr)
      → IsBuffer t.nodes b ((x, r) ∷ cs)
      → 0 < fuel
      → l.element_compare ≡ compare_sensor
      → IsList t.own.lists l ((a, e) ∷ ds)
      → t.own.lists.elements r.id ≡ none
      → parse_readings l (suc k) d (some b) t ≡ fault Fault.segfault
  unfolding parse_readings
  parse_readings-crash l k t d r b x cs a e ds is lt ce list un =
      consume-first _ k t x d r b cs Fault.segfault is
        (handle_reading-crash F fuel element_of max_temp min_temp l t.own r a e ds lt ce list un)
