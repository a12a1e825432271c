-- ===== src/Datamgr/Tests.antt =====
-- The data manager on small inputs, and its theorems at them. A value is a natural number.
use btvnlinux.Prelude.{
  ◌++◌, ℕ, ◌+◌, ◌≡◌, refl, none, some, List, [], ◌∷◌, arith, ltb, ◌==◌, replicate,
}
use btvnlinux.Prelude.Int.{ℤ}
use btvnlinux.Memory.{ok, Cmd, Heap, Ptr, fault, Fault, fail, pure, write}
use btvnlinux.Memory.Cells.{Cells}
use btvnlinux.Config.{Doubles, SensorData}
use btvnlinux.Dplist.Defs.{node, World, world, Dplist}
use btvnlinux.Dplist.Chain.{IsList}
use btvnlinux.Datamgr.{SensorNode, Store, run_avg_length, compare_sensor, free_sensor}
use btvnlinux.Memory.Returns.{Returns}
use btvnlinux.Datamgr.{copy_sensor}
use btvnlinux.Datamgr.RoomMap.{Line, Holds, loaded, load_rooms, load_rooms-loaded}
use btvnlinux.Datamgr.Frozen.{Frozen, verdict, repeated, handle_all, handle_all-Frozen}
use btvnlinux.Datamgr.Window.{record_all, frozen_average, record_all-frozen}
use btvnlinux.Sbuffer
use btvnlinux.Sbuffer.Consumer.{Thread}
use btvnlinux.Sbuffer.Queue.{IsBuffer}
use btvnlinux.Datamgr.Loop.{parse_readings, parse_readings-crash}

abbrev numbers : Doubles
numbers = record {
  Value = ℕ;
  zero_value = 0;
  add = λ a b. a + b;
  divide = λ a n. a;
  above = λ a b. ltb b a;
  is_zero_value = λ a. a == 0;
}

abbrev reading : ℕ → ℕ → SensorData ℕ
reading v t = record { id = 15; value = v; ts = t }

abbrev sensor_with : List ℕ → SensorNode ℕ
sensor_with vs = record { room_id = 1; sensor = reading 0 0; last_modified = 0; data_list = vs }

abbrev first_three : List (SensorData ℕ)
first_three = reading 20 1 ∷ reading 21 2 ∷ reading 22 3 ∷ []

-- Five readings are held, and then come four of 90 and one of 70.
record_all-frozen_example :
    ((record_all numbers
        (sensor_with (1 ∷ 2 ∷ 3 ∷ 4 ∷ 5 ∷ []))
        (reading 90 1 ∷ reading 90 2 ∷ reading 90 3 ∷ reading 90 4 ∷ reading 70 5 ∷ [])).data_list
      ≡ replicate run_avg_length 5)
    × ((record_all numbers (sensor_with (1 ∷ 2 ∷ 3 ∷ 4 ∷ 5 ∷ [])) (
          reading 90 1
          ∷ reading 90 2
          ∷ reading 90 3
          ∷ reading 90 4
          ∷ reading 70 5
          ∷ [])).sensor.value
        ≡ frozen_average numbers 5)
record_all-frozen_example =
    record_all-frozen numbers (sensor_with (1 ∷ 2 ∷ 3 ∷ 4 ∷ 5 ∷ [])) 1 2 3 4 5 (reading 90 1)
      (reading 90 2) (reading 90 3) (reading 90 4) (reading 70 5 ∷ []) refl
      (refl, (refl, (refl, (refl, (refl, tt)))))

-- A list with `head` as its first node.
abbrev list_at : Ptr → Dplist (SensorNode ℕ)
list_at p = record {
  head = p;
  element_copy = λ e. pure e;
  element_free = free_sensor;
  element_compare = compare_sensor;
}

-- The node 30 holds the sensor at 100.
abbrev lists : World (SensorNode ℕ)
lists =
    world (write (λ b. none) 30 (some (node 0 0 100)))
      (write (λ b. none) 100 (some (sensor_with (0 ∷ 0 ∷ 0 ∷ 0 ∷ 0 ∷ []))))

abbrev store : World (SensorNode ℕ) → Store ℕ
store w = record { lists = w; stopsig = 0; events = [] }

abbrev cells : Cells Ptr
cells = (30, 100) ∷ []

cells-IsList : IsList lists (list_at 30) cells
cells-IsList = record { head = refl; linked = (omega arith, refl, tt); apart = (refl, tt) }

abbrev empty : World (SensorNode ℕ)
empty = world (λ b. none) (λ b. none)

empty-IsList : IsList empty (list_at 0) []
empty-IsList = record { head = refl; linked = tt; apart = tt }

-- Two lines: sensor 15 is in room 1, and sensor 21 in room 2.
abbrev two_lines : List Line
two_lines =
    record {
      block = record { address = 30; garbage = node 7 7 7 };
      room = 1;
      sensor_id = 15;
      stale = 0;
    }
    ∷ record {
      block = record { address = 40; garbage = node 7 7 7 };
      room = 2;
      sensor_id = 21;
      stale = 0;
    }
    ∷ []

-- The address 100 if it is free, and 101 if not.
abbrev fresh_sensor : Heap (SensorNode ℕ) → Ptr
fresh_sensor els = elim (els 100) [ none ↦ 100 | some n ↦ 101 ]

abbrev copying : Dplist (SensorNode ℕ)
copying = record (list_at 0) { element_copy = copy_sensor fresh_sensor }

copying-IsList : IsList empty copying []
copying-IsList = record { head = refl; linked = tt; apart = tt }

load_rooms-loaded_example :
    Returns
      (λ l' v.
        (ds : Cells Ptr) × IsList v l' ds
        × Holds numbers 60 fresh_sensor
            (omega arith)
            v.elements
            ds
            (loaded numbers 60 fresh_sensor (omega arith) two_lines []))
      (load_rooms numbers 9 60 two_lines copying empty)
load_rooms-loaded_example =
    load_rooms-loaded numbers 60 fresh_sensor (omega arith) 9 two_lines empty copying [] [] refl
      refl (omega arith)
      (omega arith, refl, omega arith, refl, (omega arith, refl, omega arith, refl, tt))
      (λ a o. refl) copying-IsList tt

-- One reading in the shared buffer, in the node 8; its sensor is 15, and no sensor's node stands
-- there.
abbrev queue : Heap (Sbuffer.Node (SensorData ℕ))
queue = write (λ a. none) 8 (some (Sbuffer.node 0 (reading 20 1)))

abbrev queued : Cells (SensorData ℕ)
queued = (8, reading 20 1) ∷ []

queued-IsBuffer : IsBuffer queue (Sbuffer.sbuffer 8 8) queued
queued-IsBuffer = record {
  head = refl;
  tail = refl;
  chain = (omega arith, refl, refl, tt);
  owned = ground arith;
}

abbrev thread : World (SensorNode ℕ) → Thread (SensorData ℕ) (Store ℕ)
thread w = record { own = store w; nodes = queue }

parse_readings-crash_example :
    parse_readings numbers 9
      (λ l i. fail Fault.segfault)
      25
      10
      (list_at 30)
      3
      (reading 0 0)
      (some (Sbuffer.sbuffer 8 8))
      (thread lists)
    ≡ fault Fault.segfault
parse_readings-crash_example =
    parse_readings-crash numbers 9 (λ l i. fail Fault.segfault) 25 10 (list_at 30) 2 (thread lists)
      (reading 0 0) (reading 20 1) (Sbuffer.sbuffer 8 8) 8 [] 30 100 [] queued-IsBuffer
      (omega arith) refl cells-IsList refl

-- The sensor at 100 has 26 in every slot of its window; more than 25 is too hot.
abbrev hot : SensorNode ℕ
hot =
    let n = sensor_with (26 ∷ 26 ∷ 26 ∷ 26 ∷ 26 ∷ []) in
    record n { sensor = record (n.sensor) { value = frozen_average numbers 26 } }

abbrev hot_store : Store ℕ
hot_store = store (world (λ a. none) (write (λ b. none) 100 (some hot)))

-- Every search ends at 100.
abbrev found_at : Dplist (SensorNode ℕ) → ℤ → Cmd (World (SensorNode ℕ)) Ptr
found_at l i w = ok 100 w

hot-Frozen : Frozen numbers 9 found_at 25 10 (list_at 30) 100 hot.room_id hot.sensor.id 26 hot_store
hot-Frozen = record {
  node = hot;
  stored = refl;
  window = refl;
  average = refl;
  of_room = refl;
  of_sensor = refl;
}

handle_all-Frozen_example :
    Returns
      (λ u t.
        Frozen numbers 9 found_at 25 10 (list_at 30) 100 hot.room_id hot.sensor.id 26 t
        × (t.events
            ≡ repeated 2
                (verdict numbers 25 10 hot.room_id hot.sensor.id (frozen_average numbers 26))
              ++ []))
      (handle_all numbers 9 found_at 25 10
        (list_at 30)
        (reading 20 1 ∷ reading 15 2 ∷ [])
        100
        hot_store)
handle_all-Frozen_example =
    handle_all-Frozen numbers 9 found_at 25 10 (list_at 30) (reading 20 1 ∷ reading 15 2 ∷ []) 100
      hot.room_id hot.sensor.id 26 hot_store (omega arith) refl hot-Frozen
