-- ===== src/FileCreator.antt =====
-- Project/file_creator.c: the program that writes a room map and a file of readings for tests.
-- Built with DEBUG, as the Makefile does. The map is kept as its lines, a room and a sensor each; what adding a random
-- change to a temperature gives is a parameter.
pub mod Recorded
mod Tests
use btvnlinux.Prelude.{
  ℕ, zero, suc, ◌+◌, Bool, true, false, Option, none, some, List, [], ◌∷◌, ◌++◌, if◌then◌else◌,
}
use btvnlinux.Memory.Binary.{Binary, u16_binary}

-- NUM_MEASUREMENTS and SLEEP_TIME
abbrev pub num_measurements : ℕ
num_measurements = 100

abbrev pub sleep_time : ℕ
sleep_time = 30

-- `room_id` and `sensor_id`
abbrev pub room_ids : List ℕ
room_ids = 1 ∷ 2 ∷ 3 ∷ 4 ∷ 11 ∷ 12 ∷ 13 ∷ 14 ∷ []

abbrev pub sensor_ids : List ℕ
sensor_ids = 15 ∷ 21 ∷ 37 ∷ 49 ∷ 112 ∷ 129 ∷ 132 ∷ 142 ∷ []

-- The loop that writes the map: `room_id[i]` and `sensor_id[i]`.
abbrev pub map_lines : List ℕ → List ℕ → List (ℕ × ℕ)
map_lines [] ss = []
map_lines (r ∷ rs) [] = []
map_lines (r ∷ rs) (s ∷ ss) = (r, s) ∷ map_lines rs ss

-- `sensor_id` and `sensor_temperature`
abbrev pub sensors : {V : Type 0} → List ℕ → List V → List (ℕ × V)
sensors [] vs = []
sensors (s ∷ ss) [] = []
sensors (s ∷ ss) (v ∷ vs) = (s, v) ∷ sensors ss vs

-- The two files of readings: the bytes of `sensor_data`, and the lines of `sensor_data_text`, which
-- have an identifier, a temperature and a time.
pub record Output (V : Type 0) : Type 0 where
  pub bytes : List ℕ
  pub text : List (ℕ × V × ℕ)

-- What the program leaves: the map and the files of readings, none for what could not be opened, and
-- the status that it ends with. `output` is the empty one where only `sensor_data` could be opened.
pub record Files (V : Type 0) : Type 0 where
  pub room_map : Option (List (ℕ × ℕ))
  pub output : Option (Output V)
  pub status : ℕ

module _ {V : Type 0} (values : Binary V) (times : Binary ℕ) (change : (i j : ℕ) → V → V) where
  -- The body of the inner loop: a sensor's reading goes to the end of both files.
  abbrev pub write_reading : (id : ℕ) → V → (starttime : ℕ) → Output V → Output V
  write_reading id v starttime o = record {
    bytes = o.bytes ++ (u16_binary.encode id ++ (values.encode v ++ times.encode starttime));
    text = o.text ++ (id, v, starttime) ∷ [];
  }

  -- The inner loop: every sensor's reading is written, and its temperature changes. A sensor is its
  -- identifier and its temperature.
  unfoldable pub write_sensors :
      (i j starttime : ℕ) → List (ℕ × V) → Output V → List (ℕ × V) × Output V
  write_sensors i j starttime [] o = ([], o)
  write_sensors i j starttime ((id, v) ∷ ss) o =
      let (ss', o') = write_sensors i (suc j) starttime ss (write_reading id v starttime o) in
      ((id, change i j v) ∷ ss', o')

  -- The outer loop, with the measurements that are left.
  unfoldable pub write_measurements : (rounds i starttime : ℕ) → List (ℕ × V) → Output V → Output V
  unfolding write_sensors
  write_measurements zero i starttime ss o = o
  write_measurements (suc n) i starttime ss o =
      let (ss', o') = write_sensors i 0 starttime ss o in
      write_measurements n (suc i) (starttime + sleep_time) ss' o'

  -- `main`, where `map_open`, `data_open` and `text_open` tell whether `fopen` succeeds and
  -- `temperatures` are the starting ones.
  unfoldable pub create_files :
      (map_open data_open text_open : Bool) → (starttime : ℕ) → (temperatures : List V) → Files V
  unfolding write_measurements
  create_files false data_open text_open starttime temperatures = record {
    room_map = none;
    output = none;
    status = 1;
  }
  create_files true false text_open starttime temperatures = record {
    room_map = some (map_lines room_ids sensor_ids);
    output = none;
    status = 1;
  }
  create_files true true false starttime temperatures = record {
    room_map = some (map_lines room_ids sensor_ids);
    output = some (record { bytes = []; text = [] });
    status = 1;
  }
  create_files true true true starttime temperatures = record {
    room_map = some (map_lines room_ids sensor_ids);
    output = some (
        write_measurements num_measurements 0 starttime (sensors sensor_ids temperatures)
          (record { bytes = []; text = [] }));
    status = 0;
  }
