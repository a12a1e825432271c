-- ===== src/Datamgr.antt =====
-- Project/datamgr.c: the sensors of the room map and their running averages.
-- `temp->last_modified` names a field that `sensor_node_t` does not declare; the model declares it.
-- `dpl_get_element_of_index` is declared nowhere, so it is a parameter. MAX_TEMP and MIN_TEMP are
-- parameters too (the build gives SET_MAX_TEMP and SET_MIN_TEMP). What a message says is kept as an
-- event, its text is not.
pub mod Crash
pub mod Frozen
pub mod Loop
pub mod RoomMap
pub mod Window
mod Tests
use btvnlinux.Prelude.{
  ℕ, zero, suc, ◌+◌, ◌-◌, Bool, true, false, Option, none, some, List, [], ◌∷◌, ◌++◌, ◌==◌, ltb,
  if◌then◌else◌, get_elem?, set, length, replicate,
}
use btvnlinux.Prelude.Int.{ℤ, pos, negsuc, eqb_ℤ}
use btvnlinux.Memory.{
  Ptr, null, Heap, Fault, Cmd, Run, ok, fault, pure, fail, ◌>>=◌, ◌>>◌, object, expect, write, zoom,
  and_then,
}
use btvnlinux.Config.{Doubles, SensorData}
use btvnlinux.Dplist.Defs.{World, world, Dplist, get_index_of_element, size}
use btvnlinux.Dplist.Update.{free_list}

-- RUN_AVG_LENGTH
abbrev pub run_avg_length : ℕ
run_avg_length = 5

-- `sensor_node_t`
pub record SensorNode (V : Type 0) : Type 0 where
  pub room_id : ℕ
  pub sensor : SensorData V
  pub last_modified : ℕ
  pub data_list : List V

-- What the data manager reports, to stderr and through the pipe to the log.
pub data Event : Type 0 where
  invalid_sensor : ℕ → Event
  too_hot : (room sensor : ℕ) → Event
  too_cold : (room sensor : ℕ) → Event
  clean_up : Event

place_copy :
    {V : Type 0}
    → (fresh : Heap (SensorNode V) → Ptr) → SensorNode V
    → Cmd (World (SensorNode V)) Ptr
place_copy fresh n w =
    let p = fresh w.elements in
    if p == null
    then fault Fault.segfault
    else ok p (record w { elements = write w.elements p (some n) })

-- `copy_sensor`: `fresh` is what `malloc` returns, given the elements in use.
unfoldable pub copy_sensor :
    {V : Type 0} → (fresh : Heap (SensorNode V) → Ptr) → Ptr → Cmd (World (SensorNode V)) Ptr
unfolding place_copy
copy_sensor fresh element w = (do n ← expect (object w.elements element); place_copy fresh n) w

-- `free_sensor`; `free(NULL)` does nothing.
pub free_sensor : {V : Type 0} → Ptr → Cmd (World (SensorNode V)) (Unit {0})
free_sensor p w =
    if p == null
    then ok tt w
    else (expect (object w.elements p) >>= λ _ v.
          ok tt (record v { elements = write v.elements p none }))
        w

-- `compare_sensor`: it reads both rooms, and then compares the two pointers.
pub compare_sensor : {V : Type 0} → Ptr → Ptr → Cmd (World (SensorNode V)) ℤ
compare_sensor x y w =
    (do
      id_x ← expect (object w.elements x)
      id_y ← expect (object w.elements y)
      pure (if x == y then pos 0 else negsuc 0))
      w

-- The state of the data manager: the list's nodes and sensors, the identifier that tells the
-- connection manager which sensor to drop, and what has been reported, the last report first.
pub record Store (V : Type 0) : Type 0 where
  pub lists : World (SensorNode V)
  pub stopsig : ℕ
  pub events : List Event

abbrev pub on_lists : {V A : Type 0} → Cmd (World (SensorNode V)) A → Cmd (Store V) A
on_lists m = zoom (λ s. s.lists) (λ s w. record s { lists = w }) m

abbrev pub report : {V : Type 0} → List Event → Cmd (Store V) (Unit {0})
report es s = ok tt (record s { events = es ++ s.events })

module _ (F : Doubles) where
  open F use {Value, zero_value, add, divide, above, is_zero_value}

  -- The search for a slot of `data_list` that holds 0: its index, or RUN_AVG_LENGTH.
  pub free_slot : List Value → ℕ
  free_slot [] = 0
  free_slot (v ∷ vs) = if is_zero_value v then 0 else suc (free_slot vs)

  -- `data_list[i] = data_list[i+1]`
  pub pull : List Value → ℕ → List Value
  pull vs i = elim (get_elem? vs (suc i)) [ none ↦ vs | some v ↦ set vs i v ]

  -- `for (int i = 0; i < (RUN_AVG_LENGTH-1); i++)`, with the rounds that are left.
  pub shift : (rounds i : ℕ) → List Value → List Value
  unfolding pull
  shift zero i vs = vs
  shift (suc r) i vs = shift r (suc i) (pull vs i)

  -- `sum += temp->data_list[i]`
  pub total : Value → List Value → Value
  total sum [] = sum
  total sum (v ∷ vs) = total (add sum v) vs

  -- What the body of the loop over readings does to a sensor's node.
  pub record_reading : SensorNode Value → SensorData Value → SensorNode Value
  unfolding free_slot shift total
  record_reading n r =
      if ltb (free_slot n.data_list) run_avg_length
      then record n {
        last_modified = r.ts;
        data_list = set n.data_list (free_slot n.data_list) r.value;
      }
      else let window = shift (run_avg_length - 1) 0 n.data_list in
        record n {
          last_modified = r.ts;
          data_list = window;
          sensor = record (n.sensor) { value = divide (total zero_value window) run_avg_length };
        }

  -- The reports that go with it: only a full window is judged.
  pub judge : (max_temp min_temp : Value) → SensorNode Value → List Event
  judge max_temp min_temp n =
      if above n.sensor.value max_temp
      then too_hot n.room_id n.sensor.id ∷ []
      else if above min_temp n.sensor.value
      then too_cold n.room_id n.sensor.id ∷ []
      else []

  abbrev pub Nodes : Type 0
  Nodes = World (SensorNode Value)

  pub load_sensor : Ptr → Cmd Nodes (SensorNode Value)
  load_sensor p w = expect (object w.elements p) w

  pub store_sensor : Ptr → SensorNode Value → Cmd Nodes (Unit {0})
  store_sensor p n w = ok tt (record w { elements = write w.elements p (some n) })

  module _ (fuel : ℕ) (element_of : Dplist (SensorNode Value) → ℤ → Cmd Nodes Ptr)
      (max_temp min_temp : Value) (l : Dplist (SensorNode Value)) where
    -- A reading of a sensor that has been found at `p`.
    pub handle_known : SensorData Value → Ptr → Cmd (Store Value) (Unit {0})
    unfolding load_sensor store_sensor record_reading judge
    handle_known r p = do
      n ← on_lists (load_sensor p)
      on_lists (store_sensor p (record_reading n r))
      report (
          if ltb (free_slot n.data_list) run_avg_length
          then []
          else judge max_temp min_temp (record_reading n r))

    -- The body of the loop over readings in `datamgr_parse_sensor_files`. The identifier itself is
    -- passed to the list as the pointer to an element. The mutex that is locked around the
    -- assignment to the stop signal is not in this manager's state.
    pub handle_reading : SensorData Value → Cmd (Store Value) (Unit {0})
    unfolding handle_known
    handle_reading r = do
      i ← on_lists (get_index_of_element fuel (some l) r.id)
      if eqb_ℤ i (negsuc 0)
          then (do report (invalid_sensor r.id ∷ []); λ s. ok tt (record s { stopsig = r.id }))
          else (do p ← on_lists (element_of l i); handle_known r p)

    -- The node that the three getters read.
    pub find_sensor : ℕ → Cmd Nodes (SensorNode Value)
    unfolding load_sensor
    find_sensor sensor_id = do
      i ← get_index_of_element fuel (some l) sensor_id
      p ← element_of l i
      load_sensor p

    -- `datamgr_get_room_id`, `datamgr_get_avg` and `datamgr_get_last_modified`. Their test
    -- `temp == NULL` is of a local structure, and is taken to fail.
    unfoldable pub get_room_id : ℕ → Cmd Nodes ℕ
    unfolding find_sensor
    get_room_id sensor_id = do n ← find_sensor sensor_id; pure n.room_id

    unfoldable pub get_avg : ℕ → Cmd Nodes Value
    unfolding find_sensor
    get_avg sensor_id = do n ← find_sensor sensor_id; pure n.sensor.value

    unfoldable pub get_last_modified : ℕ → Cmd Nodes ℕ
    unfolding find_sensor
    get_last_modified sensor_id = do n ← find_sensor sensor_id; pure n.sensor.ts

    -- `datamgr_get_total_sensors`
    unfoldable pub get_total_sensors : Cmd Nodes ℕ
    get_total_sensors = size fuel (some l)

    -- `datamgr_free`
    unfoldable pub free_sensors : Cmd (Store Value) (Option (Dplist (SensorNode Value)))
    free_sensors = do l' ← on_lists (free_list fuel (some l) true); report (clean_up ∷ []); pure l'
