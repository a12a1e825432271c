-- ===== src/Datamgr/Frozen.antt =====
-- What the data manager reports of a sensor whose window is frozen.
use btvnlinux.Prelude.{
  ℕ, zero, suc, ◌≡◌, refl, ◌∙◌, ap, sym, ◌≢◌, false, some, List, [], ◌∷◌, ◌++◌, length, replicate,
  append_assoc, ==_false, if◌then◌else◌,
}
use btvnlinux.Prelude.Int.{ℤ}
use btvnlinux.Memory.{Ptr, null, write, Cmd, ok, pure, ◌>>◌}
use btvnlinux.Memory.Cells.{write_self}
use btvnlinux.Memory.Returns
use btvnlinux.Memory.Returns.{Returns, returns}
use btvnlinux.Config.{Doubles, SensorData}
use btvnlinux.Dplist.Defs.{World, Dplist}
use btvnlinux.Datamgr.{
  run_avg_length, SensorNode, Store, Event, too_hot, too_cold, free_slot, record_reading, judge,
  handle_known, load_sensor, store_sensor,
}
use btvnlinux.Datamgr.Window.{
  AllNonzero, free_slot-full, record_reading-full, record_reading-keeps, frozen_average,
}

-- The same report so many times over.
abbrev pub repeated : ℕ → List Event → List Event
repeated zero es = []
repeated (suc k) es = repeated k es ++ es

module _ (F : Doubles) (max_temp min_temp : F.Value) where
  -- What is reported of an average.
  abbrev pub verdict : (room id : ℕ) → F.Value → List Event
  verdict room id v =
      if F.above v max_temp
      then too_hot room id ∷ []
      else if F.above min_temp v
      then too_cold room id ∷ []
      else []

module _ (F : Doubles) (fuel : ℕ)
    (element_of : Dplist (SensorNode F.Value) → ℤ → Cmd (World (SensorNode F.Value)) Ptr)
    (max_temp min_temp : F.Value) (l : Dplist (SensorNode F.Value)) where
  open F use {Value, zero_value, add, divide, above, is_zero_value}

  -- The loop of the data manager over readings of a sensor that is found at `p`.
  pub handle_all : List (SensorData Value) → Ptr → Cmd (Store Value) (Unit {0})
  handle_all [] p = pure tt
  handle_all (r ∷ rs) p = do handle_known F fuel element_of max_temp min_temp l r p; handle_all rs p

  -- The sensor of `room` at `p`, with `e` in every slot of its window.
  pub record Frozen (p : Ptr) (room id : ℕ) (e : Value) (s : Store Value) : Type 0 where
    pub node : SensorNode Value
    pub stored : s.lists.elements p ≡ some node
    pub window : node.data_list ≡ replicate run_avg_length e
    pub average : node.sensor.value ≡ frozen_average F e
    pub of_room : node.room_id ≡ room
    pub of_sensor : node.sensor.id ≡ id

  judge-verdict :
      (n : SensorNode Value) (room id : ℕ) (v : Value)
      → n.room_id ≡ room
      → n.sensor.id ≡ id
      → n.sensor.value ≡ v
      → judge F max_temp min_temp n ≡ verdict F max_temp min_temp room id v
  unfolding judge
  judge-verdict n room id v er ei ev = rw (er, ei, ev) refl

  -- A reading of a sensor whose window is full.
  handle_known-full :
      (r : SensorData Value) (p : Ptr) (n : SensorNode Value) (s : Store Value)
      → p ≢ null
      → s.lists.elements p ≡ some n
      → free_slot F n.data_list ≡ 5
      → handle_known F fuel element_of max_temp min_temp l r p s
        ≡ ok tt (record s {
          lists = record (s.lists) {
            elements = write s.lists.elements p (some (record_reading F n r));
          };
          events = judge F max_temp min_temp (record_reading F n r) ++ s.events;
        })
  unfolding handle_known load_sensor store_sensor
  handle_known-full r p n s ne stored slot = rw (==_false ne, stored, slot) refl

  handle_known-Frozen :
      (r : SensorData Value) (p : Ptr) (room id : ℕ) (e : Value) (s : Store Value)
      → p ≢ null
      → is_zero_value e ≡ false
      → Frozen p room id e s
      → Returns
          (λ u t.
            Frozen p room id e t
            × (t.events ≡ verdict F max_temp min_temp room id (frozen_average F e) ++ s.events))
          (handle_known F fuel element_of max_temp min_temp l r p s)
  handle_known-Frozen r p room id e s ne h z =
      let n = z.node in
      let all : AllNonzero F (e ∷ e ∷ e ∷ e ∷ e ∷ []) = (h, (h, (h, (h, (h, tt))))) in
      let slot : free_slot F n.data_list ≡ 5 =
        rw z.window (free_slot-full F (replicate run_avg_length e) all) in
      let (window, average) = record_reading-full F n r e e e e e z.window all in
      let (same_ts, same_id, same_room, now) = record_reading-keeps F n r in
      rw (handle_known-full r p n s ne z.stored slot) (
        returns (
          record {
            node = record_reading F n r;
            stored = write_self s.lists.elements p (some (record_reading F n r));
            window = window;
            average = average;
            of_room = same_room ∙ z.of_room;
            of_sensor = same_id ∙ z.of_sensor;
          },
          ap (λ es. es ++ s.events)
              (judge-verdict (record_reading F n r) room id (frozen_average F e)
                (same_room ∙ z.of_room) (same_id ∙ z.of_sensor) average),
        ))

  -- Once the window of a sensor holds one value in every slot, the data manager reports the same of
  -- it for every reading of it, whatever is read: too hot, too cold or nothing, by the average of
  -- that value. The conditions are that the value is not 0, that the sensor holds that average, and
  -- that it is found.
  pub handle_all-Frozen :
      (rs : List (SensorData Value)) (p : Ptr) (room id : ℕ) (e : Value) (s : Store Value)
      → p ≢ null
      → is_zero_value e ≡ false
      → Frozen p room id e s
      → Returns
          (λ u t.
            Frozen p room id e t
            × (t.events
                ≡ repeated (length rs) (verdict F max_temp min_temp room id (frozen_average F e))
                  ++ s.events))
          (handle_all rs p s)
  unfolding handle_all
  handle_all-Frozen [] p room id e s ne h z = returns (z, refl)
  handle_all-Frozen (r ∷ rs) p room id e s ne h z =
      Returns.bind (handle_known-Frozen r p room id e s ne h z) λ u t (z1, told).
        Returns.mono (handle_all-Frozen rs p room id e t ne h z1) λ x v (z2, more).
          let told_again =
            repeated (length rs) (verdict F max_temp min_temp room id (frozen_average F e)) in
          (
            z2,
            more
                ∙ ap (λ es. told_again ++ es) told
                ∙ sym (
                    append_assoc told_again
                      (verdict F max_temp min_temp room id (frozen_average F e)) s.events),
          )
