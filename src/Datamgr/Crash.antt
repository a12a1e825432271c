-- ===== src/Datamgr/Crash.antt =====
-- What becomes of a reading: the sensor's identifier is used as the address of an element.
use btvnlinux.Prelude.{
  ℕ, zero, suc, ◌<◌, ◌≡◌, ◌≢◌, true, none, some, [], ◌∷◌, arith, ◌==◌, ==_false,
}
use btvnlinux.Prelude.Int.{ℤ}
use btvnlinux.Memory.{Ptr, null, ok, fault, Fault, Cmd}
use btvnlinux.Memory.Cells.{Cells, first_or}
use btvnlinux.Config.{Doubles, SensorData}
use btvnlinux.Dplist.Defs.{World, Dplist, node, find_index, get_index_of_element}
use btvnlinux.Dplist.Chain.{IsList, load-ok}
use btvnlinux.Datamgr.{SensorNode, invalid_sensor, Store, compare_sensor, handle_reading}

module _ (F : Doubles) where
  open F use {Value}

  -- Comparing through the address of no sensor faults.
  compare_sensor-dangling :
      (w : World (SensorNode Value)) (x y : Ptr)
      → w.elements x ≡ none
      → compare_sensor x y w ≡ fault Fault.segfault
  unfolding compare_sensor
  compare_sensor-dangling w x y e = ground arith

  -- The search for an element at the address of no sensor faults on every nonempty list.
  get_index-dangling :
      (w : World (SensorNode Value)) (fuel : ℕ) (l : Dplist (SensorNode Value)) (x a e : Ptr)
      (cs : Cells Ptr)
      → 0 < fuel
      → l.element_compare ≡ compare_sensor
      → IsList w l ((a, e) ∷ cs)
      → w.elements x ≡ none
      → get_index_of_element fuel (some l) x w ≡ fault Fault.segfault
  unfolding get_index_of_element find_index
  get_index-dangling w zero l x a e cs lt ce is un = absurd (omega arith)
  get_index-dangling w (suc k) l x a e cs lt ce is un =
      let ne : l.head ≢ null = rw is.head is.linked.0 in
      let at : w.nodes l.head ≡ some (node null (first_or null cs) e) = rw is.head is.linked.1 in
      rw (==_false ne, load-ok w l.head _ ne at, ce, compare_sensor-dangling w x e un)

  module _ (fuel : ℕ)
      (element_of : Dplist (SensorNode Value) → ℤ → Cmd (World (SensorNode Value)) Ptr)
      (max_temp min_temp : Value) (l : Dplist (SensorNode Value)) where
    -- A reading whose identifier is not the address of a sensor's node ends the program with a
    -- fault, whenever the list of sensors is not empty and compares its elements by `compare_sensor`.
    pub handle_reading-crash :
        (s : Store Value) (r : SensorData Value) (a e : Ptr) (cs : Cells Ptr)
        → 0 < fuel
        → l.element_compare ≡ compare_sensor
        → IsList s.lists l ((a, e) ∷ cs)
        → s.lists.elements r.id ≡ none
        → handle_reading F fuel element_of max_temp min_temp l r s ≡ fault Fault.segfault
    unfolding handle_reading
    handle_reading-crash s r a e cs lt ce is un =
        rw (get_index-dangling s.lists fuel l r.id a e cs lt ce is un)

    -- On an empty list of sensors every reading is reported as that of an invalid sensor, its
    -- identifier is left in `stopsig`, and nothing else changes.
    pub handle_reading-empty :
        (s : Store Value) (r : SensorData Value)
        → IsList s.lists l []
        → handle_reading F fuel element_of max_temp min_temp l r s
          ≡ ok tt (record s { stopsig = r.id; events = invalid_sensor r.id ∷ s.events })
    unfolding handle_reading get_index_of_element
    handle_reading-empty s r is = let nil : (l.head == null) ≡ true = rw is.head in rw nil
