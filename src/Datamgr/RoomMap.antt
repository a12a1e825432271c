-- ===== src/Datamgr/RoomMap.antt =====
-- Project/datamgr.c: the first loop of `datamgr_parse_sensor_files`, which reads the room map into
-- the list of sensors.
use btvnlinux.Prelude.{
  ℕ, ◌+◌, ◌<◌, ◌≡◌, refl, sym, ◌∙◌, ◌≢◌, true, none, some, List, [], ◌∷◌, arith, length, replicate,
}
use btvnlinux.Prelude.Int.{ℤ, negsuc}
use btvnlinux.Memory.{Ptr, null, Heap, ok, pure, Cmd, ◌>>=◌, ◌>>◌, write}
use btvnlinux.Memory.Cells.{Cells, ◌∉◌, not-mem-tail, write_self}
use mathlib.Core.Path.{subst}
use btvnlinux.Memory.Returns
use btvnlinux.Memory.Returns.{Returns, returns}
use btvnlinux.Config.{Doubles}
use btvnlinux.Dplist.Defs.{World, world, Dplist, Block}
use btvnlinux.Dplist.Update.{insert_sorted}
use btvnlinux.Dplist.Chain.{IsList}
use btvnlinux.Dplist.Read.{Compares}
use btvnlinux.Dplist.Slot.{slot}
use btvnlinux.Dplist.Sorted.{Clashes}
use btvnlinux.Dplist.Insert.{sorted_in, insert_sorted-sorted_in}
use btvnlinux.Datamgr.{
  SensorNode, run_avg_length, copy_sensor, place_copy, compare_sensor, store_sensor,
}

-- A line of the map: what `malloc` returns for its node, its room and its sensor's identifier; and
-- what the local `node` has as its time of change, which the source does not set.
pub record Line : Type 0 where
  pub block : Block
  pub room : ℕ
  pub sensor_id : ℕ
  pub stale : ℕ

module _ (F : Doubles) where
  open F use {Value, zero_value}

  -- The local `node` once a line is scanned: its window, its value and its time are 0. (The source
  -- also assigns 0 to the window as a whole, which is no assignment in C.)
  abbrev pub scanned : Line → SensorNode Value
  scanned x = record {
    room_id = x.room;
    sensor = record { id = x.sensor_id; value = zero_value; ts = 0 };
    last_modified = x.stale;
    data_list = replicate run_avg_length zero_value;
  }

  -- The loop over the lines that can be scanned. `local` is the address of `node`.
  unfoldable pub load_rooms :
      (fuel : ℕ) (local : Ptr)
      → List Line
      → Dplist (SensorNode Value)
      → Cmd (World (SensorNode Value)) (Dplist (SensorNode Value))
  unfolding store_sensor
  load_rooms fuel local [] l = pure l
  load_rooms fuel local (x ∷ xs) l = do
    store_sensor F local (scanned x)
    l' ← insert_sorted fuel x.block (some l) local true
    load_rooms fuel local xs l'

  module _ (local : Ptr) (fresh : Heap (SensorNode Value) → Ptr) (there : local ≢ null) where
    -- The elements at the addresses `es` are `ns`, and none is the local variable.
    abbrev pub Holds : Heap (SensorNode Value) → Cells Ptr → List (SensorNode Value) → Type 0
    Holds els [] [] = Unit {0}
    Holds els [] (n ∷ ns) = ⊥
    Holds els ((a, e) ∷ cs) [] = ⊥
    Holds els ((a, e) ∷ cs) (n ∷ ns) = (e ≢ null) × (e ≢ local) × (els e ≡ some n) × Holds els cs ns

    -- The elements once a line is scanned, and once it is copied.
    abbrev pub with_local : Heap (SensorNode Value) → Line → Heap (SensorNode Value)
    with_local els x = write els local (some (scanned x))

    abbrev pub with_copy : Heap (SensorNode Value) → Line → Heap (SensorNode Value)
    with_copy els x = write (with_local els x) (fresh (with_local els x)) (some (scanned x))

    -- What `malloc` is relied on for: it does not fail, and returns addresses that are not in use.
    abbrev pub Supplied : Heap (SensorNode Value) → Cells Ptr → List Line → Type 0
    Supplied els cs [] = Unit {0}
    Supplied els cs (x ∷ xs) =
        (x.block.address ≢ null)
        × (x.block.address ∉ cs)
        × (fresh (with_local els x) ≢ null)
        × (with_local els x (fresh (with_local els x)) ≡ none)
        × Supplied (with_copy els x) ((x.block.address, fresh (with_local els x)) ∷ cs) xs

    -- The sensors of the lines, the last line first, in front of `ns`.
    abbrev pub loaded : List Line → List (SensorNode Value) → List (SensorNode Value)
    loaded [] ns = ns
    loaded (x ∷ xs) ns = loaded xs (scanned x ∷ ns)

    abbrev before : Ptr → Ptr → ℤ
    before x y = negsuc 0

    Holds-copy :
        (els : Heap (SensorNode Value)) (x : Line) (cs : Cells Ptr) (ns : List (SensorNode Value))
        → with_local els x (fresh (with_local els x)) ≡ none
        → Holds els cs ns
        → Holds (with_copy els x) cs ns
    Holds-copy els x [] [] free h = tt
    Holds-copy els x [] (n ∷ ns) free h = h
    Holds-copy els x ((a, e) ∷ cs) [] free h = h
    Holds-copy els x ((a, e) ∷ cs) (n ∷ ns) free (ne, nl, at, h) =
        (ne, nl, ground arith, Holds-copy els x cs ns free h)

    not_local :
        (els : Heap (SensorNode Value)) (x : Line)
        → with_local els x (fresh (with_local els x)) ≡ none
        → fresh (with_local els x) ≢ local
    not_local els x free = ground arith

    copied :
        (w : World (SensorNode Value)) (x : Line)
        → fresh (with_local w.elements x) ≢ null
        → copy_sensor fresh local (world w.nodes (with_local w.elements x))
          ≡ ok (fresh (with_local w.elements x)) (world w.nodes (with_copy w.elements x))
    unfolding copy_sensor place_copy
    copied w x ne = ground arith

    compares :
        (els : Heap (SensorNode Value)) (x : Line) (cs : Cells Ptr) (ns : List (SensorNode Value))
        (h : Heap _)
        → fresh (with_local els x) ≢ null
        → with_local els x (fresh (with_local els x)) ≡ none
        → Holds els cs ns
        → Compares compare_sensor (world h (with_copy els x)) before (fresh (with_local els x)) cs
    unfolding compare_sensor
    compares els x [] ns h ne free hold = tt
    compares els x ((a, e) ∷ cs) [] h ne free hold = absurd hold
    compares els x ((a, e) ∷ cs) (n ∷ ns) h ne free (en, nl, at, hold) =
        (ground arith, compares els x cs ns h ne free hold)

    sorted_in-before : (c : Ptr × Ptr) (cs : Cells Ptr) → sorted_in before c cs ≡ c ∷ cs
    unfolding sorted_in slot
    sorted_in-before c [] = refl
    sorted_in-before c ((a, f) ∷ []) = refl
    sorted_in-before c ((a, f) ∷ b ∷ cs) = refl

    no_clash : (e : Ptr) (cs : Cells Ptr) → ¬ Clashes before e cs
    no_clash e [] cl = cl
    no_clash e ((a, f) ∷ cs) cl = ground arith

    -- One line: the sensor is copied, and goes in front.
    insert_line :
        (fuel : ℕ) (x : Line) (w : World (SensorNode Value)) (l : Dplist (SensorNode Value))
        (cs : Cells Ptr) (ns : List (SensorNode Value))
        → l.element_copy ≡ copy_sensor fresh
        → l.element_compare ≡ compare_sensor
        → length cs < fuel
        → x.block.address ≢ null
        → w.nodes x.block.address ≡ none
        → fresh (with_local w.elements x) ≢ null
        → with_local w.elements x (fresh (with_local w.elements x)) ≡ none
        → IsList w l cs
        → Holds w.elements cs ns
        → Returns
            (λ l' v.
              IsList v l' ((x.block.address, fresh (with_local w.elements x)) ∷ cs)
              × (l'.element_copy ≡ copy_sensor fresh)
              × (l'.element_compare ≡ compare_sensor)
              × (v.elements ≡ with_copy w.elements x)
              × ((a : Ptr)
                  → a ∉ ((x.block.address, fresh (with_local w.elements x)) ∷ cs)
                  → v.nodes a ≡ w.nodes a))
            (insert_sorted fuel x.block
              (some l)
              local
              true
              (world w.nodes (with_local w.elements x)))
    insert_line fuel x w l cs ns ecopy ecmp lt room unused ne free is hold =
        let e = fresh (with_local w.elements x) in
        let front = sorted_in-before (x.block.address, e) cs in
        Returns.mono
          (insert_sorted-sorted_in (world w.nodes (with_local w.elements x))
            (with_copy w.elements x) l x.block local e true before room unused
            (rw ecopy (copied w x ne)) fuel cs lt
            (record { head = is.head; linked = is.linked; apart = is.apart })
            (λ h. rw ecmp (compares w.elements x cs ns h ne free hold)) (no_clash e cs))
          λ l' v (is', el, ee, same).
            (rw front at is', rw el ecopy, rw el ecmp, ee, λ a out. same a (rw front out))

    -- The map's sensors are loaded without a fault, each in a node of its own, in the reverse of the
    -- order of the lines and in front of the sensors that the list held, which stay as they were:
    -- `compare_sensor` is negative on distinct sensors. The condition is that `malloc` does not
    -- fail and returns addresses that are not in use.
    pub load_rooms-loaded :
        (fuel : ℕ) (xs : List Line) (w : World (SensorNode Value)) (l : Dplist (SensorNode Value))
        (cs : Cells Ptr) (ns : List (SensorNode Value))
        → l.element_copy ≡ copy_sensor fresh
        → l.element_compare ≡ compare_sensor
        → length cs + length xs < fuel
        → Supplied w.elements cs xs
        → ((a : Ptr) → a ∉ cs → w.nodes a ≡ none)
        → IsList w l cs
        → Holds w.elements cs ns
        → Returns
            (λ l' v. (ds : Cells Ptr) × IsList v l' ds × Holds v.elements ds (loaded xs ns))
            (load_rooms fuel local xs l w)
    unfolding load_rooms store_sensor
    load_rooms-loaded fuel [] w l cs ns ecopy ecmp lt supplied owned is hold =
        returns (cs, is, hold)
    load_rooms-loaded fuel (x ∷ xs) w l cs ns ecopy ecmp lt (room, out, ne, free, rest) owned is
          hold =
        Returns.bind
          (insert_line fuel x w l cs ns ecopy ecmp (omega arith) room (owned _ out) ne free is hold)
          λ l' v (is', ecopy', ecmp', ee, same).
            load_rooms-loaded fuel xs v l' _ (scanned x ∷ ns) ecopy' ecmp' (omega arith)
              (rw ee rest)
              (λ a o.
                same a o
                ∙ owned a (not-mem-tail a x.block.address (fresh (with_local w.elements x)) cs o))
              is'
              (subst
                (λ els.
                  Holds els ((x.block.address, fresh (with_local w.elements x)) ∷ cs)
                    (scanned x ∷ ns))
                (sym ee)
                (
                  ne,
                  not_local w.elements x free,
                  write_self (with_local w.elements x) (fresh (with_local w.elements x))
                      (some (scanned x)),
                  Holds-copy w.elements x cs ns free hold,
                ))
