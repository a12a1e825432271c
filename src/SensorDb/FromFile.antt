-- ===== src/SensorDb/FromFile.antt =====
-- `insert_sensor_from_file`: the readings of a file of records, each an identifier, a value and a
-- time in the machine's layout.
use btvnlinux.Prelude.{
  ℕ, zero, suc, ◌+◌, ◌-◌, ◌<◌, ◌≤◌, ◌≡◌, refl, ap, true, false, Option, none, some, List, [], ◌∷◌,
  ◌++◌, arith, length, take, drop, take-append, drop-append, length-append, length-drop,
  if◌then◌else◌, ltb,
}
use native.Mathlib.Decide.{dec_lt}
use btvnlinux.Prelude.Int.{ℤ, pos}
use btvnlinux.Memory.{Ptr, ok, fault, Fault, Cmd, pure, fail, hang, ◌>>=◌, ◌>>◌}
use btvnlinux.Memory.Binary.{Binary, IsBinary, u16_binary, u16-IsBinary}
use btvnlinux.Memory.Stream.{File, opened, fread}
use btvnlinux.Config.{SensorData}
use btvnlinux.Config.Layout.{encode_reading, encode_readings, Fits}
use btvnlinux.SensorDb.Sqlite.{Sqlite, Formats}
use btvnlinux.SensorDb.Defs.{Store, insert_sensor}
use btvnlinux.SensorDb.Consume.{stored, all_stored, insert_sensor-ok}

-- `fread` of the first of the bytes that are left.
pub fread-append : (a r : List ℕ) → fread (length a) (opened (a ++ r)) ≡ (some a, opened r)
unfolding fread
fread-append a r =
    let enough : ltb (length (a ++ r)) (length a) ≡ false = ground (arith, length-append a r) in
    rw (enough, take-append a r, drop-append a r) refl

module _ {V : Type 0} (P : Formats V) (S : Sqlite) (values : Binary V) (times : Binary ℕ) where
  -- `length = fread(...); assert(length);`
  abbrev required : Option (List ℕ) × File → Cmd (Store P S) (List ℕ × File)
  required (none, f) = fail Fault.assert_failed
  required (some a, f) = pure (a, f)

  -- One reading: none where the file ends in front of it.
  abbrev behind_id : Option (List ℕ) → File → Cmd (Store P S) (Option (SensorData V) × File)
  behind_id none f = pure (none, f)
  behind_id (some i) f = do
    (v, g) ← required (fread values.size f)
    (t, h) ← required (fread times.size g)
    pure (
      some (record { id = u16_binary.decode i; value = values.decode v; ts = times.decode t }),
      h,
    )

  unfoldable pub read_reading : File → Cmd (Store P S) (Option (SensorData V) × File)
  read_reading f = behind_id (fread u16_binary.size f).0 (fread u16_binary.size f).1

  -- The loop of `insert_sensor_from_file`.
  unfoldable pub file_loop : ℕ → (conn : Ptr) → File → Cmd (Store P S) ℤ
  unfolding read_reading
  file_loop zero conn f = hang
  file_loop (suc k) conn f = if f.at_end then pure (pos 0) else do
    (o, g) ← read_reading f
    elim o [
      | none ↦ pure (pos 0)
      | some d ↦ insert_sensor P S conn d.id d.value d.ts >> file_loop k conn g
    ]

  -- `insert_sensor_from_file`, given the file that the pointer names.
  unfoldable pub insert_sensor_from_file :
      (fuel : ℕ) → (conn : Ptr) → Option File → Cmd (Store P S) ℤ
  unfolding file_loop
  insert_sensor_from_file fuel conn none = fail Fault.assert_failed
  insert_sensor_from_file fuel conn (some f) = file_loop fuel conn f

  read_short :
      (end : List ℕ) (s : Store P S)
      → length end < 2
      → read_reading (opened end) s ≡ ok (none, record { rest = []; at_end = true }) s
  unfolding read_reading fread
  read_short end s few = let low : ltb (length end) 2 ≡ true = ground arith in rw low refl

  -- A value or a time that is cut off.
  required_cut :
      {A : Type 0} (size : ℕ) (bs : List ℕ) (k : List ℕ × File → Cmd (Store P S) A) (s : Store P S)
      → length bs < size
      → (required (fread size (opened bs)) >>= k) s ≡ fault Fault.assert_failed
  unfolding fread
  required_cut size bs k s few = let low : ltb (length bs) size ≡ true = ground arith in rw low refl

  fread-drop :
      (size : ℕ) (bs : List ℕ)
      → size ≤ length bs
      → fread size (opened bs) ≡ (some (take size bs), opened (drop size bs))
  unfolding fread
  fread-drop size bs many = let high : ltb (length bs) size ≡ false = ground arith in rw high refl

  read_torn :
      (end : List ℕ) (s : Store P S)
      → 2 ≤ length end
      → length end < 2 + values.size + times.size
      → read_reading (opened end) s ≡ fault Fault.assert_failed
  unfolding read_reading
  read_torn end s many few =
      let rest = drop 2 end in
      rw (fread-drop 2 end many) (elim (dec_lt (length rest) values.size) [
        | yes lt ↦ required_cut values.size rest _ s lt
        | no ge ↦
            let next = drop values.size rest in
            rw (fread-drop values.size rest (omega arith)) (
              required_cut times.size next _ s
                (omega (arith, length-drop values.size rest, length-drop 2 end)))
      ])

  module _ (time : ℕ → Type 0) (value_law : IsBinary values (λ _. Unit {0}))
      (time_law : IsBinary times time) where
    read_encoded :
        (d : SensorData V) (end : List ℕ) (s : Store P S)
        → d.id < 65536
        → time d.ts
        → read_reading (opened (encode_reading values times d end)) s ≡ ok (some d, opened end) s
    unfolding read_reading
    read_encoded d end s small fits =
        let first =
          fread-append (u16_binary.encode d.id)
            (values.encode d.value ++ (times.encode d.ts ++ end)) in
        let second =
          rw (value_law.sized d.value) at
            (fread-append (values.encode d.value) (times.encode d.ts ++ end)) in
        let third = rw (time_law.sized d.ts) at (fread-append (times.encode d.ts) end) in
        rw
          (
            first,
            second,
            third,
            u16-IsBinary.decoded d.id small,
            value_law.decoded d.value tt,
            time_law.decoded d.ts fits,
          )
          refl

    sends :
        (n k : ℕ) (conn : Ptr) (ds : List (SensorData V)) (end : List ℕ) (s : Store P S)
        → n ≡ length ds + k
        → Fits time ds
        → file_loop n conn (opened (encode_readings values times ds end)) s
          ≡ file_loop k conn (opened end) (all_stored P S conn ds s)
    unfolding file_loop
    sends n k conn [] end s eq fits =
        let same : n ≡ k = omega arith in ap (λ m. file_loop m conn (opened end) s) same
    sends zero k conn (d ∷ ds) end s eq fits = absurd (omega arith)
    sends (suc n) k conn (d ∷ ds) end s eq (small, fit, fits) =
        rw
          (
            read_encoded d (encode_readings values times ds end) s small fit,
            insert_sensor-ok P S conn d s,
          )
          (sends n k conn ds end (stored P S conn d s) (omega arith) fits)

    -- A file that holds the bytes of some readings, and at most one byte behind them: with fuel for
    -- every reading `insert_sensor_from_file` returns 0, and has done what storing the readings in
    -- order, each once, does. The conditions are that identifiers and times fit their types and that
    -- reading a value's or a time's bytes gives it back.
    pub insert_sensor_from_file-encoded :
        (fuel : ℕ) (conn : Ptr) (ds : List (SensorData V)) (end : List ℕ) (s : Store P S)
        → length ds < fuel
        → length end < 2
        → Fits time ds
        → insert_sensor_from_file fuel conn (some (opened (encode_readings values times ds end))) s
          ≡ ok (pos 0) (all_stored P S conn ds s)
    unfolding insert_sensor_from_file
    insert_sensor_from_file-encoded fuel conn ds end s lt few fits =
        rw (sends fuel (suc (fuel - length ds - 1)) conn ds end s (omega arith) fits)
          (rw (file_loop, read_short end (all_stored P S conn ds s) few) refl)

    -- A file that breaks off inside a reading, behind its identifier, makes the assertion fail, so
    -- the program ends, whatever readings stand in front.
    pub insert_sensor_from_file-torn :
        (fuel : ℕ) (conn : Ptr) (ds : List (SensorData V)) (end : List ℕ) (s : Store P S)
        → length ds < fuel
        → 2 ≤ length end
        → length end < 2 + values.size + times.size
        → Fits time ds
        → insert_sensor_from_file fuel conn (some (opened (encode_readings values times ds end))) s
          ≡ fault Fault.assert_failed
    unfolding insert_sensor_from_file
    insert_sensor_from_file-torn fuel conn ds end s lt many few fits =
        rw (sends fuel (suc (fuel - length ds - 1)) conn ds end s (omega arith) fits)
          (rw (file_loop, read_torn end (all_stored P S conn ds s) many few) refl)
