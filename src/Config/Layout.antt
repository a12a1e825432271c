-- ===== src/Config/Layout.antt =====
-- Readings as bytes: the identifier, the value and the time, each in the machine's layout.
use btvnlinux.Prelude.{ℕ, ◌<◌, List, [], ◌∷◌, ◌++◌}
use btvnlinux.Memory.Binary.{Binary, u16_binary}
use btvnlinux.Config.{SensorData}

module _ {V : Type 0} (values : Binary V) (times : Binary ℕ) where
  -- The bytes of a reading, and of a file of readings with `end` behind them.
  abbrev pub encode_reading : SensorData V → List ℕ → List ℕ
  encode_reading d end =
      u16_binary.encode d.id ++ (values.encode d.value ++ (times.encode d.ts ++ end))

  abbrev pub encode_readings : List (SensorData V) → List ℕ → List ℕ
  encode_readings [] end = end
  encode_readings (d ∷ ds) end = encode_reading d (encode_readings ds end)

module _ {V : Type 0} where
  -- Identifiers and times that the layout can hold.
  abbrev pub Fits : (ℕ → Type 0) → List (SensorData V) → Type 0
  Fits time [] = Unit {0}
  Fits time (d ∷ ds) = (d.id < 65536) × time d.ts × Fits time ds
