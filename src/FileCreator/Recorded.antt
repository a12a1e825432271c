-- ===== src/FileCreator/Recorded.antt =====
-- What the file of readings holds, and that the storage manager reads it back.
use btvnlinux.Prelude.{ℕ, zero, suc, ◌+◌, ◌<◌, List, [], ◌∷◌}
use btvnlinux.Memory.Binary.{Binary}
use btvnlinux.Config.{SensorData}
use btvnlinux.SensorDb.Sqlite.{Sqlite}
use btvnlinux.FileCreator.{sleep_time}

-- The identifiers of the sensors fit a `uint16_t`.
abbrev Ids : {V : Type 0} → List (ℕ × V) → Type 0
Ids [] = Unit {0}
Ids ((id, v) ∷ ss) = (id < 65536) × Ids ss

abbrev Small : List ℕ → Type 0
Small [] = Unit {0}
Small (id ∷ ss) = (id < 65536) × Small ss

module _ {V : Type 0} (values : Binary V) (times : Binary ℕ) (change : (i j : ℕ) → V → V) where
  -- The readings of one measurement, with `rest` behind them, and the temperatures that it leaves.
  abbrev taken : ℕ → List (ℕ × V) → List (SensorData V) → List (SensorData V)
  taken t [] rest = rest
  taken t ((id, v) ∷ ss) rest = record { id = id; value = v; ts = t } ∷ taken t ss rest

  abbrev changed : (i j : ℕ) → List (ℕ × V) → List (ℕ × V)
  changed i j [] = []
  changed i j ((id, v) ∷ ss) = (id, change i j v) ∷ changed i (suc j) ss

  -- The readings of all measurements: each sensor in turn, at `t` and then every SLEEP_TIME.
  abbrev pub measured : (rounds i t : ℕ) → List (ℕ × V) → List (SensorData V)
  measured zero i t ss = []
  measured (suc n) i t ss = taken t ss (measured n (suc i) (t + sleep_time) (changed i 0 ss))
