-- ===== src/Config.antt =====
-- Project/config.h: the data that the gateway's parts share. Readings carry a `double`; its
-- arithmetic is not the program's, so it is an interface.
pub mod Inits
pub mod Layout
pub mod Pipe
use btvnlinux.Prelude.{ℕ, Bool}

-- The operations on `double` that the program uses. `above a b` is `a > b`, and `is_zero a` is
-- `a == 0`.
pub record Doubles : Type 1 where
  pub Value : Type 0
  pub zero_value : Value
  pub add : Value → Value → Value
  pub divide : Value → ℕ → Value
  pub above : Value → Value → Bool
  pub is_zero_value : Value → Bool

-- `sensor_data_t`; an identifier is a `uint16_t`, a time a `time_t`.
pub record SensorData (V : Type 0) : Type 0 where
  pub id : ℕ
  pub value : V
  pub ts : ℕ
