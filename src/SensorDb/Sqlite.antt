-- ===== src/SensorDb/Sqlite.antt =====
-- What the storage manager uses of the libraries: the calls of SQLite, and the formats of `printf`.
use btvnlinux.Prelude.{ℕ, Option, List}
use btvnlinux.Prelude.Int.{ℤ}
use btvnlinux.Memory.{Ptr}

-- The condition that a search asks of a row. Numbers are written in decimal, values as given.
pub data Filter : Type 0 where
  every : Filter
  value_is : (value : List ℕ) → Filter
  value_above : (value : List ℕ) → Filter
  time_is : (ts : ℕ) → Filter
  time_after : (ts : ℕ) → Filter

-- The texts that are sent to the database: `DROP TABLE IF EXISTS` with `CREATE TABLE`, `CREATE TABLE
-- IF NOT EXISTS`, `INSERT INTO`, and `SELECT * ... ORDER BY id ASC`.
pub data Statement : Type 0 where
  recreate : Statement
  create_if_missing : Statement
  insert_row : (sensor_id : ℕ) → (sensor_value : List ℕ) → (timestamp : ℕ) → Statement
  select : Filter → Statement

-- `sqlite3_open` of the database's file, `sqlite3_exec` and `sqlite3_close`, over the state of the
-- library; a callback is one of its types. The codes are the library's.
pub record Sqlite : Type 1 where
  pub State : Type 0
  pub Callback : Type 0
  pub open_db : State → ℤ × Ptr × State
  pub exec : Ptr → Statement → Option Callback → State → ℤ × State
  pub close_db : Ptr → State → ℤ × State

-- What `%e` and `%g` print of a value.
pub record Formats (V : Type 0) : Type 0 where
  pub format_e : V → List ℕ
  pub format_g : V → List ℕ
