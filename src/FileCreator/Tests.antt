-- ===== src/FileCreator/Tests.antt =====
-- The file of readings with values of one byte, read back by the storage manager's function.
use btvnlinux.Prelude.{ℕ, ◌+◌, List, [], ◌∷◌}
use btvnlinux.Prelude.Int.{pos}
use btvnlinux.Memory.Binary.{Binary}
use btvnlinux.SensorDb.Sqlite.{Statement, Sqlite, Formats}
use btvnlinux.SensorDb.Defs.{Store}

-- A database that keeps the statements.
abbrev statements : Sqlite
statements = record {
  State = List Statement;
  Callback = Unit {0};
  open_db = λ l. (pos 0, 7, l);
  exec = λ p q c l. (pos 0, q ∷ l);
  close_db = λ p l. (pos 0, l);
}

abbrev formats : Formats ℕ
formats = record { format_e = λ v. v ∷ []; format_g = λ v. v ∷ [] }

abbrev store : Store formats statements
store = record { library = []; texts = 0; events = [] }

abbrev head_or_zero : List ℕ → ℕ
head_or_zero [] = 0
head_or_zero (b ∷ bs) = b

abbrev byte : Binary ℕ
byte = record { size = 1; encode = λ v. v ∷ []; decode = head_or_zero }

abbrev warmer : (i j : ℕ) → ℕ → ℕ
warmer i j v = v + 1
