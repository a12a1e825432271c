-- ===== src/SensorDb/Tests.antt =====
-- The storage manager with a small database, and its theorems at it. A value is a natural number.
use btvnlinux.Prelude.{
  ℕ, suc, ◌-◌, ◌≡◌, refl, ◌≢◌, true, none, some, List, [], ◌∷◌, ◌==◌, arith, if◌then◌else◌,
}
use btvnlinux.Prelude.Int.{pos, eqb_ℤ}
use btvnlinux.Memory.{Ptr, null, Heap, write, ok}
use btvnlinux.Memory.Cells.{Cells}
use btvnlinux.Memory.Returns.{Returns}
use btvnlinux.Memory.Binary.{Binary, IsBinary}
use btvnlinux.Config.{SensorData}
use btvnlinux.Sbuffer.{Node, node, sbuffer}
use btvnlinux.Sbuffer.Consumer.{Thread, own_run, rounds}
use btvnlinux.Sbuffer.Queue.{IsBuffer}
use btvnlinux.SensorDb.Sqlite.{Statement, insert_row, Sqlite, Formats}
use btvnlinux.SensorDb.Defs.{Store, sqlite_ok, store_reading, init_connection}
use btvnlinux.SensorDb.Consume.{all_stored, rounds-all_stored}
use btvnlinux.SensorDb.Connect.{Counts, Outcome, init_connection-Outcome}

-- The statements that were executed, and how many connections there are.
record Database : Type 0 where
  log : List Statement
  live : ℕ

-- The connection is at 7; closing one that there is not is a misuse.
abbrev database : Sqlite
database = record {
  State = Database;
  Callback = Unit {0};
  open_db = λ l. (pos 0, 7, record l { live = suc l.live });
  exec = λ p q c l. (pos 0, record l { log = q ∷ l.log });
  close_db = λ p l. (
    if p == null then pos 0 else if l.live == 0 then pos 21 else pos 0,
    if p == null then l else record l { live = l.live - 1 },
  );
}

abbrev formats : Formats ℕ
formats = record { format_e = λ v. v ∷ []; format_g = λ v. v ∷ [] }

abbrev store : Store formats database
store = record { library = record { log = []; live = 0 }; texts = 0; events = [] }

closed_live :
    (p : Ptr) (l : Database)
    → p ≢ null
    → eqb_ℤ (database.close_db p l).0 sqlite_ok ≡ true
    → suc (database.close_db p l).1.live ≡ l.live
closed_live p l ne good = ground arith

database-Counts : Counts database (λ l. l.live)
database-Counts = record {
  opened = λ l. refl;
  opened_ne = λ l good. omega arith;
  executed = λ p q l. refl;
  closed = closed_live;
  closed_null = λ l. refl;
}

init_connection-Outcome_example :
    Returns
      (Outcome formats database (λ l. l.live) database-Counts store)
      (init_connection formats database 1 store)
init_connection-Outcome_example =
    init_connection-Outcome formats database (λ l. l.live) database-Counts 1 store

abbrev first_reading : SensorData ℕ
first_reading = record { id = 15; value = 20; ts = 1000 }

abbrev second_reading : SensorData ℕ
second_reading = record { id = 21; value = 19; ts = 1030 }

-- Two nodes, at 8 and 5.
abbrev nodes : Heap (Node (SensorData ℕ))
nodes = write (write (λ a. none) 8 (some (node 5 first_reading))) 5 (some (node 0 second_reading))

abbrev cells : Cells (SensorData ℕ)
cells = (8, first_reading) ∷ (5, second_reading) ∷ []

cells-IsBuffer : IsBuffer nodes (sbuffer 8 5) cells
cells-IsBuffer = record {
  head = refl;
  tail = refl;
  chain = (omega arith, refl, refl, (omega arith, refl, refl, tt));
  owned = ground arith;
}

abbrev thread : Thread (SensorData ℕ) (Store formats database)
thread = record { own = store; nodes = nodes }

-- A third round stores the second reading again.
abbrev sent : List (SensorData ℕ)
sent = first_reading ∷ second_reading ∷ second_reading ∷ []

rounds-all_stored_example :
    (own_run (rounds (store_reading formats database 7) 3 first_reading (some (sbuffer 8 5)) thread)
      ≡ ok tt (all_stored formats database 7 sent store))
    × ((all_stored formats database 7 sent store).texts ≡ 3)
rounds-all_stored_example =
    rounds-all_stored formats database 1 7 thread first_reading (sbuffer 8 5) cells cells-IsBuffer

sent_log :
    (all_stored formats database 7 sent store).library.log
    ≡ insert_row 21 (19 ∷ []) 1030
      ∷ insert_row 21 (19 ∷ []) 1030
      ∷ insert_row 15 (20 ∷ []) 1000
      ∷ []
sent_log = refl

-- A value is one byte, and a time two.
abbrev head_or_zero : List ℕ → ℕ
head_or_zero [] = 0
head_or_zero (b ∷ bs) = b

abbrev byte : Binary ℕ
byte = record { size = 1; encode = λ v. v ∷ []; decode = head_or_zero }

byte-IsBinary : IsBinary byte (λ v. Unit {0})
byte-IsBinary = record { sized = λ v. refl; decoded = λ v u. refl }

abbrev two_readings : List (SensorData ℕ)
two_readings = first_reading ∷ second_reading ∷ []
