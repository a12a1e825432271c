-- ===== src/SensorDb/Consume.antt =====
-- The loop of `storagemgr_parse_sensor_data` over the shared buffer: what its rounds send to the
-- database, and that it does not end.
use btvnlinux.Prelude.{
  ℕ, suc, ◌+◌, ◌%◌, ◌≡◌, refl, ap, ◌∙◌, none, some, List, [], ◌∷◌, ◌++◌, arith, length, replicate,
  if◌then◌else◌,
}
use btvnlinux.Prelude.Int.{eqb_ℤ}
use btvnlinux.Memory.{Ptr, ok, out_of_fuel}
use btvnlinux.Memory.Cells.{Cells, contents}
use btvnlinux.Config.{SensorData}
use btvnlinux.Sbuffer.{Sbuffer}
use btvnlinux.Sbuffer.Consumer.{
  Thread, own_run, rounds, run_all, last_reading, readings-repeat, rounds-run_all, consume-hangs,
}
use btvnlinux.Sbuffer.Queue.{IsBuffer}
use btvnlinux.SensorDb.Sqlite.{Statement, insert_row, Sqlite, Formats}
use btvnlinux.SensorDb.Defs.{
  Store, inserted, insert_failed, sqlite_ok, insert_sensor, store_reading, parse_sensor_data,
}

module _ {V : Type 0} (P : Formats V) (S : Sqlite) where
  -- The statement that stores a reading, and what the library answers.
  abbrev pub row_of : SensorData V → Statement
  row_of d = insert_row (d.id % 65536) (P.format_e d.value) d.ts

  -- The store once a reading has been sent: the statement has been executed, one more text is
  -- allocated, and the outcome is reported.
  abbrev pub stored : Ptr → SensorData V → Store P S → Store P S
  stored conn d s = record s {
    library = (S.exec conn (row_of d) none s.library).1;
    texts = suc s.texts;
    events =
        (if eqb_ℤ (S.exec conn (row_of d) none s.library).0 sqlite_ok
          then inserted d.ts
          else insert_failed d.ts)
        ∷ s.events;
  }

  -- The same for several, in order.
  abbrev pub all_stored : Ptr → List (SensorData V) → Store P S → Store P S
  all_stored conn [] s = s
  all_stored conn (d ∷ ds) s = all_stored conn ds (stored conn d s)

  pub insert_sensor-ok :
      (conn : Ptr) (d : SensorData V) (s : Store P S)
      → insert_sensor P S conn d.id d.value d.ts s
        ≡ ok (S.exec conn (row_of d) none s.library).0 (stored conn d s)
  unfolding insert_sensor
  insert_sensor-ok conn d s = refl

  run_all-stored :
      (conn : Ptr) (ds : List (SensorData V)) (s : Store P S)
      → run_all (store_reading P S conn) ds s ≡ ok tt (all_stored conn ds s)
  unfolding run_all store_reading
  run_all-stored conn [] s = refl
  run_all-stored conn (d ∷ ds) s =
      rw (insert_sensor-ok conn d s) (run_all-stored conn ds (stored conn d s))

  all_stored-texts :
      (conn : Ptr) (ds : List (SensorData V)) (s : Store P S)
      → (all_stored conn ds s).texts ≡ s.texts + length ds
  all_stored-texts conn [] s = omega arith
  all_stored-texts conn (d ∷ ds) s = all_stored-texts conn ds (stored conn d s) ∙ omega arith

  -- The rounds of the loop over a buffer that is linked as it should be, `m` more than it holds
  -- readings: they run without a fault; the database is sent the readings in order, each once, and
  -- then the last of them `m` times more (the initial `data` where there was none), each with its
  -- report; and each round leaves a text allocated.
  pub rounds-all_stored :
      (m : ℕ) (conn : Ptr) (t : Thread (SensorData V) (Store P S)) (d : SensorData V) (b : Sbuffer)
      (cs : Cells (SensorData V))
      → IsBuffer t.nodes b cs
      → let sent = contents cs ++ replicate m (last_reading d (contents cs)) in
        (own_run (rounds (store_reading P S conn) (length (contents cs) + m) d (some b) t)
          ≡ ok tt (all_stored conn sent t.own))
        × ((all_stored conn sent t.own).texts ≡ t.own.texts + length sent)
  rounds-all_stored m conn t d b cs is =
      let ds = contents cs in
      let sent = ds ++ replicate m (last_reading d ds) in
      (
        rounds-run_all (store_reading P S conn) (length ds + m) t d b cs is
            ∙ ap (λ es. run_all (store_reading P S conn) es t.own)
                (readings-repeat (length ds + m) m d ds refl)
            ∙ run_all-stored conn sent t.own,
        all_stored-texts conn sent t.own,
      )

  -- With however much fuel, the loop over a buffer uses it up: no round fails, and none ends it.
  pub parse_sensor_data-hangs :
      (fuel : ℕ) (conn : Ptr) (t : Thread (SensorData V) (Store P S)) (d : SensorData V)
      (b : Sbuffer) (cs : Cells (SensorData V))
      → IsBuffer t.nodes b cs
      → parse_sensor_data P S fuel conn d (some b) t ≡ out_of_fuel
  unfolding parse_sensor_data store_reading
  parse_sensor_data-hangs fuel conn t d b cs is =
      consume-hangs (store_reading P S conn)
        (λ e s. (stored conn e s, (rw (insert_sensor-ok conn e s) refl))) fuel t d b cs is
