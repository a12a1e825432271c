-- ===== src/SensorDb/Defs.antt =====
-- The functions of Project/sensor_db.c. The source compares the codes of `init_connection` with
-- `SQLITE_OPEN`, which the library does not have; it is read as `SQLITE_OK`. A few calls of
-- `asprintf` lack a `&` or name another variable; they are read as those beside them.
use btvnlinux.Prelude.{ℕ, suc, ◌-◌, ◌%◌, Option, none, some, List, ◌∷◌, ◌==◌, if◌then◌else◌}
use btvnlinux.Prelude.Int.{ℤ, pos, eqb_ℤ}
use btvnlinux.Memory.{Ptr, null, Cmd, ok, pure, ◌>>=◌, ◌>>◌}
use btvnlinux.Config.{SensorData}
use btvnlinux.Sbuffer.{Sbuffer}
use btvnlinux.Sbuffer.Consumer.{Thread, consume}
use btvnlinux.SensorDb.Sqlite.{
  Filter, every, value_is, value_above, time_is, time_after, Statement, recreate, create_if_missing,
  insert_row, select, Sqlite, Formats,
}

-- What is reported through the pipe, and to stderr.
pub data Event : Type 0 where
  connected : Event
  not_connected : Event
  table_created : Event
  table_failed : Event
  disconnected : Event
  busy : Event
  inserted : (ts : ℕ) → Event
  insert_failed : (ts : ℕ) → Event
  search_complete : Filter → Event
  search_failed : Filter → Event
  server_failed : Event

-- SQLITE_OK
abbrev pub sqlite_ok : ℤ
sqlite_ok = pos 0

module _ {V : Type 0} (P : Formats V) (S : Sqlite) where
  open S use {State, Callback, open_db, exec, close_db}

  -- The library's state, how many texts that `asprintf` allocated have not been freed, and what has
  -- been reported, the last report first.
  pub record Store : Type 0 where
    pub library : State
    pub texts : ℕ
    pub events : List Event

  -- `write_pipe(pipe_mutex, pfd, buf)` of a text that `asprintf` has allocated; it is freed there.
  abbrev pub report : Event → Cmd Store (Unit {0})
  report e s = ok tt (record s { events = e ∷ s.events })

  abbrev pub run_exec : Ptr → Statement → Option Callback → Cmd Store ℤ
  run_exec conn q f s =
      let (rval, l) = exec conn q f s.library in ok rval (record s { library = l })

  abbrev pub run_close : Ptr → Cmd Store ℤ
  run_close conn s = let (rval, l) = close_db conn s.library in ok rval (record s { library = l })

  abbrev pub run_open : Cmd Store (ℤ × Ptr)
  run_open s = let (rval, p, l) = open_db s.library in ok (rval, p) (record s { library = l })

  -- `asprintf(&sql, ...)` and `free(sql)`
  abbrev pub allocate_text : Cmd Store (Unit {0})
  allocate_text s = ok tt (record s { texts = suc s.texts })

  abbrev pub free_text : Cmd Store (Unit {0})
  free_text s = ok tt (record s { texts = s.texts - 1 })

  -- `init_connection`: the pointer is NULL where a call has failed. Where the table cannot be
  -- created the pointer is set to NULL and the connection is not closed.
  unfoldable pub init_connection : (clear_up_flag : ℕ) → Cmd Store Ptr
  init_connection clear_up_flag = do
    (rval, p) ← run_open
    database ←
        if eqb_ℤ rval sqlite_ok
        then (do report connected; pure p)
        else (do run_close p; report not_connected; pure null)
    if database == null then pure null else do
      r ← run_exec database (if clear_up_flag == 1 then recreate else create_if_missing) none
      if eqb_ℤ r sqlite_ok
          then (do report table_created; pure database)
          else (do report table_failed; pure null)

  -- `disconnect`
  unfoldable pub disconnect : (conn : Ptr) → Cmd Store (Unit {0})
  disconnect conn = do
    rval ← run_close conn
    report (if eqb_ℤ rval sqlite_ok then disconnected else busy)

  -- `insert_sensor`; `%hu` prints a `uint16_t`. The text of the statement is not freed. Where the
  -- statement fails the source passes `buf` itself to `asprintf`, which is not set yet; it is read as
  -- `&buf` here, so that the failure is reported.
  unfoldable pub insert_sensor : (conn : Ptr) → (id : ℕ) → (value : V) → (ts : ℕ) → Cmd Store ℤ
  insert_sensor conn id value ts = do
    allocate_text
    rval ← run_exec conn (insert_row (id % 65536) (P.format_e value) ts) none
    report (if eqb_ℤ rval sqlite_ok then inserted ts else insert_failed ts)
    pure rval

  -- The part that the searches share: the statement is sent, and what came of it reported.
  abbrev pub search_rows : Ptr → Filter → Callback → Cmd Store ℤ
  search_rows conn c f = do
    rval ← run_exec conn (select c) (some f)
    report (if eqb_ℤ rval sqlite_ok then search_complete c else search_failed c)
    pure rval

  -- `find_sensor_all`, whose text is a constant.
  unfoldable pub find_sensor_all : Ptr → Callback → Cmd Store ℤ
  find_sensor_all conn f = search_rows conn every f

  -- The searches whose text is allocated first and freed at the end.
  abbrev pub search_text : Ptr → Filter → Callback → Cmd Store ℤ
  search_text conn c f = do allocate_text; rval ← search_rows conn c f; free_text; pure rval

  unfoldable pub find_sensor_by_value : Ptr → (value : V) → Callback → Cmd Store ℤ
  find_sensor_by_value conn value f = search_text conn (value_is (P.format_g value)) f

  unfoldable pub find_sensor_exceed_value : Ptr → (value : V) → Callback → Cmd Store ℤ
  find_sensor_exceed_value conn value f = search_text conn (value_above (P.format_g value)) f

  unfoldable pub find_sensor_by_timestamp : Ptr → (ts : ℕ) → Callback → Cmd Store ℤ
  find_sensor_by_timestamp conn ts f = search_text conn (time_is ts) f

  unfoldable pub find_sensor_after_timestamp : Ptr → (ts : ℕ) → Callback → Cmd Store ℤ
  find_sensor_after_timestamp conn ts f = search_text conn (time_after ts) f

  -- The body of the loop of `storagemgr_parse_sensor_data`.
  unfoldable pub store_reading : (conn : Ptr) → SensorData V → Cmd Store (Unit {0})
  store_reading conn d = do insert_sensor conn d.id d.value d.ts; pure tt

  -- `storagemgr_parse_sensor_data`, with fuel for its loop. The local `data` is uninitialised: `d`
  -- is what it happens to hold.
  unfoldable pub parse_sensor_data :
      (fuel : ℕ)
      → (conn : Ptr) → (d : SensorData V) → Option Sbuffer
      → Cmd (Thread (SensorData V) Store) (Unit {0})
  parse_sensor_data fuel conn d b = consume (store_reading conn) fuel d b
