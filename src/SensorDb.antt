-- ===== src/SensorDb.antt =====
-- Project/sensor_db.c: the storage manager. The database is a library, so its calls and their
-- result codes are an interface; so is what `printf` makes of a `double`.
pub mod Consume
pub mod Defs
pub mod Connect
pub mod FromFile
pub mod Sqlite
mod Tests
