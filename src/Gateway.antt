-- ===== src/Gateway.antt =====
-- Project/main.c: the process that writes the log, and the threads of the gateway.
pub mod ConnThread
pub mod Delivery
pub mod Log
pub mod Main
pub mod Storage
pub mod Threads
mod StorageTests
mod Tests
