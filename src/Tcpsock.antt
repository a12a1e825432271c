-- ===== src/Tcpsock.antt =====
-- Project/lib/tcpsock.c: TCP sockets as the rest of the gateway sees them. The calls of the
-- operating system answer as an argument of each function says (`Replies`), and are recorded.
pub mod Closing
pub mod Defs
pub mod Getters
pub mod Guards
pub mod Lifecycle
pub mod Open
pub mod Transfer
mod Tests
