-- ===== src/Exercises.antt =====
-- The exercises on signals, processes and files, B1/ and B2/, which are apart from the gateway.
pub mod Children
pub mod Masks
pub mod PrintSet
pub mod Signals
mod Tests
