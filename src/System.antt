-- ===== src/System.antt =====
-- The parts together.
pub mod Reconcile
pub mod Panel
pub mod Http
pub mod Guarded
pub mod Answers
pub mod Typed
pub mod Reads
pub mod Calls
pub mod Expired
pub mod Outsiders
pub mod Serve
pub mod Closed
pub mod Keeps
pub mod Unique
pub mod Marks
pub mod Commands
pub mod Joins
pub mod Loop
pub mod Writes
pub mod Wakes
pub mod Settles
