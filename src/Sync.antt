-- ===== src/Sync.antt =====
-- The functions of sync.c: the table of synchronisation objects, locks and condition variables,
-- and pipes.
pub mod Table
mod Wake
pub mod Waits
pub mod Lock
pub mod Cvar
pub mod Pipe
