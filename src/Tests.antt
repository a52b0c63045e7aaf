-- ===== src/Tests.antt =====
-- A kernel to run the model on, and the theorems applied to it.
pub mod Sample
pub mod Invariant
pub mod Memory
pub mod Processes
pub mod Synchronisation
pub mod System
pub mod Pipes
pub mod Paging
pub mod Loading
pub mod Calls
pub mod Table
