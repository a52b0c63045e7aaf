-- ===== src/Process.antt =====
-- The functions of pcb.c: the four process queues, the making and the family of processes, the
-- scans over the queues, and the end of a process.
pub mod Queue
pub mod Family
pub mod Scan
pub mod Exit
