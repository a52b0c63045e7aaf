-- ===== src/System.antt =====
-- syscalls.c, traps.c and pcb.c together: the processes that share the processor by SysDelay and by the
-- clock's trap.
pub mod Sound
pub mod Delay
pub mod Tick
pub mod Clock
pub mod Reached
pub mod Turns
pub mod Wakeup
