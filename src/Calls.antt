-- ===== src/Calls.antt =====
-- syscalls.c: the scheduler and the system calls. A handler takes what `*uctxt` holds and returns what
-- it holds when the handler is done. The code of a handler behind its call of `schedule` runs when the
-- process is scheduled again; where there is such code, it is a function of its own, `…_resumed`.
pub mod Schedule
pub mod Family
pub mod Brk
pub mod Sync
pub mod Table
