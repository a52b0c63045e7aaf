-- ===== src/Calls/Table.antt =====
-- syscalls.c and traps.c: the table of the system calls' handlers, and the trap that looks a call up in
-- it. The codes of yalnix.h, YALNIX_FORK and so on, and their YALNIX_PREFIX are arguments.
pub mod Dispatch
use Prim.Native.Nat.{bit_xor}
use sasha_jakob.Base.{
  ℕ, List, [], ◌∷◌, Option, none, some, ◌==◌, ltb, if◌then◌else◌, ℤ, error, pure,
}
use sasha_jakob.Kernel.{K, Machine, UserContext}
use sasha_jakob.Process.Exit.{set_reg0, address}
use sasha_jakob.Calls.Schedule.{sys_unimplemented, sys_exit, sys_get_pid, sys_delay}
use sasha_jakob.Calls.Family.{Allocations, sys_fork, sys_exec, sys_wait}
use sasha_jakob.Calls.Brk.{sys_brk}
use sasha_jakob.Calls.Sync.{
  sys_pipe_init, sys_pipe_read, sys_pipe_write, sys_lock_init, sys_lock_acquire, sys_lock_release,
  sys_cvar_init, sys_signal, sys_broadcast, sys_cvar_wait, sys_reclaim,
}

-- The system calls that have an entry.
pub data Call : Type 0 where
  fork exec exit wait get_pid brk delay tty_read tty_write pipe_init pipe_read pipe_write : Call
  lock_init lock_acquire lock_release cvar_init cvar_signal cvar_broadcast cvar_wait reclaim : Call

-- The handlers' addresses.
pub data Handler : Type 0 where
  at_fork at_exec at_exit at_wait at_get_pid at_brk at_delay at_unimplemented at_pipe_init : Handler
  at_pipe_read at_pipe_write at_lock_init at_lock_acquire at_lock_release at_cvar_init : Handler
  at_signal at_broadcast at_cvar_wait at_reclaim : Handler

-- The right sides of the assignments.
abbrev pub handler_of : Call → Handler
handler_of fork = at_fork
handler_of exec = at_exec
handler_of exit = at_exit
handler_of wait = at_wait
handler_of get_pid = at_get_pid
handler_of brk = at_brk
handler_of delay = at_delay
handler_of tty_read = at_unimplemented
handler_of tty_write = at_unimplemented
handler_of pipe_init = at_pipe_init
handler_of pipe_read = at_pipe_read
handler_of pipe_write = at_pipe_write
handler_of lock_init = at_lock_init
handler_of lock_acquire = at_lock_acquire
handler_of lock_release = at_lock_release
handler_of cvar_init = at_cvar_init
handler_of cvar_signal = at_signal
handler_of cvar_broadcast = at_broadcast
handler_of cvar_wait = at_cvar_wait
handler_of reclaim = at_reclaim

-- The assignments in their order.
abbrev pub assigned : List Call
assigned =
    fork ∷ exec ∷ exit ∷ wait ∷ get_pid ∷ brk ∷ delay ∷ tty_read ∷ tty_write ∷ pipe_init ∷ pipe_read
    ∷ pipe_write ∷ lock_init ∷ lock_acquire ∷ lock_release ∷ cvar_init ∷ cvar_signal
    ∷ cvar_broadcast ∷ cvar_wait ∷ reclaim ∷ []

-- The codes, the prefix, and the index of a call.
pub record Codes : Type 0 where
  pub code_of : Call → ℕ
  pub prefix : ℕ

abbrev pub index : Codes → Call → ℕ
index codes c = bit_xor (codes.code_of c) codes.prefix

unfoldable pub store_handlers : Codes → List Call → (ℕ → Option Handler) → ℕ → Option Handler
store_handlers codes [] table = table
store_handlers codes (c ∷ cs) table =
    store_handlers codes cs (λ i. if i == index codes c then some (handler_of c) else table i)

-- The table is a global, so every entry is NULL before.
unfoldable pub syscalls_init : Codes → ℕ → Option Handler
unfolding store_handlers
syscalls_init codes = store_handlers codes assigned (λ i. none)

-- What the handlers take from outside: the results of the allocations, LoadProgram, and the value of a
-- function without `return`.
pub record Services : Type 0 where
  pub machine : Machine
  pub allocations : Allocations
  pub load_program : (name args : ℕ) → (process : ℕ) → K ℤ
  pub object_memory : ℕ
  pub sync_memory : ℕ
  pub status_memory : ℕ
  pub status_old : ℤ
  pub buffer_memory : ℕ
  pub buffer_old : ℕ → ℕ
  pub unspecified : ℤ

-- A call of a handler through its address.
unfoldable pub run_handler : Services → Handler → UserContext → K UserContext
run_handler e at_fork u = sys_fork e.machine e.allocations u
run_handler e at_exec u = sys_exec e.load_program u
run_handler e at_exit u = sys_exit e.machine u
run_handler e at_wait u = sys_wait e.machine e.status_memory e.status_old u
run_handler e at_get_pid u = sys_get_pid u
run_handler e at_brk u = sys_brk e.machine.hw u
run_handler e at_delay u = sys_delay e.machine u
run_handler e at_unimplemented u = sys_unimplemented u
run_handler e at_pipe_init u = sys_pipe_init e.machine e.object_memory e.sync_memory u
run_handler e at_pipe_read u = sys_pipe_read e.machine e.buffer_memory e.buffer_old u
run_handler e at_pipe_write u = sys_pipe_write e.machine e.buffer_memory e.buffer_old u
run_handler e at_lock_init u = sys_lock_init e.object_memory e.sync_memory u
run_handler e at_lock_acquire u = sys_lock_acquire e.machine u
run_handler e at_lock_release u = sys_lock_release u
run_handler e at_cvar_init u = sys_cvar_init e.object_memory e.sync_memory u
run_handler e at_signal u = sys_signal u
run_handler e at_broadcast u = sys_broadcast e.unspecified u
run_handler e at_cvar_wait u = sys_cvar_wait e.machine u
run_handler e at_reclaim u = sys_reclaim u

-- A table entry, called where there is one.
abbrev pub call_entry : Services → Option Handler → UserContext → K UserContext
call_entry e none u = pure (set_reg0 error u)
call_entry e (some h) u = run_handler e h u

-- A negative `int` is a word of at least 2 ^ 31, so both bounds are the one test.
unfoldable pub kernel_handler : Services → Codes → UserContext → K UserContext
unfolding syscalls_init
kernel_handler e codes cont =
    let ind = bit_xor (address cont.code) codes.prefix in
    if ltb ind 256 then call_entry e (syscalls_init codes ind) cont else pure (set_reg0 error cont)
