-- ===== src/Tests/Table.antt =====
-- The table of the system calls, with codes from 256 on and the prefix 256.
use sasha_jakob.Base.{
  ℕ, ◌+◌, ◌<◌, ◌≡◌, refl, sym, ap, ◌∙◌, none, true, ◌==◌, if◌then◌else◌, arith, pos, success, pure,
}
use sasha_jakob.Kernel.{UserContext, process_default}
use sasha_jakob.Calls.Table.{
  Call, Codes, Services, index, handler_of, run_handler, kernel_handler, fork, exec, exit, wait,
  get_pid, brk, delay, tty_read, tty_write, pipe_init, pipe_read, pipe_write, lock_init,
  lock_acquire, lock_release, cvar_init, cvar_signal, cvar_broadcast, cvar_wait, reclaim,
}
use sasha_jakob.Calls.Table.Dispatch.{Separate, kernel_handler-run_handler}
use sasha_jakob.Tests.Sample.{pcb_in, machine}

abbrev number : Call → ℕ
number fork = 0
number exec = 1
number exit = 2
number wait = 3
number get_pid = 4
number brk = 5
number delay = 6
number tty_read = 7
number tty_write = 8
number pipe_init = 9
number pipe_read = 10
number pipe_write = 11
number lock_init = 12
number lock_acquire = 13
number lock_release = 14
number cvar_init = 15
number cvar_signal = 16
number cvar_broadcast = 17
number cvar_wait = 18
number reclaim = 19

abbrev codes : Codes
codes = record { code_of = λ c. 256 + number c; prefix = 256 }

abbrev decode : ℕ → Call
decode i =
    if i == 0
    then fork
    else if i == 1
    then exec
    else if i == 2
    then exit
    else if i == 3
    then wait
    else if i == 4
    then get_pid
    else if i == 5
    then brk
    else if i == 6
    then delay
    else if i == 7
    then tty_read
    else if i == 8
    then tty_write
    else if i == 9
    then pipe_init
    else if i == 10
    then pipe_read
    else if i == 11
    then pipe_write
    else if i == 12
    then lock_init
    else if i == 13
    then lock_acquire
    else if i == 14
    then lock_release
    else if i == 15
    then cvar_init
    else if i == 16
    then cvar_signal
    else if i == 17
    then cvar_broadcast
    else if i == 18
    then cvar_wait
    else reclaim

decode-index : (c : Call) → decode (index codes c) ≡ c
decode-index fork = refl
decode-index exec = refl
decode-index exit = refl
decode-index wait = refl
decode-index get_pid = refl
decode-index brk = refl
decode-index delay = refl
decode-index tty_read = refl
decode-index tty_write = refl
decode-index pipe_init = refl
decode-index pipe_read = refl
decode-index pipe_write = refl
decode-index lock_init = refl
decode-index lock_acquire = refl
decode-index lock_release = refl
decode-index cvar_init = refl
decode-index cvar_signal = refl
decode-index cvar_broadcast = refl
decode-index cvar_wait = refl
decode-index reclaim = refl

codes-Separate : Separate codes
codes-Separate c d e = sym (decode-index c) ∙ ap decode e ∙ decode-index d

small_index : (c : Call) → index codes c < 256
small_index fork = omega arith
small_index exec = omega arith
small_index exit = omega arith
small_index wait = omega arith
small_index get_pid = omega arith
small_index brk = omega arith
small_index delay = omega arith
small_index tty_read = omega arith
small_index tty_write = omega arith
small_index pipe_init = omega arith
small_index pipe_read = omega arith
small_index pipe_write = omega arith
small_index lock_init = omega arith
small_index lock_acquire = omega arith
small_index lock_release = omega arith
small_index cvar_init = omega arith
small_index cvar_signal = omega arith
small_index cvar_broadcast = omega arith
small_index cvar_wait = omega arith
small_index reclaim = omega arith

abbrev services : Services
services = record {
  machine = machine;
  allocations = record {
    fresh = 9;
    old = pcb_in process_default 9;
    got_table = true;
    pid = pos 9;
    stack_memory = none;
    width = 256;
  };
  load_program = λ name args process. pure success;
  object_memory = 6;
  sync_memory = 26;
  status_memory = 40;
  status_old = pos 0;
  buffer_memory = 100;
  buffer_old = λ _. 0;
  unspecified = pos 0;
}

abbrev trap_with : ℕ → UserContext
trap_with n = record { code = pos n; addr = 0; pc = 0; sp = 0; regs = λ _. pos 0 }

kernel_handler-run_handler_example :
    kernel_handler services codes (trap_with 260)
    ≡ run_handler services (handler_of get_pid) (trap_with 260)
kernel_handler-run_handler_example =
    kernel_handler-run_handler services codes (trap_with 260) get_pid codes-Separate
      (small_index get_pid) refl
