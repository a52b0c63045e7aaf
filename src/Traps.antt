-- ===== src/Traps.antt =====
-- traps.c: the handlers of the traps. The trap of a system call is in module Calls.Table.
pub mod Preempt
use sasha_jakob.Base.{
  ℕ, ◌-◌, ◌/◌, Bool, true, false, List, ◌==◌, if◌then◌else◌, ltb, ℤ, pos, eq_ℤ, ltb_ℤ, suc_ℤ, error,
  pure, ◌>>=◌, ◌>>◌,
}
use sasha_jakob.Links.{load_count}
use sasha_jakob.Kernel.{
  K, Hardware, Machine, Pte, UserContext, process_default, reg_vector_base, get, load_pcb,
  modify_pcb, on_links, entry_of, write_register,
}
use sasha_jakob.Process.Scan.{update_delayed_processes}
use sasha_jakob.Process.Exit.{set_reg0}
use sasha_jakob.Memory.{page_number}
use sasha_jakob.Calls.Schedule.{schedule, yield, sys_exit}
use sasha_jakob.Calls.Table.{Services, Codes, kernel_handler}

-- The current process has used its time slices up.
unfoldable pub preempt : Machine → (curr : ℕ) → UserContext → K UserContext
unfolding schedule
preempt m curr cont = do
  queue ← get (λ k. k.ready_queue)
  count ← on_links (load_count queue)
  if eq_ℤ count (pos 0)
      then pure cont
      else do modify_pcb curr (λ v. record v { state = process_default }); yield m cont

unfoldable pub clock_handler : Machine → UserContext → K UserContext
unfolding preempt update_delayed_processes
clock_handler m cont = do
  update_delayed_processes
  curr ← get (λ k. k.current_process)
  modify_pcb curr (λ v. record v { run_time = suc_ℤ v.run_time })
  v ← load_pcb curr
  if ltb_ℤ v.time_slice v.run_time then preempt m curr cont else pure cont

-- The handlers of an illegal instruction and of a mathematical error differ in their message only.
unfoldable pub illegal_handler : Machine → UserContext → K UserContext
unfolding sys_exit
illegal_handler m cont = do
  current ← get (λ k. k.current_process)
  load_pcb current
  sys_exit m (set_reg0 error cont)

unfoldable pub math_handler : Machine → UserContext → K UserContext
unfolding sys_exit
math_handler m cont = do
  current ← get (λ k. k.current_process)
  load_pcb current
  sys_exit m (set_reg0 error cont)

-- Of the printing, the access to the table is left.
unfoldable pub print_pte : Hardware → List Pte → ℕ → K (Unit {0})
print_pte hw table i = if ltb hw.max_pt_len i then pure tt else do entry_of table i; pure tt

unfoldable pub memory_handler : Hardware → UserContext → K UserContext
unfolding print_pte
memory_handler hw cont =
    let region = cont.addr / hw.vmem_region_size in
    let page = page_number hw (if region == 1 then cont.addr - hw.vmem_1_base else cont.addr) in
    if region == 0
    then (do table ← get (λ k. k.region0_pt); print_pte hw table page; pure cont)
    else if region == 1
    then (do
      current ← get (λ k. k.current_process)
      v ← load_pcb current
      print_pte hw v.region1_pt page
      pure cont)
    else pure cont

unfoldable pub receive_handler : UserContext → K UserContext
receive_handler cont = pure cont

unfoldable pub transmit_handler : UserContext → K UserContext
transmit_handler cont = pure cont

-- The traps, and the handler that the vector has for each.
pub data Trap : Type 0 where
  trap_kernel trap_clock trap_illegal trap_memory trap_math trap_tty_receive trap_tty_transmit :
      Trap

unfoldable pub trap_handlers : Services → Codes → Trap → UserContext → K UserContext
unfolding kernel_handler clock_handler
trap_handlers e codes trap_kernel cont = kernel_handler e codes cont
trap_handlers e codes trap_clock cont = clock_handler e.machine cont
trap_handlers e codes trap_illegal cont = illegal_handler e.machine cont
trap_handlers e codes trap_memory cont = memory_handler e.machine.hw cont
trap_handlers e codes trap_math cont = math_handler e.machine cont
trap_handlers e codes trap_tty_receive cont = receive_handler cont
trap_handlers e codes trap_tty_transmit cont = transmit_handler cont

-- What `trap_init` does behind the stores to the vector.
unfoldable pub trap_init : Machine → K (Unit {0})
trap_init m = write_register reg_vector_base m.trap_handlers_address
