-- ===== src/Calls/Schedule.antt =====
-- syscalls.c: the scheduler, and the calls that need no more than it.
pub mod Switched
pub mod Next
pub mod Delay
pub mod Single
pub mod Wakes
use sasha_jakob.Base.{
  ℕ, Bool, true, false, ◌==◌, if◌then◌else◌, ℤ, pos, eq_ℤ, ltb_ℤ, error, pure, ◌>>=◌, ◌>>◌,
}
use sasha_jakob.Links.{pop, load_count}
use sasha_jakob.Kernel.{
  K, Hardware, Machine, UserContext, process_default, reg_ptbr1, reg_tlb_flush, get, load_pcb,
  modify_pcb, on_links, pcb_from_queue_node, write_register,
}
use sasha_jakob.Process.Queue.{add_to_delay_queue}
use sasha_jakob.Process.Exit.{set_reg0, terminate_process}
use sasha_jakob.Switch.{kc_switch}

-- The process that is to run: the first that is ready, or the idle process.
unfoldable pub choose : K ℕ
choose = do
  queue ← get (λ k. k.ready_queue)
  count ← on_links (load_count queue)
  if eq_ℤ count (pos 0)
      then get (λ k. k.idle_process)
      else do node ← on_links (pop queue); pure (pcb_from_queue_node node)

-- `schedule` up to the switch, in the process that leaves.
unfoldable pub deschedule : Machine → UserContext → K ℤ
unfolding choose kc_switch
deschedule m uctxt = do
  curr ← get (λ k. k.current_process)
  load_pcb curr
  next ← choose
  modify_pcb curr (λ v. record v { user_context = uctxt })
  modify_pcb next (λ v. record v { run_time = pos 0 })
  m.context_switch (kc_switch m.hw curr next)

-- `schedule` behind the switch, in a process that comes in and had left in `schedule`. A process that SysFork
-- has just made comes back behind KCCopy in SysFork instead, which is not modelled.
unfoldable pub resume : Hardware → K UserContext
resume hw = do
  current ← get (λ k. k.current_process)
  v ← load_pcb current
  write_register reg_ptbr1 current
  write_register reg_tlb_flush hw.tlb_flush_1
  pure v.user_context

-- `schedule`, for a process that comes in behind the switch in `resume`. The first component is false where NULL
-- is returned.
unfoldable pub schedule : Machine → UserContext → K (Bool × UserContext)
unfolding deschedule resume
schedule m uctxt = do
  kc ← deschedule m uctxt
  if eq_ℤ kc error then pure (false, uctxt) else do back ← resume m.hw; pure (true, back)

-- A call of `schedule` whose result is dropped.
abbrev pub yield : Machine → UserContext → K UserContext
yield m uctxt = do r ← schedule m uctxt; pure (r.1)

unfoldable pub sys_unimplemented : UserContext → K UserContext
sys_unimplemented uctxt = pure (set_reg0 error uctxt)

unfoldable pub sys_exit : Machine → UserContext → K UserContext
unfolding schedule terminate_process
sys_exit m uctxt = do
  current ← get (λ k. k.current_process)
  terminate_process m.hw current (uctxt.regs 0)
  yield m uctxt

unfoldable pub sys_get_pid : UserContext → K UserContext
sys_get_pid uctxt = do
  current ← get (λ k. k.current_process)
  v ← load_pcb current
  pure (set_reg0 v.pid uctxt)

unfoldable pub sys_delay : Machine → UserContext → K UserContext
unfolding schedule
sys_delay m uctxt = do
  curr ← get (λ k. k.current_process)
  if ltb_ℤ (uctxt.regs 0) (pos 0)
      then (do load_pcb curr; pure (set_reg0 error uctxt))
      else if eq_ℤ (uctxt.regs 0) (pos 0)
      then (do load_pcb curr; pure (set_reg0 (pos 0) uctxt))
      else do
        modify_pcb curr (λ v. record v { state = process_default })
        add_to_delay_queue curr (uctxt.regs 0)
        yield m (set_reg0 (pos 0) uctxt)
