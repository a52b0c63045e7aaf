-- ===== src/Calls/Family.antt =====
-- syscalls.c: the calls that make a process, wait for one, and replace its program.
use sasha_jakob.Base.{
  ℕ, ◌==◌, if◌then◌else◌, not, Bool, true, false, Option, List, ℤ, pos, eq_ℤ, error, truthy, some,
  and_then, when, pure, fault, ◌>>=◌, ◌>>◌,
}
use sasha_jakob.Links.{null, put, drop_cell, list_is_empty}
use sasha_jakob.Kernel.{
  K, Machine, Pcb, Pte, UserContext, process_default, get, load_pcb, modify_pcb, on_links,
  store_int, children, free_pcb,
}
use sasha_jakob.Process.Queue.{add_to_ready_queue, add_to_blocked_queue, remove_from_zombie_queue}
use sasha_jakob.Process.Family.{create_pcb, add_child}
use sasha_jakob.Process.Scan.{find_zombie_child}
use sasha_jakob.Process.Exit.{set_reg0, address}
use sasha_jakob.Memory.{initialize_kernel_stack}
use sasha_jakob.Switch.{kc_copy, copy_page_table}
use sasha_jakob.Calls.Schedule.{schedule, yield}

-- What the allocations of SysFork return: `malloc` for the PCB and what that memory held, whether
-- `calloc` gives a page table, the new pid, and `malloc` for the table of the kernel stack. `width` is
-- two to the number of bits of a field for a frame.
pub record Allocations : Type 0 where
  pub fresh : ℕ
  pub old : Pcb
  pub got_table : Bool
  pub pid : ℤ
  pub stack_memory : Option (List Pte)
  pub width : ℕ

-- The call that makes the child, in the parent.
fork_child : Machine → Allocations → UserContext → (parent : ℕ) → K UserContext
unfolding create_pcb add_child copy_page_table initialize_kernel_stack kc_copy add_to_ready_queue
fork_child m new uctxt parent = do
  child ← create_pcb m.hw new.fresh new.old new.got_table new.pid
  add_child parent child
  modify_pcb child (λ v. record v { should_fork = false })
  modify_pcb child (λ v. record v { user_context = uctxt })
  copy_page_table m new.width parent child
  table ← initialize_kernel_stack m.hw new.stack_memory
  modify_pcb child (λ v. record v { kernel_stack = table })
  rc ← m.context_switch (kc_copy m child)
  if eq_ℤ rc error
      then fault
      else do add_to_ready_queue child; v ← load_pcb child; pure (set_reg0 v.pid uctxt)

unfoldable pub sys_fork : Machine → Allocations → UserContext → K UserContext
unfolding fork_child
sys_fork m new uctxt = do
  current ← get (λ k. k.current_process)
  v ← load_pcb current
  if v.should_fork then fork_child m new uctxt current else do
    modify_pcb current (λ w. record w { should_fork = true })
    pure (set_reg0 (pos 0) uctxt)

-- `load_program` is LoadProgram on the two addresses in the registers.
unfoldable pub sys_exec :
    (load_program : (name args : ℕ) → (process : ℕ) → K ℤ) → UserContext → K UserContext
sys_exec load_program uctxt = do
  current ← get (λ k. k.current_process)
  load_program (address (uctxt.regs 0)) (address (uctxt.regs 1)) current
  after ← get (λ k. k.current_process)
  v ← load_pcb after
  pure v.user_context

-- `malloc(sizeof(int))`: a variable whose value was `old`.
abbrev map_int : (a : ℕ) (old : ℤ) → K (Unit {0})
map_int a old k = if a == null then pure tt k else pure tt (record k { ints = put k.ints a old })

abbrev load_int : ℕ → K ℤ
load_int a k = and_then (k.ints a) λ v. some (v, k)

abbrev free_int : ℕ → K (Unit {0})
free_int a k = if a == null then pure tt k else pure tt (record k { ints = drop_cell k.ints a })

-- A parent with no zombie child waits; `kstatus` is what `malloc` returns, and `old` its contents. The
-- register holds the address as an `int`.
wait_blocked : Machine → (kstatus : ℕ) (old : ℤ) → UserContext → (current : ℕ) → K UserContext
unfolding schedule add_to_blocked_queue
wait_blocked m kstatus old uctxt current = do
  modify_pcb current (λ v. record v { state = process_default })
  map_int kstatus old
  modify_pcb current (λ v. record v { waiting_for_children = pos 1 })
  add_to_blocked_queue current
  yield m (set_reg0 (pos kstatus) uctxt)

-- The zombie child's status and pid are handed out, and its PCB is given back.
wait_collect : (child status : ℕ) → UserContext → K UserContext
unfolding remove_from_zombie_queue
wait_collect child status uctxt = do
  remove_from_zombie_queue child
  v ← load_pcb child
  when (not (status == null)) (store_int status v.exit_code)
  w ← load_pcb child
  free_pcb child
  pure (set_reg0 w.pid uctxt)

unfoldable pub sys_wait : Machine → (kstatus : ℕ) (old : ℤ) → UserContext → K UserContext
unfolding wait_blocked wait_collect find_zombie_child
sys_wait m kstatus old uctxt = do
  current ← get (λ k. k.current_process)
  empty ← on_links (list_is_empty (children current))
  if truthy empty then pure (set_reg0 error uctxt) else do
    zombie ← find_zombie_child current
    if zombie == null
        then wait_blocked m kstatus old uctxt current
        else wait_collect zombie (address (uctxt.regs 0)) uctxt

-- The status is copied to the caller's variable, which the pointer `status` names.
unfoldable pub wait_resumed : (status kstatus : ℕ) → UserContext → K UserContext
wait_resumed status kstatus uctxt = do
  v ← load_int kstatus
  store_int status v
  free_int kstatus
  pure uctxt
