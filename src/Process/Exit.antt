-- ===== src/Process/Exit.antt =====
-- pcb.c: what a process holds is given back, and the process becomes a zombie.
pub mod Freed
use sasha_jakob.Base.{
  ℕ, zero, suc, ◌+◌, ◌-◌, ◌^◌, not, [], ◌==◌, if◌then◌else◌, ℤ, pos, negsuc, truthy, when, pure,
  ◌>>=◌, ◌>>◌,
}
use sasha_jakob.Frames.{free_frame}
use sasha_jakob.Links.{null}
use sasha_jakob.Kernel.{
  K, entry_of, Hardware, UserContext, process_default, process_zombie, process_ready,
  process_delayed, process_blocked, load_pcb, modify_pcb, on_frames, same_state, free_pcb,
  store_int,
}
use sasha_jakob.Process.Queue.{
  add_to_ready_queue, add_to_zombie_queue, remove_from_ready_queue, remove_from_delay_queue,
  remove_from_blocked_queue,
}
use sasha_jakob.Process.Family.{orphan_children}

-- The loop works on a copy of each entry, so the table stays as it is.
userspace_loop : Hardware → (process left i : ℕ) → K (Unit {0})
userspace_loop hw process zero i = pure tt
userspace_loop hw process (suc left) i = do
  v ← load_pcb process
  entry ← entry_of v.region1_pt i
  when (not (entry.valid == 0)) (on_frames (free_frame hw.num_vpn (pos entry.pfn)))
  userspace_loop hw process left (i + 1)

unfoldable pub free_userspace : Hardware → ℕ → K (Unit {0})
unfolding userspace_loop
free_userspace hw proc = if proc == null then pure tt else userspace_loop hw proc hw.max_pt_len 0

stack_loop : Hardware → (process left i : ℕ) → K (Unit {0})
stack_loop hw process zero i = pure tt
stack_loop hw process (suc left) i = do
  v ← load_pcb process
  entry ← entry_of v.kernel_stack i
  on_frames (free_frame hw.num_vpn (pos entry.pfn))
  stack_loop hw process left (i + 1)

unfoldable pub free_process_memory : Hardware → ℕ → K (Unit {0})
unfolding stack_loop
free_process_memory hw proc =
    if proc == null
    then pure tt
    else do free_userspace hw proc; stack_loop hw proc hw.kernel_stack_pages 0

-- The address in a register of 32 bits.
abbrev pub address : ℤ → ℕ
address (pos n) = n
address (negsuc n) = 2 ^ 32 - 1 - n

abbrev pub set_reg0 : ℤ → UserContext → UserContext
set_reg0 z u = record u { regs = λ i. if i == 0 then z else u.regs i }

-- The status and the pid go to a parent that waits.
notify : (parent process : ℕ) → ℤ → K (Unit {0})
notify parent process status = do
  remove_from_blocked_queue parent
  add_to_ready_queue parent
  v ← load_pcb parent
  when (not (address (v.user_context.regs 0) == null))
      (store_int (address (v.user_context.regs 0)) status)
  w ← load_pcb process
  modify_pcb parent (λ u. record u { user_context = set_reg0 w.pid u.user_context })
  free_pcb process

-- The queue that a process is still in, by its state.
dequeue : ℕ → K (Unit {0})
dequeue process = do
  v ← load_pcb process
  if same_state v.state process_zombie
      then pure tt
      else if same_state v.state process_ready
      then remove_from_ready_queue process
      else if same_state v.state process_delayed
      then remove_from_delay_queue process
      else if same_state v.state process_blocked
      then remove_from_blocked_queue process
      else pure tt

-- A parent that waits for its children is told, any other leaves the process a zombie.
hand_in : (process : ℕ) → ℤ → K (Unit {0})
hand_in process status = do
  v ← load_pcb process
  if v.parent == null then add_to_zombie_queue process else do
    parent ← load_pcb v.parent
    if truthy parent.waiting_for_children
        then notify v.parent process status
        else add_to_zombie_queue process

unfoldable pub terminate_process : Hardware → ℕ → ℤ → K (Unit {0})
unfolding notify dequeue hand_in
terminate_process hw process status = if process == null then pure tt else do
  modify_pcb process (λ v. record v { exit_code = status; state = process_default })
  orphan_children process
  free_process_memory hw process
  modify_pcb process (λ v. record v { kernel_stack = []; region1_pt = [] })
  dequeue process
  hand_in process status
