-- ===== src/Process/Queue.antt =====
-- pcb.c: the queues that a process waits in. Each function tests the process's state first.
pub mod Placed
pub mod Moves
pub mod Leave
pub mod Each
use sasha_jakob.Base.{
  ℕ, ℤ, Bool, ◌||◌, not, ◌==◌, if◌then◌else◌, eq_ℤ, error, pos, pure, ◌>>=◌, ◌>>◌,
}
use sasha_jakob.Links.{null, create_list, insert_tail, list_remove}
use sasha_jakob.Kernel.{
  Kernel, K, ProcessState, process_default, process_ready, process_delayed, process_blocked,
  process_zombie, Pcb, get, load_pcb, modify_pcb, on_links, same_state, queue_node,
}

-- The arguments are what the four calls of `malloc` in `create_list` return.
unfoldable pub init_pcb_system : (a b c d : ℕ) → K ℤ
init_pcb_system a b c d = do
  ready ← on_links (create_list a)
  (λ k. pure tt (record k { ready_queue = ready }))
  delay ← on_links (create_list b)
  (λ k. pure tt (record k { delay_queue = delay }))
  blocked ← on_links (create_list c)
  (λ k. pure tt (record k { blocked_queue = blocked }))
  zombie ← on_links (create_list d)
  (λ k. pure tt (record k { zombie_queue = zombie }))
  if ready == null || delay == null || zombie == null || blocked == null
      then pure error
      else pure (pos 0)

-- What the four `add_to_…` functions do once the state is known to be PROCESS_DEFAULT.
enter : (Kernel → ℕ) → ProcessState → (Pcb → Pcb) → ℕ → K (Unit {0})
enter queue st also process = do
  modify_pcb process (λ v. also (record v { state = st }))
  q ← get queue
  on_links (insert_tail q (queue_node process))

unfoldable pub add_to_ready_queue : ℕ → K (Unit {0})
unfolding enter
add_to_ready_queue process = if process == null then pure tt else do
  v ← load_pcb process
  if not (same_state v.state process_default)
      then pure tt
      else enter (λ k. k.ready_queue) process_ready (λ w. w) process

unfoldable pub add_to_delay_queue : ℕ → ℤ → K (Unit {0})
unfolding enter
add_to_delay_queue process ticks = if process == null then pure tt else do
  v ← load_pcb process
  if not (same_state v.state process_default)
      then pure tt
      else enter (λ k. k.delay_queue) process_delayed (λ w. record w { delay_ticks = ticks })
          process

unfoldable pub add_to_zombie_queue : ℕ → K (Unit {0})
unfolding enter
add_to_zombie_queue process = if process == null then pure tt else do
  v ← load_pcb process
  if not (same_state v.state process_default)
      then pure tt
      else enter (λ k. k.zombie_queue) process_zombie (λ w. w) process

unfoldable pub add_to_blocked_queue : ℕ → K (Unit {0})
unfolding enter
add_to_blocked_queue process = if process == null then pure tt else do
  v ← load_pcb process
  if not (same_state v.state process_default)
      then pure tt
      else enter (λ k. k.blocked_queue) process_blocked (λ w. w) process

-- What the four `remove_from_…` functions do once the state is known to be the queue's.
leave : (Kernel → ℕ) → ℕ → K (Unit {0})
leave queue process = do
  modify_pcb process (λ v. record v { state = process_default })
  q ← get queue
  on_links (list_remove q (queue_node process))

unfoldable pub remove_from_ready_queue : ℕ → K (Unit {0})
unfolding leave
remove_from_ready_queue process = if process == null then pure tt else do
  v ← load_pcb process
  if not (same_state v.state process_ready) then pure tt else leave (λ k. k.ready_queue) process

unfoldable pub remove_from_delay_queue : ℕ → K (Unit {0})
unfolding leave
remove_from_delay_queue process = if process == null then pure tt else do
  v ← load_pcb process
  if not (same_state v.state process_delayed) then pure tt else leave (λ k. k.delay_queue) process

unfoldable pub remove_from_zombie_queue : ℕ → K (Unit {0})
unfolding leave
remove_from_zombie_queue process = if process == null then pure tt else do
  v ← load_pcb process
  if not (same_state v.state process_zombie) then pure tt else leave (λ k. k.zombie_queue) process

unfoldable pub remove_from_blocked_queue : ℕ → K (Unit {0})
unfolding leave
remove_from_blocked_queue process = if process == null then pure tt else do
  v ← load_pcb process
  if not (same_state v.state process_blocked) then pure tt else leave (λ k. k.blocked_queue) process
