-- ===== src/Process/Scan.antt =====
-- pcb.c: the functions that walk over a queue of processes.
pub mod Delay
pub mod Search
pub mod Ticks
pub mod Wakeup
use sasha_jakob.Base.{
  ℕ, zero, suc, ◌==◌, if◌then◌else◌, ℤ, pos, negsuc, eq_ℤ, pred_ℤ, truthy, when, pure, fault, ◌>>=◌,
  ◌>>◌,
}
use sasha_jakob.Links.{null, rounds, list_is_empty, peek, load_next, load_count}
use sasha_jakob.Kernel.{
  K, process_zombie, get, load_pcb, modify_pcb, on_links, same_state, children, pcb_from_queue_node,
  pcb_from_children_node, free_pcb,
}
use sasha_jakob.Process.Queue.{
  add_to_ready_queue, remove_from_delay_queue, remove_from_zombie_queue,
}

-- `len - c` rounds are left.
zombie_loop : (left curr : ℕ) → K ℕ
zombie_loop zero curr = pure null
zombie_loop (suc left) curr = do
  v ← load_pcb (pcb_from_children_node curr)
  if same_state v.state process_zombie
      then pure (pcb_from_children_node curr)
      else do following ← on_links (load_next curr); zombie_loop left following

-- The rounds of `while (c < len)` from `c = 0`.
abbrev pub up_to : ℤ → ℕ
up_to (pos n) = n
up_to (negsuc n) = 0

unfoldable pub find_zombie_child : ℕ → K ℕ
unfolding zombie_loop
find_zombie_child process = if process == null then pure null else do
  empty ← on_links (list_is_empty (children process))
  if truthy empty then pure null else do
    len ← on_links (load_count (children process))
    curr ← on_links (peek (children process))
    zombie_loop (up_to len) curr

-- One process's tick.
pub tick : ℕ → K (Unit {0})
tick process = do
  modify_pcb process (λ v. record v { delay_ticks = pred_ℤ v.delay_ticks })
  v ← load_pcb process
  when (eq_ℤ v.delay_ticks (pos 0)) (remove_from_delay_queue process >> add_to_ready_queue process)

pub delay_loop : ℕ → (head curr : ℕ) → K (Unit {0})
delay_loop zero head curr = fault
delay_loop (suc fuel) head curr = if curr == head then pure tt else do
  following ← on_links (load_next curr)
  tick (pcb_from_queue_node curr)
  delay_loop fuel head following

unfoldable pub update_delayed_processes : K (Unit {0})
unfolding delay_loop tick
update_delayed_processes = do
  head ← get (λ k. k.delay_queue)
  empty ← on_links (list_is_empty head)
  if truthy empty then pure tt else do
    c ← on_links (load_count head)
    curr ← on_links (load_next head)
    delay_loop (rounds c) head curr

-- A zombie with no parent is taken out and given back.
reap : ℕ → K (Unit {0})
reap process = do
  v ← load_pcb process
  when (v.parent == null) (remove_from_zombie_queue process >> free_pcb process)

reap_loop : ℕ → (head curr : ℕ) → K (Unit {0})
reap_loop zero head curr = fault
reap_loop (suc fuel) head curr = if curr == head then pure tt else do
  following ← on_links (load_next curr)
  reap (pcb_from_queue_node curr)
  reap_loop fuel head following

unfoldable pub check_zombies : K (Unit {0})
unfolding reap_loop reap
check_zombies = do
  head ← get (λ k. k.zombie_queue)
  empty ← on_links (list_is_empty head)
  if truthy empty then pure tt else do
    c ← on_links (load_count head)
    curr ← on_links (peek head)
    reap_loop (rounds c) head curr

pid_loop : ℕ → ℤ → (head curr : ℕ) → K ℕ
pid_loop zero pid head curr = fault
pid_loop (suc fuel) pid head curr = if curr == head then pure null else do
  v ← load_pcb (pcb_from_queue_node curr)
  if eq_ℤ pid v.pid
      then pure (pcb_from_queue_node curr)
      else do following ← on_links (load_next curr); pid_loop fuel pid head following

unfoldable pub list_contains_pid : ℕ → ℤ → K ℕ
unfolding pid_loop
list_contains_pid list pid = if list == null then pure null else do
  empty ← on_links (list_is_empty list)
  if truthy empty then pure null else do
    c ← on_links (load_count list)
    curr ← on_links (load_next list)
    pid_loop (rounds c) pid list curr
