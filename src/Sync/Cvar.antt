-- ===== src/Sync/Cvar.antt =====
-- sync.c: condition variables.
pub mod Wakes
pub mod Wait
pub mod OneId
use sasha_jakob.Base.{
  ℕ, zero, suc, none, some, ◌==◌, if◌then◌else◌, ℤ, pos, negsuc, eq_ℤ, error, success, and_then,
  pure, fault, ◌>>=◌, ◌>>◌,
}
use sasha_jakob.Links.{null, put, map_list, rounds, list_init, insert_tail, pop, load_count}
use sasha_jakob.Kernel.{
  K, lock, cvar, process_default, process_blocked, get, modify_pcb, load_sync, on_links, store_int,
  queue_node, pcb_from_queue_node, waiters,
}
use sasha_jakob.Process.Queue.{add_to_ready_queue}
use sasha_jakob.Sync.Table.{pcb_blocked, get_check_sync, init_sync_object, free_cvar}
use sasha_jakob.Sync.Lock.{table_full, as_owner, hand_over}

-- `malloc(sizeof(cvar_t))`.
new_cvar : ℕ → K (Unit {0})
new_cvar o k =
    if o == null
    then none
    else pure tt (record k { cvars = put k.cvars o tt; links = map_list (waiters o) k.links })

-- `fresh` and `fresh_sync` are what `malloc` returns for the cvar and for its sync object.
unfoldable pub sync_init_cvar : (lock_idp fresh fresh_sync : ℕ) → K ℤ
unfolding new_cvar
sync_init_cvar lock_idp fresh fresh_sync = do
  full ← get table_full
  if full then pure error else do
    new_cvar fresh
    on_links (list_init (waiters fresh))
    rc ← init_sync_object cvar fresh fresh_sync
    if eq_ℤ rc error
        then (free_cvar fresh >> pure error)
        else do store_int lock_idp rc; pure success

-- `&cvar->waiters` of an object that is a cvar; of any other object the access is a fault.
cvar_waiters : ℕ → K ℕ
cvar_waiters o k = and_then (k.cvars o) λ _. some (waiters o, k)

-- The current process waits for the condition variable.
wait_on : ℤ → ℕ → K ℤ
wait_on cvar_id list = do
  curr ← get (λ k. k.current_process)
  on_links (insert_tail list (queue_node curr))
  modify_pcb curr (λ v. record v { waiting_cvar_id = cvar_id })
  modify_pcb curr (λ v. record v { state = process_blocked })
  pure pcb_blocked

wait_objects : ℤ → (cvar_object lock_object : ℕ) → K ℤ
unfolding cvar_waiters wait_on
wait_objects cvar_id c l = as_owner l do hand_over l; list ← cvar_waiters c; wait_on cvar_id list

unfoldable pub sync_cvar_wait : (cvar_id lock_id : ℤ) → K ℤ
unfolding wait_objects
sync_cvar_wait cvar_id lock_id = do
  found ← get_check_sync cvar_id cvar
  elim found [
    | none ↦ pure error
    | some sync ↦ do
      c ← load_sync sync
      found' ← get_check_sync lock_id lock
      elim found' [
        | none ↦ pure error
        | some sync' ↦ do l ← load_sync sync'; wait_objects cvar_id c.object l.object
      ]
  ]

-- The first process that waits becomes ready.
wake_first : ℕ → K (Unit {0})
wake_first list = do
  node ← on_links (pop list)
  modify_pcb (pcb_from_queue_node node) (λ v. record v { waiting_cvar_id = negsuc 0 })
  modify_pcb (pcb_from_queue_node node) (λ v. record v { state = process_default })
  add_to_ready_queue (pcb_from_queue_node node)

signal_object : ℕ → K ℤ
unfolding wake_first
signal_object list = do
  c ← on_links (load_count list)
  if eq_ℤ c (pos 0) then pure (pos 0) else wake_first list >> pure (pos 0)

unfoldable pub sync_cvar_signal : ℤ → K ℤ
unfolding signal_object cvar_waiters
sync_cvar_signal cvar_id = do
  found ← get_check_sync cvar_id cvar
  elim found [
    | none ↦ pure error
    | some sync ↦ do v ← load_sync sync; list ← cvar_waiters v.object; signal_object list
  ]

wake_loop : ℕ → ℕ → K (Unit {0})
wake_loop zero list = fault
wake_loop (suc fuel) list = do
  c ← on_links (load_count list)
  if eq_ℤ c (pos 0) then pure tt else do wake_first list; wake_loop fuel list

broadcast_object : (unspecified : ℤ) → ℕ → K ℤ
unfolding wake_loop
broadcast_object unspecified list = do
  c ← on_links (load_count list)
  if eq_ℤ c (pos 0) then pure (pos 0) else do wake_loop (rounds c) list; pure unspecified

-- After the loop the code falls off the end of the function, so what it returns there is not
-- determined: it is an argument.
unfoldable pub sync_cvar_broadcast : (unspecified : ℤ) → ℤ → K ℤ
unfolding broadcast_object cvar_waiters wake_first
sync_cvar_broadcast unspecified cvar_id = do
  found ← get_check_sync cvar_id cvar
  elim found [
    | none ↦ pure error
    | some sync ↦ do
      v ← load_sync sync
      list ← cvar_waiters v.object
      broadcast_object unspecified list
  ]
