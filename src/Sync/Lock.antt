-- ===== src/Sync/Lock.antt =====
-- sync.c: locks.
pub mod Spec
pub mod Acquire
pub mod HandOver
pub mod Release
pub mod Codes
use sasha_jakob.Base.{
  ℕ, Bool, true, false, Option, none, some, ◌||◌, not, ◌==◌, if◌then◌else◌, leb, ltb, ℤ, pos,
  negsuc, eq_ℤ, ltb_ℤ, error, success, pure, fault, ◌>>=◌, ◌>>◌,
}
use sasha_jakob.Links.{null, put, map_list, list_init, insert_tail, pop, load_count}
use sasha_jakob.Kernel.{
  Kernel, K, Pcb, Lock, SyncType, lock, process_default, process_blocked, get, load_pcb, modify_pcb,
  load_sync, load_lock, modify_lock, on_links, store_int, queue_node, pcb_from_queue_node, waiters,
}
use sasha_jakob.Process.Queue.{add_to_ready_queue}
use sasha_jakob.Sync.Table.{max_syncs, pcb_blocked, get_check_sync, init_sync_object, free_lock}

-- `global_sync_counter >= MAX_SYNCS`.
abbrev pub table_full : Kernel → Bool
table_full k = not (ltb_ℤ k.global_sync_counter (pos max_syncs))

-- `malloc(sizeof(lock_t))`; the fields are not determined until they are written.
new_lock : ℕ → K (Unit {0})
new_lock o k =
    if o == null
    then none
    else pure tt (record k {
      locks = put k.locks o (record { locked = true; owner = null });
      links = map_list (waiters o) k.links;
    })

-- `fresh` and `fresh_sync` are what `malloc` returns for the lock and for its sync object.
unfoldable pub sync_init_lock : (lock_idp fresh fresh_sync : ℕ) → K ℤ
unfolding new_lock
sync_init_lock lock_idp fresh fresh_sync = do
  full ← get table_full
  if full then pure error else do
    new_lock fresh
    modify_lock fresh (λ v. record v { locked = false })
    modify_lock fresh (λ v. record v { owner = null })
    on_links (list_init (waiters fresh))
    rc ← init_sync_object lock fresh fresh_sync
    if eq_ℤ rc error
        then (free_lock fresh >> pure error)
        else do store_int lock_idp rc; pure success

-- The current process waits in a list, with its state set.
acquire_object : ℤ → ℕ → K ℤ
acquire_object lock_id o = do
  l ← load_lock o
  current ← get (λ k. k.current_process)
  if not l.locked
      then (do
        modify_lock o (λ v. record v { locked = true })
        modify_lock o (λ v. record v { owner = current })
        pure success)
      else do
        on_links (insert_tail (waiters o) (queue_node current))
        modify_pcb current (λ v. record v { state = process_blocked })
        modify_pcb current (λ v. record v { waiting_lock_id = lock_id })
        pure pcb_blocked

unfoldable pub sync_lock_acquire : ℤ → K ℤ
unfolding acquire_object
sync_lock_acquire lock_id = do
  found ← get_check_sync lock_id lock
  elim found [
    | none ↦ pure error
    | some sync ↦ do v ← load_sync sync; acquire_object lock_id v.object
  ]

-- The lock goes to the first process that waits for it, or becomes free.
unfoldable pub hand_over : ℕ → K (Unit {0})
hand_over o = do
  c ← on_links (load_count (waiters o))
  if not (eq_ℤ c (pos 0))
      then (do
        node ← on_links (pop (waiters o))
        modify_pcb (pcb_from_queue_node node) (λ v. record v { state = process_default })
        modify_pcb (pcb_from_queue_node node) (λ v. record v { waiting_lock_id = negsuc 0 })
        add_to_ready_queue (pcb_from_queue_node node)
        modify_lock o (λ v. record v { owner = pcb_from_queue_node node }))
      else do
        modify_lock o (λ v. record v { locked = false })
        modify_lock o (λ v. record v { owner = null })

-- What is done with the lock of which the current process must be the owner. The message that it is
-- not reads the owner's pid.
unfoldable pub as_owner : ℕ → K ℤ → K ℤ
as_owner o rest = do
  l ← load_lock o
  curr ← get (λ k. k.current_process)
  if l.owner == curr then rest else do load_pcb l.owner; load_pcb curr; pure error

unfoldable pub sync_lock_release : ℤ → K ℤ
unfolding as_owner
sync_lock_release lock_id = do
  found ← get_check_sync lock_id lock
  elim found [
    | none ↦ pure error
    | some sync ↦ do v ← load_sync sync; as_owner v.object (hand_over v.object >> pure success)
  ]
