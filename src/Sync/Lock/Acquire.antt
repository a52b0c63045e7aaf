-- ===== src/Sync/Lock/Acquire.antt =====
-- SyncLockAcquire against the specification of a lock.
use mathlib.Core.List.{map-append}
use sasha_jakob.Base.{
  ℕ, ◌≡◌, ◌≢◌, refl, true, false, some, List, [], ◌∷◌, ◌++◌, arith, ◌==◌, if◌then◌else◌, has-append,
  pos, success, ==-refl, ==-ne, ℕ_discrete, sym,
}
use sasha_jakob.Links.{put, put-put, null}
use sasha_jakob.Links.Heap.{update, IsFree, insert_tail-Holds}
use sasha_jakob.Kernel.{Kernel, Pcb, lock, process_running, process_blocked, queue_node, waiters}
use sasha_jakob.Process.Queue.Placed.{Inv, Inv-same}
use sasha_jakob.Process.Queue.Moves.{moved, enter-Inv, now_last}
use sasha_jakob.Sync.Table.{pcb_blocked}
use sasha_jakob.Sync.Table.Names.{Names, get_check_sync-Names}
use sasha_jakob.Sync.Lock.{sync_lock_acquire}
use sasha_jakob.Sync.Lock.Spec.{LockSpec, acquire, View, Steps}

module _ (k : Kernel) (lists : List ℕ) (c : ℕ → List ℕ) (inv : Inv k lists c) (id sync o : ℕ)
    (names : Names k id sync lock o) (a : LockSpec) (view : View k lists c o a) (v : Pcb)
    (real : k.current_process ≢ null) (here : k.pcbs k.current_process ≡ some v)
    (running : v.state ≡ process_running) where
  acquire_free :
      a.holder ≡ null
      → Steps lists o
          (record a { holder = k.current_process })
          success
          (sync_lock_acquire (pos id) k)
  unfolding sync_lock_acquire
  acquire_free free =
      let unlocked : k.locks o ≡ some (record { locked = false; owner = a.holder }) =
        ground (arith, view.object, free) in
      let k' : Kernel = record k {
        locks =
            put (put k.locks o (record { locked = true; owner = a.holder })) o
              (record { locked = true; owner = k.current_process });
      } in
      (
        success,
        k',
        ground (arith, get_check_sync-Names lock names, names.object, unlocked),
        (
          refl,
          (
            c,
            Inv-same inv (record { ready = refl; delay = refl; blocked = refl; zombie = refl }) refl
                refl,
            record {
              object = ground arith;
              listed = view.listed;
              waits = view.waits;
              ne_ready = view.ne_ready;
              ne_delay = view.ne_delay;
              ne_zombie = view.ne_zombie;
              alive = view.alive;
            },
          ),
        ),
      )

  acquire_held :
      a.holder ≢ null
      → Steps lists o
          (record a { queue = a.queue ++ k.current_process ∷ [] })
          pcb_blocked
          (sync_lock_acquire (pos id) k)
  unfolding sync_lock_acquire
  acquire_held held =
      let p = k.current_process in
      let w = waiters o in
      let locked : k.locks o ≡ some (record { locked = true; owner = a.holder }) =
        ground (arith, view.object, held) in
      let free : IsFree lists c (queue_node p) =
        (inv.heads p, rw running at (inv.placed p v here)) in
      let (_, s', run, (holds, keeps)) =
        insert_tail-Holds inv.holds w view.listed (queue_node p) (inv.nodes p v here) free in
      let u : Pcb = record v { state = process_blocked; waiting_lock_id = pos id } in
      let k' : Kernel = record k {
        links = s';
        pcbs = put (put k.pcbs p (record v { state = process_blocked })) p u;
      } in
      let inv' : Inv (moved k s' p u) lists (update c w (c w ++ queue_node p ∷ [])) =
        enter-Inv k lists c inv p v here w u s' view.listed holds keeps (
          w,
          view.listed,
          now_last k lists c inv p v here w,
          view.ne_ready,
          view.ne_delay,
          view.ne_zombie,
        ) in
      (
        pcb_blocked,
        k',
        ground (arith, get_check_sync-Names lock names, names.object, locked, here, run),
        (
          refl,
          (
            update c w (c w ++ queue_node p ∷ []),
            Inv-same inv' (record { ready = refl; delay = refl; blocked = refl; zombie = refl })
                refl (put-put k.pcbs p (record v { state = process_blocked }) u),
            record {
              object = view.object;
              listed = view.listed;
              waits = rw (==-refl w, view.waits) (sym (map-append queue_node a.queue (p ∷ [])));
              ne_ready = view.ne_ready;
              ne_delay = view.ne_delay;
              ne_zombie = view.ne_zombie;
              alive = λ q i. ground (arith, has-append q a.queue (p ∷ []), view.alive q, here);
            },
          ),
        ),
      )

  -- SyncLockAcquire takes a free lock for the current process and returns SUCCESS; on a held lock the
  -- process is queued behind those that wait, is blocked, and PCB_BLOCKED is returned.
  pub acquire_refines :
      Steps lists o
        (acquire k.current_process a)
        (if a.holder == null then success else pcb_blocked)
        (sync_lock_acquire (pos id) k)
  unfolding acquire
  acquire_refines = elim (ℕ_discrete a.holder null) [
    | yes free ↦ rw (free) (acquire_free free)
    | no held ↦ rw (==-ne a.holder null held) (acquire_held held)
  ]
