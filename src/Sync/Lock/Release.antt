-- ===== src/Sync/Lock/Release.antt =====
-- SyncLockRelease against the specification of a lock.
use sasha_jakob.Sync.Waits.{first_of}
use sasha_jakob.Base.{
  Ends, ◌++◌, map, sym, ℕ, ◌≡◌, ◌≢◌, refl, true, false, none, some, List, arith, ◌==◌, is_some,
  Option-some, pos, error, success, ==-refl, ==-ne, ◌∙◌,
}
use sasha_jakob.Links.{null}
use sasha_jakob.Kernel.{queue_node, Kernel, lock}
use sasha_jakob.Process.Queue.Placed.{Inv}
use sasha_jakob.Sync.Table.Names.{Names, get_check_sync-Names}
use sasha_jakob.Sync.Lock.{sync_lock_release}
use sasha_jakob.Sync.Lock.Spec.{LockSpec, release, View}
use sasha_jakob.Sync.Lock.HandOver.{hand_over_lem}

module _ (k : Kernel) (lists : List ℕ) (c : ℕ → List ℕ) (inv : Inv k lists c) (id sync o : ℕ)
    (names : Names k id sync lock o) (a : LockSpec) (view : View k lists c o a) where
  -- The owner's SyncLockRelease returns SUCCESS and gives the lock to the process that has waited
  -- longest, which goes to the end of the ready queue, or leaves it free when none waits. The
  -- invariant holds after it.
  pub release_refines :
      a.holder ≢ null
      → a.holder ≡ k.current_process
      → Ends (sync_lock_release (pos id) k) λ rc k'.
        (rc ≡ success)
        × ((c' : ℕ → List ℕ) × Inv k' lists c'
            × View k' lists c' o (release a)
            × (c' k.ready_queue ≡ c k.ready_queue ++ map queue_node (first_of a.queue)))
  unfolding sync_lock_release
  release_refines held mine =
      let (_, k', run, (c', inv', view', _, _, _, _, _, readied)) =
        hand_over_lem k lists c inv o a view held in
      let same : a.holder == k.current_process ≡ true = rw mine (==-refl k.current_process) in
      (
        success,
        k',
        ground (arith, get_check_sync-Names lock names, names.object, view.object, same, run),
        (refl, (c', inv', view', readied)),
      )

  -- SyncLockRelease by a process that does not own the lock returns ERROR and changes nothing, where
  -- the owner has a PCB.
  release_refused :
      a.holder ≢ k.current_process
      → is_some (k.pcbs k.current_process) ≡ true
      → is_some (k.pcbs a.holder) ≡ true
      → sync_lock_release (pos id) k ≡ some (error, k)
  unfolding sync_lock_release
  release_refused other here there =
      let differ : a.holder == k.current_process ≡ false = ==-ne a.holder k.current_process other in
      let (u, at_here) = Option-some (k.pcbs k.current_process) here in
      let (v, at_holder) = Option-some (k.pcbs a.holder) there in
      ground (
        arith,
        get_check_sync-Names lock names,
        names.object,
        view.object,
        differ,
        at_here,
        at_holder,
      )

  -- SyncLockRelease of a lock that no process holds follows the owner's NULL pointer and faults.
  pub release_free :
      a.holder ≡ null
      → k.current_process ≢ null
      → k.pcbs null ≡ none
      → sync_lock_release (pos id) k ≡ none
  unfolding sync_lock_release
  release_free free real gone =
      let differ : a.holder == k.current_process ≡ false =
        ==-ne a.holder k.current_process (λ e. real (sym e ∙ free)) in
      let at_holder : k.pcbs a.holder ≡ none = rw free gone in
      ground (arith, get_check_sync-Names lock names, names.object, view.object, differ, at_holder)
