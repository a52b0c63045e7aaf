-- ===== src/Sync/Lock/Codes.antt =====
-- sync.c: the results of SyncLockAcquire, as the callers compare them.
use sasha_jakob.Base.{ℕ, ◌≡◌, arith, none, some, false, inl, inr, Option-cases, ℤ, pos, eq_ℤ}
use sasha_jakob.Kernel.{Kernel, process_blocked, state_code, lock}
use sasha_jakob.Sync.Table.{get_check_sync}
use sasha_jakob.Sync.Lock.{sync_lock_acquire, acquire_object}

-- The result is not the number of PROCESS_BLOCKED.
abbrev pub NotState : ℤ → Type 0
NotState a = eq_ℤ a (pos (state_code process_blocked)) ≡ false

acquire_object-NotState :
    (id : ℤ) (o : ℕ) (k k' : Kernel) (a : ℤ) → acquire_object id o k ≡ some (a, k') → NotState a
unfolding acquire_object
acquire_object-NotState id o k k' a e = ground (arith, e)

-- SyncLockAcquire never returns the number of PROCESS_BLOCKED.
pub sync_lock_acquire-NotState :
    (id : ℤ) (k k' : Kernel) (a : ℤ) → sync_lock_acquire id k ≡ some (a, k') → NotState a
unfolding sync_lock_acquire
sync_lock_acquire-NotState id k k' a e = elim (Option-cases (get_check_sync id lock k)) [
  | inl stops ↦ cc (rw stops at e)
  | inr ((none, s), run) ↦ ground (arith, e, run)
  | inr ((some sync, s), run) ↦ elim (Option-cases (s.sync_objs sync)) [
    | inl stops ↦ cc (rw (run, stops) at e)
    | inr (v, at) ↦ acquire_object-NotState id v.object s k' a (rw (run, at) at e)
  ]
]
