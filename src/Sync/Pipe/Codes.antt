-- ===== src/Sync/Pipe/Codes.antt =====
-- sync.c: the results of SyncReadPipe and SyncWritePipe, as the callers compare them.
use sasha_jakob.Base.{ℕ, ◌≡◌, arith, none, some, inl, inr, Option-cases, ℤ}
use sasha_jakob.Kernel.{Kernel, Hardware, pipe}
use sasha_jakob.Sync.Table.{get_check_sync}
use sasha_jakob.Sync.Lock.Codes.{NotState}
use sasha_jakob.Sync.Pipe.{sync_read_pipe, sync_write_pipe, read_object, write_object}

read_object-NotState :
    (hw : Hardware) (id : ℤ) (o buf : ℕ) (len : ℤ) (k k' : Kernel) (a : ℤ)
    → read_object hw id o buf len k ≡ some (a, k')
    → NotState a
unfolding read_object
read_object-NotState hw id o buf len k k' a e = ground (arith, e)

write_object-NotState :
    (hw : Hardware) (id : ℤ) (o buf : ℕ) (len : ℤ) (k k' : Kernel) (a : ℤ)
    → write_object hw id o buf len k ≡ some (a, k')
    → NotState a
unfolding write_object
write_object-NotState hw id o buf len k k' a e = ground (arith, e)

-- SyncReadPipe never returns the number of PROCESS_BLOCKED.
pub sync_read_pipe-NotState :
    (hw : Hardware) (id : ℤ) (buf : ℕ) (len : ℤ) (k k' : Kernel) (a : ℤ)
    → sync_read_pipe hw id buf len k ≡ some (a, k')
    → NotState a
unfolding sync_read_pipe
sync_read_pipe-NotState hw id buf len k k' a e = elim (Option-cases (get_check_sync id pipe k)) [
  | inl stops ↦ cc (rw stops at e)
  | inr ((none, s), run) ↦ ground (arith, e, run)
  | inr ((some sync, s), run) ↦ elim (Option-cases (s.sync_objs sync)) [
    | inl stops ↦ cc (rw (run, stops) at e)
    | inr (v, at) ↦ read_object-NotState hw id v.object buf len s k' a (rw (run, at) at e)
  ]
]

-- SyncWritePipe never returns the number of PROCESS_BLOCKED.
pub sync_write_pipe-NotState :
    (hw : Hardware) (id : ℤ) (buf : ℕ) (len : ℤ) (k k' : Kernel) (a : ℤ)
    → sync_write_pipe hw id buf len k ≡ some (a, k')
    → NotState a
unfolding sync_write_pipe
sync_write_pipe-NotState hw id buf len k k' a e = elim (Option-cases (get_check_sync id pipe k)) [
  | inl stops ↦ cc (rw stops at e)
  | inr ((none, s), run) ↦ ground (arith, e, run)
  | inr ((some sync, s), run) ↦ elim (Option-cases (s.sync_objs sync)) [
    | inl stops ↦ cc (rw (run, stops) at e)
    | inr (v, at) ↦ write_object-NotState hw id v.object buf len s k' a (rw (run, at) at e)
  ]
]
