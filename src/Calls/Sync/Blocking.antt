-- ===== src/Calls/Sync/Blocking.antt =====
-- syscalls.c: the calls that may have to wait compare the result of sync.c with another constant than the
-- one that it returns.
use sasha_jakob.Base.{
  ℕ, ◌≡◌, ◌⊎◌, refl, inl, inr, Option-cases, eq_ℤ, error, none, some, if◌then◌else◌, pure, ◌>>=◌,
  ◌>>◌,
}
use sasha_jakob.Kernel.{Kernel, K, Machine, UserContext}
use sasha_jakob.Process.Exit.{set_reg0, address}
use sasha_jakob.Sync.Lock.{sync_lock_acquire}
use sasha_jakob.Sync.Lock.Codes.{sync_lock_acquire-NotState}
use sasha_jakob.Sync.Pipe.{sync_read_pipe, sync_write_pipe}
use sasha_jakob.Sync.Pipe.Codes.{sync_read_pipe-NotState, sync_write_pipe-NotState}
use sasha_jakob.Sync.Cvar.OneId.{OneKind, sync_cvar_wait-OneKind}
use sasha_jakob.Calls.Sync.{
  sys_cvar_wait, map_bytes, copy_bytes, read_resumed, write_resumed, sys_lock_acquire,
  sys_pipe_read, sys_pipe_write,
}

acquire_stays :
    (m : Machine) (uctxt : UserContext) (k : Kernel)
    → sys_lock_acquire m uctxt k
      ≡ (do rc ← sync_lock_acquire (uctxt.regs 0); pure (set_reg0 rc uctxt)) k
unfolding sys_lock_acquire
acquire_stays m uctxt k = elim (Option-cases (sync_lock_acquire (uctxt.regs 0) k)) [
  | inl stops ↦ rw stops refl
  | inr ((rc, s), run) ↦ rw (run, sync_lock_acquire-NotState (uctxt.regs 0) k s rc run) refl
]

-- What the two calls on pipes do once the kernel's buffer is there, without a switch.
abbrev pub read_at_once : Machine → (kbuf : ℕ) → UserContext → K UserContext
read_at_once m kbuf uctxt = do
  rc ← sync_read_pipe m.hw (uctxt.regs 0) kbuf (uctxt.regs 2)
  if eq_ℤ rc error
      then pure uctxt
      else read_resumed (address (uctxt.regs 1)) kbuf (address (uctxt.regs 2)) uctxt

abbrev pub write_at_once : Machine → (kbuf : ℕ) → UserContext → K UserContext
write_at_once m kbuf uctxt = do
  rc ← sync_write_pipe m.hw (uctxt.regs 0) kbuf (uctxt.regs 2)
  if eq_ℤ rc error then pure uctxt else write_resumed kbuf (address (uctxt.regs 2)) uctxt

read_stays :
    (m : Machine) (kbuf : ℕ) (old : ℕ → ℕ) (uctxt : UserContext) (k : Kernel)
    → sys_pipe_read m kbuf old uctxt k
      ≡ (map_bytes kbuf (address (uctxt.regs 2)) old >> read_at_once m kbuf uctxt) k
unfolding sys_pipe_read
read_stays m kbuf old uctxt k =
    elim (Option-cases (map_bytes kbuf (address (uctxt.regs 2)) old k)) [
      | inl stops ↦ rw stops refl
      | inr ((_, s), mapped) ↦
          elim (Option-cases (sync_read_pipe m.hw (uctxt.regs 0) kbuf (uctxt.regs 2) s)) [
            | inl stops ↦ rw (mapped, stops) refl
            | inr ((rc, s'), run) ↦
                rw
                  (
                    mapped,
                    run,
                    sync_read_pipe-NotState m.hw (uctxt.regs 0) kbuf (uctxt.regs 2) s s' rc run,
                  )
                  refl
          ]
    ]

-- The bytes of the caller, in the kernel's buffer.
abbrev pub write_prepared : (kbuf : ℕ) (old : ℕ → ℕ) → UserContext → K (Unit {0})
write_prepared kbuf old uctxt = do
  map_bytes kbuf (address (uctxt.regs 2)) old
  copy_bytes (address (uctxt.regs 2)) kbuf (address (uctxt.regs 1))

write_stays :
    (m : Machine) (kbuf : ℕ) (old : ℕ → ℕ) (uctxt : UserContext) (k : Kernel)
    → sys_pipe_write m kbuf old uctxt k
      ≡ (write_prepared kbuf old uctxt >> write_at_once m kbuf uctxt) k
unfolding sys_pipe_write
write_stays m kbuf old uctxt k =
    elim (Option-cases (map_bytes kbuf (address (uctxt.regs 2)) old k)) [
      | inl stops ↦ rw stops refl
      | inr ((_, s0), mapped) ↦
          elim (Option-cases
            (copy_bytes (address (uctxt.regs 2)) kbuf (address (uctxt.regs 1)) s0)) [
              | inl stops ↦ rw (mapped, stops) refl
              | inr ((_, s), copied) ↦
                  elim (Option-cases (sync_write_pipe m.hw (uctxt.regs 0) kbuf (uctxt.regs 2) s)) [
                    | inl stops ↦ rw (mapped, copied, stops) refl
                    | inr ((rc, s'), run) ↦
                        rw
                          (
                            mapped,
                            copied,
                            run,
                            sync_write_pipe-NotState m.hw (uctxt.regs 0) kbuf (uctxt.regs 2) s s' rc
                                run,
                          )
                          refl
                  ]
            ]
    ]

-- The calls that acquire a lock, read from a pipe and write to one never switch to another process, not
-- even where sync.c has made the caller wait: each is what it is without its branch for that. So the
-- caller of a held lock goes on with the result of SyncLockAcquire in its first register, and the calls on pipes
-- give back the context that they were given.
pub blocking_calls-stay :
    (m : Machine) (kbuf : ℕ) (old : ℕ → ℕ) (uctxt : UserContext) (k : Kernel)
    → (sys_lock_acquire m uctxt k
        ≡ (do rc ← sync_lock_acquire (uctxt.regs 0); pure (set_reg0 rc uctxt)) k)
      × (sys_pipe_read m kbuf old uctxt k
          ≡ (map_bytes kbuf (address (uctxt.regs 2)) old >> read_at_once m kbuf uctxt) k)
      × (sys_pipe_write m kbuf old uctxt k
          ≡ (write_prepared kbuf old uctxt >> write_at_once m kbuf uctxt) k)
blocking_calls-stay m kbuf old uctxt k =
    (acquire_stays m uctxt k, read_stays m kbuf old uctxt k, write_stays m kbuf old uctxt k)

-- Where no object is both a lock and a condition variable, SysCvarWait never makes its caller wait, since
-- it takes the first register for both ids: it ends with ERROR in that register and nothing else
-- changed, or it is a fault.
pub sys_cvar_wait-OneKind :
    (m : Machine) (uctxt : UserContext) (k : Kernel)
    → OneKind k
    → (sys_cvar_wait m uctxt k ≡ none) ⊎ (sys_cvar_wait m uctxt k ≡ some (set_reg0 error uctxt, k))
unfolding sys_cvar_wait
sys_cvar_wait-OneKind m uctxt k one = elim (sync_cvar_wait-OneKind (uctxt.regs 0) k one) [
  | inl stops ↦ inl (rw stops refl)
  | inr refused ↦ inr (rw refused refl)
]
