-- ===== src/Calls/Sync.antt =====
-- syscalls.c: the calls on pipes, locks and condition variables.
pub mod Blocking
use sasha_jakob.Base.{
  ℕ, zero, suc, ◌+◌, ◌<◌, Bool, ◌&&◌, ◌==◌, leb, ltb, if◌then◌else◌, none, some, Option, ℤ, pos,
  eq_ℤ, error, success, pure, ◌>>=◌, ◌>>◌,
}
use sasha_jakob.Links.{null}
use sasha_jakob.Kernel.{
  Kernel, K, Machine, UserContext, load_byte, store_byte, process_blocked, state_code,
}
use sasha_jakob.Process.Exit.{set_reg0, address}
use sasha_jakob.Sync.Pipe.{sync_init_pipe, sync_read_pipe, sync_write_pipe}
use sasha_jakob.Sync.Lock.{sync_init_lock, sync_lock_acquire, sync_lock_release}
use sasha_jakob.Sync.Cvar.{sync_init_cvar, sync_cvar_wait, sync_cvar_signal, sync_cvar_broadcast}
use sasha_jakob.Sync.Table.{sync_reclaim}
use sasha_jakob.Calls.Schedule.{schedule, yield}

abbrev in_block : (start size a : ℕ) → Bool
in_block start size a = leb start a && ltb a (start + size)

-- `malloc(size)` returned `a`, and that memory held `old`.
abbrev pub map_bytes : (a size : ℕ) (old : ℕ → ℕ) → K (Unit {0})
map_bytes a size old k =
    if a == null
    then pure tt k
    else pure tt (record k { bytes = λ b. if in_block a size b then some (old b) else k.bytes b })

-- `free` of the block of that size.
abbrev free_bytes : (a size : ℕ) → K (Unit {0})
free_bytes a size k =
    if a == null
    then pure tt k
    else pure tt (record k { bytes = λ b. if in_block a size b then none else k.bytes b })

-- `memcpy(dest, src, size)`.
unfoldable pub copy_bytes : (size dest src : ℕ) → K (Unit {0})
copy_bytes zero dest src = pure tt
copy_bytes (suc size) dest src = do
  b ← load_byte src
  store_byte dest b
  copy_bytes size (dest + 1) (src + 1)

-- The enumerator PROCESS_BLOCKED as an `int`, which the handlers compare a result with.
abbrev pub blocked_code : ℤ
blocked_code = pos (state_code process_blocked)

-- `fresh` and `fresh_sync` are what `malloc` returns for the object and for its sync object.
unfoldable pub sys_pipe_init : Machine → (fresh fresh_sync : ℕ) → UserContext → K UserContext
unfolding sync_init_pipe
sys_pipe_init m fresh fresh_sync uctxt = do
  rc ← sync_init_pipe m.hw (address (uctxt.regs 0)) fresh fresh_sync
  pure (set_reg0 rc uctxt)

-- What is done with the kernel's buffer at the end of a read: it is copied out and given back.
unfoldable pub read_resumed : (buf kbuf size : ℕ) → UserContext → K UserContext
unfolding copy_bytes
read_resumed buf kbuf size uctxt = do copy_bytes size buf kbuf; free_bytes kbuf size; pure uctxt

-- `kbuf` is what `malloc` returns, and `old` its contents; a length is passed as a `size_t`.
unfoldable pub sys_pipe_read : Machine → (kbuf : ℕ) (old : ℕ → ℕ) → UserContext → K UserContext
unfolding sync_read_pipe read_resumed schedule
sys_pipe_read m kbuf old uctxt = do
  map_bytes kbuf (address (uctxt.regs 2)) old
  rc ← sync_read_pipe m.hw (uctxt.regs 0) kbuf (uctxt.regs 2)
  if eq_ℤ rc blocked_code
      then yield m uctxt
      else if eq_ℤ rc error
      then pure uctxt
      else read_resumed (address (uctxt.regs 1)) kbuf (address (uctxt.regs 2)) uctxt

-- The end of a write gives the kernel's buffer back.
unfoldable pub write_resumed : (kbuf size : ℕ) → UserContext → K UserContext
write_resumed kbuf size uctxt = do free_bytes kbuf size; pure uctxt

unfoldable pub sys_pipe_write : Machine → (kbuf : ℕ) (old : ℕ → ℕ) → UserContext → K UserContext
unfolding sync_write_pipe copy_bytes write_resumed schedule
sys_pipe_write m kbuf old uctxt = do
  map_bytes kbuf (address (uctxt.regs 2)) old
  copy_bytes (address (uctxt.regs 2)) kbuf (address (uctxt.regs 1))
  rc ← sync_write_pipe m.hw (uctxt.regs 0) kbuf (uctxt.regs 2)
  if eq_ℤ rc blocked_code
      then yield m uctxt
      else if eq_ℤ rc error
      then pure uctxt
      else write_resumed kbuf (address (uctxt.regs 2)) uctxt

unfoldable pub sys_lock_init : (fresh fresh_sync : ℕ) → UserContext → K UserContext
unfolding sync_init_lock
sys_lock_init fresh fresh_sync uctxt = do
  rc ← sync_init_lock (address (uctxt.regs 0)) fresh fresh_sync
  pure (set_reg0 rc uctxt)

unfoldable pub sys_lock_acquire : Machine → UserContext → K UserContext
unfolding sync_lock_acquire schedule
sys_lock_acquire m uctxt = do
  rc ← sync_lock_acquire (uctxt.regs 0)
  if eq_ℤ rc blocked_code then yield m uctxt else pure (set_reg0 rc uctxt)

unfoldable pub sys_lock_release : UserContext → K UserContext
unfolding sync_lock_release
sys_lock_release uctxt = do rc ← sync_lock_release (uctxt.regs 0); pure (set_reg0 rc uctxt)

unfoldable pub sys_cvar_init : (fresh fresh_sync : ℕ) → UserContext → K UserContext
unfolding sync_init_cvar
sys_cvar_init fresh fresh_sync uctxt = do
  rc ← sync_init_cvar (address (uctxt.regs 0)) fresh fresh_sync
  pure (set_reg0 rc uctxt)

unfoldable pub sys_signal : UserContext → K UserContext
unfolding sync_cvar_signal
sys_signal uctxt = do rc ← sync_cvar_signal (uctxt.regs 0); pure (set_reg0 rc uctxt)

-- `unspecified` is the value of a function that ends without `return`.
unfoldable pub sys_broadcast : (unspecified : ℤ) → UserContext → K UserContext
unfolding sync_cvar_broadcast
sys_broadcast unspecified uctxt = do
  rc ← sync_cvar_broadcast unspecified (uctxt.regs 0)
  pure (set_reg0 rc uctxt)

-- Both ids are read from the first register.
unfoldable pub sys_cvar_wait : Machine → UserContext → K UserContext
unfolding sync_cvar_wait schedule
sys_cvar_wait m uctxt = do
  rc ← sync_cvar_wait (uctxt.regs 0) (uctxt.regs 0)
  if eq_ℤ rc error then pure (set_reg0 error uctxt) else yield m uctxt

unfoldable pub cvar_resumed : (lock_id : ℤ) → UserContext → K UserContext
unfolding sync_lock_acquire
cvar_resumed lock_id uctxt = do sync_lock_acquire lock_id; pure (set_reg0 success uctxt)

unfoldable pub sys_reclaim : UserContext → K UserContext
unfolding sync_reclaim
sys_reclaim uctxt = do rc ← sync_reclaim (uctxt.regs 0); pure (set_reg0 rc uctxt)
