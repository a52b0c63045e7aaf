-- ===== src/Calls/Table/Dispatch.antt =====
-- syscalls.c and traps.c: which handler the trap of a system call reaches.
use Prim.Native.Nat.{bit_xor}
use sasha_jakob.Base.{
  ℕ, ◌<◌, ◌≡◌, ◌≢◌, refl, sym, ap, ◌∙◌, Option, none, some, List, [], ◌∷◌, arith, ◌⊎◌, inl, inr,
  error, pure, ==-refl, ==-ne, ℕ_discrete, ltb, if◌then◌else◌, ◌==◌, Bool-cases,
}
use sasha_jakob.Kernel.{UserContext}
use sasha_jakob.Process.Exit.{set_reg0, address}
use sasha_jakob.Calls.Table.{
  Call, Handler, Codes, Services, index, handler_of, assigned, store_handlers, syscalls_init,
  run_handler, kernel_handler, fork, exec, exit, wait, get_pid, brk, delay, tty_read, tty_write,
  pipe_init, pipe_read, pipe_write, lock_init, lock_acquire, lock_release, cvar_init, cvar_signal,
  cvar_broadcast, cvar_wait, reclaim,
}

-- The call is assigned to.
abbrev In : Call → List Call → Type 0
In c [] = ⊥
In c (d ∷ ds) = (c ≡ d) ⊎ In c ds

-- No two calls have the same index.
abbrev pub Separate : Codes → Type 0
Separate codes = (c d : Call) → index codes c ≡ index codes d → c ≡ d

store_handlers-hit :
    (codes : Codes) (cs : List Call) (table : ℕ → Option Handler) (c : Call)
    → Separate codes
    → (table (index codes c) ≡ some (handler_of c)) ⊎ In c cs
    → store_handlers codes cs table (index codes c) ≡ some (handler_of c)
unfolding store_handlers
store_handlers-hit codes [] table c sep (inl here) = here
store_handlers-hit codes [] table c sep (inr at) = absurd at
store_handlers-hit codes (d ∷ ds) table c sep at =
    elim (ℕ_discrete (index codes c) (index codes d)) [
      | yes e ↦
          store_handlers-hit codes ds _ c sep (
            inl (rw (e, ==-refl (index codes d)) (ap (λ x. some (handler_of x)) (sym (sep c d e)))))
      | no ne ↦ store_handlers-hit codes ds _ c sep (later ne at)
    ]
  where
    later :
        index codes c ≢ index codes d
        → (table (index codes c) ≡ some (handler_of c)) ⊎ In c (d ∷ ds)
        → ((if index codes c == index codes d then some (handler_of d) else table (index codes c))
            ≡ some (handler_of c))
          ⊎ In c ds
    later ne (inl here) = inl (rw (==-ne (index codes c) (index codes d) ne) here)
    later ne (inr (inl same)) = absurd (ne (ap (index codes) same))
    later ne (inr (inr more)) = inr more

store_handlers-miss :
    (codes : Codes) (cs : List Call) (table : ℕ → Option Handler) (i : ℕ)
    → ((c : Call) → i ≢ index codes c)
    → store_handlers codes cs table i ≡ table i
unfolding store_handlers
store_handlers-miss codes [] table i away = refl
store_handlers-miss codes (d ∷ ds) table i away =
    store_handlers-miss codes ds _ i away ∙ rw (==-ne i (index codes d) (away d)) refl

-- The position in the list of assignments, from the tenth on and before.
late :
    (c : Call)
    → In c (
        pipe_init ∷ pipe_read ∷ pipe_write ∷ lock_init ∷ lock_acquire ∷ lock_release ∷ cvar_init
        ∷ cvar_signal ∷ cvar_broadcast ∷ cvar_wait ∷ reclaim ∷ [])
    → In c assigned
late c at = inr (inr (inr (inr (inr (inr (inr (inr (inr at))))))))

all_assigned : (c : Call) → In c assigned
all_assigned fork = inl refl
all_assigned exec = inr (inl refl)
all_assigned exit = inr (inr (inl refl))
all_assigned wait = inr (inr (inr (inl refl)))
all_assigned get_pid = inr (inr (inr (inr (inl refl))))
all_assigned brk = inr (inr (inr (inr (inr (inl refl)))))
all_assigned delay = inr (inr (inr (inr (inr (inr (inl refl))))))
all_assigned tty_read = inr (inr (inr (inr (inr (inr (inr (inl refl)))))))
all_assigned tty_write = inr (inr (inr (inr (inr (inr (inr (inr (inl refl))))))))
all_assigned pipe_init = late pipe_init (inl refl)
all_assigned pipe_read = late pipe_read (inr (inl refl))
all_assigned pipe_write = late pipe_write (inr (inr (inl refl)))
all_assigned lock_init = late lock_init (inr (inr (inr (inl refl))))
all_assigned lock_acquire = late lock_acquire (inr (inr (inr (inr (inl refl)))))
all_assigned lock_release = late lock_release (inr (inr (inr (inr (inr (inl refl))))))
all_assigned cvar_init = late cvar_init (inr (inr (inr (inr (inr (inr (inl refl)))))))
all_assigned cvar_signal = late cvar_signal (inr (inr (inr (inr (inr (inr (inr (inl refl))))))))
all_assigned cvar_broadcast =
    late cvar_broadcast (inr (inr (inr (inr (inr (inr (inr (inr (inl refl)))))))))
all_assigned cvar_wait =
    late cvar_wait (inr (inr (inr (inr (inr (inr (inr (inr (inr (inl refl))))))))))
all_assigned reclaim =
    late reclaim (inr (inr (inr (inr (inr (inr (inr (inr (inr (inr (inl refl)))))))))))

entry_of_call :
    (codes : Codes) (c : Call)
    → Separate codes
    → syscalls_init codes (index codes c) ≡ some (handler_of c)
unfolding syscalls_init
entry_of_call codes c sep =
    store_handlers-hit codes assigned (λ i. none) c sep (inr (all_assigned c))

entry_of_none :
    (codes : Codes) (i : ℕ) → ((c : Call) → i ≢ index codes c) → syscalls_init codes i ≡ none
unfolding syscalls_init
entry_of_none codes i away = store_handlers-miss codes assigned (λ j. none) i away

-- Where the calls' indices are below 256 and no two are the same, the trap with the code of a call runs
-- the handler that is assigned to that call.
pub kernel_handler-run_handler :
    (e : Services) (codes : Codes) (cont : UserContext) (c : Call)
    → Separate codes
    → index codes c < 256
    → bit_xor (address cont.code) codes.prefix ≡ index codes c
    → kernel_handler e codes cont ≡ run_handler e (handler_of c) cont
unfolding kernel_handler
kernel_handler-run_handler e codes cont c sep small at =
    rw (at, entry_of_call codes c sep) (ground (arith, small))

-- The trap with any other code returns ERROR in the first register, and nothing else changes.
kernel_handler-unknown :
    (e : Services) (codes : Codes) (cont : UserContext)
    → ((c : Call) → bit_xor (address cont.code) codes.prefix ≢ index codes c)
    → kernel_handler e codes cont ≡ pure (set_reg0 error cont)
unfolding kernel_handler
kernel_handler-unknown e codes cont away =
    let ind = bit_xor (address cont.code) codes.prefix in
    elim (Bool-cases (ltb ind 256)) [
      | inl small ↦ rw (small, entry_of_none codes ind away) refl
      | inr large ↦ rw large refl
    ]
