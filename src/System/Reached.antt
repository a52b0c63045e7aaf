-- ===== src/System/Reached.antt =====
-- syscalls.c and traps.c: the kernels that SysDelay and the clock's trap reach, in any order.
use mathlib.Core.Option.{some-injective}
use sasha_jakob.Base.{
  ℕ, zero, suc, ◌≡◌, ◌≢◌, refl, sym, ap, ◌∙◌, Option, some, true, List, Ends, ℤ, pos, negsuc, ltb_ℤ,
  error, arith, inl, inr, ◌⊎◌, subst, ℕ_discrete,
}
use sasha_jakob.Kernel.{Kernel, Machine, Switches, UserContext}
use sasha_jakob.Process.Exit.{set_reg0}
use sasha_jakob.Calls.Schedule.{sys_delay}
use sasha_jakob.Traps.{clock_handler}
use sasha_jakob.System.Sound.{IsSound}
use sasha_jakob.System.Delay.{sys_delay-Sound}
use sasha_jakob.System.Clock.{clock_handler-Sound}

-- A trap of the clock, or a SysDelay of a process other than the idle one, which makes no calls.
pub data Step (m : Machine) (k : Kernel) (k' : Kernel) : Type 0 where
  clock_trap : (cont back : UserContext) → clock_handler m cont k ≡ some (back, k') → Step m k k'
  delay_call :
      (uctxt back : UserContext)
      → k.idle_process ≢ k.current_process
      → sys_delay m uctxt k ≡ some (back, k')
      → Step m k k'

pub data Reach (m : Machine) (k : Kernel) : Kernel → Type 0 where
  here : Reach m k k
  next : {k' k'' : Kernel} → Reach m k k' → Step m k' k'' → Reach m k k''

clock_trap-IsSound :
    (m : Machine) (law : Switches m) (lists : List ℕ) (k : Kernel) (cont : UserContext)
    → IsSound m lists k
    → Ends (clock_handler m cont k) λ _ k'. IsSound m lists k'
clock_trap-IsSound m law lists k cont (c, rs, ds, sound) =
    let (back, k', run, (_, after)) =
      clock_handler-Sound m law k lists c rs ds (sound.one.is.0) cont sound (sound.one.is.1) in
    elim after [
      | inl (_, _, (c', sound'), _, _) ↦ (back, k', run, (c', _, _, sound'))
      | inr (_, (c', sound'), _, _) ↦ (back, k', run, (c', _, _, sound'))
    ]

-- SysDelay for no ticks, or for fewer, changes nothing.
delay_call-IsSound :
    (m : Machine) (law : Switches m) (lists : List ℕ) (k : Kernel) (uctxt : UserContext) (t : ℤ)
    → uctxt.regs 0 ≡ t
    → IsSound m lists k
    → k.idle_process ≢ k.current_process
    → Ends (sys_delay m uctxt k) λ _ k'. IsSound m lists k'
unfolding sys_delay
delay_call-IsSound m law lists k uctxt (pos zero) e (c, rs, ds, sound) busy =
    (set_reg0 (pos 0) uctxt, k, rw (e, sound.one.is.1) refl, (c, rs, ds, sound))
delay_call-IsSound m law lists k uctxt (pos (suc n)) e (c, rs, ds, sound) busy =
    let (back, k', run, (sound', _, _, _)) =
      sys_delay-Sound m law k lists c rs ds uctxt n sound busy e in
    (back, k', run, (_, _, _, sound'))
delay_call-IsSound m law lists k uctxt (negsuc n) e (c, rs, ds, sound) busy =
    let negative : ltb_ℤ (negsuc n) (pos 0) ≡ true = ground arith in
    (set_reg0 error uctxt, k, rw (e, negative, sound.one.is.1) refl, (c, rs, ds, sound))

-- What holds of the outcome of a run holds of the state in which the run is known to end.
at_end :
    {A : Type 0} (P : Kernel → Type 0) (r : Option (A × Kernel)) (a : A) (k : Kernel)
    → r ≡ some (a, k)
    → (Ends r λ _ k'. P k')
    → P k
at_end P r a k e (b, k', e', holds) =
    subst P (ap (λ x. x.1) (some-injective _ _ (sym e' ∙ e))) holds

Step-IsSound :
    (m : Machine) (law : Switches m) (lists : List ℕ) (k k' : Kernel)
    → Step m k k'
    → IsSound m lists k
    → IsSound m lists k'
Step-IsSound m law lists k k' (clock_trap cont back run) sound =
    at_end (IsSound m lists) (clock_handler m cont k) back k' run
      (clock_trap-IsSound m law lists k cont sound)
Step-IsSound m law lists k k' (delay_call uctxt back busy run) sound =
    at_end (IsSound m lists) (sys_delay m uctxt k) back k' run
      (delay_call-IsSound m law lists k uctxt (uctxt.regs 0) refl sound busy)

Reach-IsSound :
    (m : Machine) (law : Switches m) (lists : List ℕ) (k : Kernel) {k' : Kernel}
    → Reach m k k'
    → IsSound m lists k
    → IsSound m lists k'
Reach-IsSound m law lists k here sound = sound
Reach-IsSound m law lists k (next {k'} {k''} r step) sound =
    Step-IsSound m law lists k' k'' step (Reach-IsSound m law lists k r sound)

-- Every kernel that clock traps and SysDelay of processes other than the idle one reach from a sound
-- kernel, in any order and number, is sound. The next clock trap ends in a sound kernel too, and so does
-- the next SysDelay, whatever its argument, unless the idle process runs.
pub reached-IsSound :
    (m : Machine) (law : Switches m) (lists : List ℕ) (k k' : Kernel) (uctxt : UserContext)
    → IsSound m lists k
    → Reach m k k'
    → IsSound m lists k'
      × (Ends (clock_handler m uctxt k') λ _ k''. IsSound m lists k'')
      × ((k'.idle_process ≡ k'.current_process)
          ⊎ (Ends (sys_delay m uctxt k') λ _ k''. IsSound m lists k''))
reached-IsSound m law lists k k' uctxt start r =
    let sound = Reach-IsSound m law lists k r start in
    (
      sound,
      clock_trap-IsSound m law lists k' uctxt sound,
      elim (ℕ_discrete k'.idle_process k'.current_process) [
        | yes e ↦ inl e
        | no busy ↦ inr (delay_call-IsSound m law lists k' uctxt (uctxt.regs 0) refl sound busy)
      ],
    )
