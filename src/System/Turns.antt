-- ===== src/System/Turns.antt =====
-- syscalls.c and traps.c: the turns of the ready processes.
use mathlib.Core.List.{append_assoc}
use sasha_jakob.Base.{
  ℕ, zero, suc, ◌+◌, ◌≡◌, ◌≢◌, refl, sym, ap, ◌∙◌, some, List, [], ◌∷◌, ◌++◌, arith, length, Ends,
  pure, ◌>>◌, pos, suc_ℤ, inl, inr, subst,
}
use sasha_jakob.Kernel.{K, Kernel, Machine, Switches, Pcb, UserContext}
use sasha_jakob.Process.Scan.Delay.{woken, kept}
use sasha_jakob.Calls.Schedule.{sys_delay}
use sasha_jakob.Calls.Schedule.Delay.{not_ready}
use sasha_jakob.Traps.{clock_handler}
use sasha_jakob.System.Sound.{IsSound, Sound, stands_out}
use sasha_jakob.System.Delay.{sys_delay-Sound}
use sasha_jakob.System.Clock.{clock_handler-Sound}

-- Clock traps, one after the other, each with the context that it interrupts.
unfoldable pub clock_traps : Machine → List UserContext → K (Unit {0})
clock_traps m [] = pure tt
clock_traps m (cont ∷ conts) = do clock_handler m cont; clock_traps m conts

-- SysDelay by one process after the other.
pub delay_calls : Machine → List UserContext → K (Unit {0})
delay_calls m [] = pure tt
delay_calls m (uctxt ∷ uctxts) = do sys_delay m uctxt; delay_calls m uctxts

-- In a sound kernel with a ready process, a process that has run for t of its t + r ticks gives way after
-- r + 1 more clock traps, one tick beyond its time slice, to the process that was first in the ready
-- queue. The kernel is sound then.
pub time_slice-ends :
    (m : Machine) (law : Switches m) (k : Kernel) (lists : List ℕ) (c : ℕ → List ℕ) (q : ℕ)
    (qs ds : List ℕ) (v : Pcb) (t r : ℕ) (conts : List UserContext)
    → Sound m k lists c (q ∷ qs) ds
    → k.pcbs k.current_process ≡ some v
    → v.run_time ≡ pos t
    → v.time_slice ≡ pos (t + r)
    → length conts ≡ suc r
    → Ends (clock_traps m conts k) λ _ k'. (k'.current_process ≡ q) × IsSound m lists k'
unfolding clock_traps
time_slice-ends m law k lists c q qs ds v t r [] sound here ran slice count = absurd (omega arith)
time_slice-ends m law k lists c q qs ds v t zero (cont ∷ []) sound here ran slice count =
    let (back, k', run, (_, after)) =
      clock_handler-Sound m law k lists c (q ∷ qs) ds v cont sound here in
    elim after [
      | inl (more, _, _, _, _) ↦ absurd (ground (arith, more, ran, slice))
      | inr (_, (c', sound'), current, _) ↦ (tt, k', rw run refl, (current, (c', _, _, sound')))
    ]
time_slice-ends m law k lists c q qs ds v t zero (cont ∷ cont' ∷ conts) sound here ran slice count =
    absurd (omega arith)
time_slice-ends m law k lists c q qs ds v t (suc r) (cont ∷ conts) sound here ran slice count =
    let (back, k1, run1, (_, after)) =
      clock_handler-Sound m law k lists c (q ∷ qs) ds v cont sound here in
    elim after [
      | inl (_, _, (c1, sound1), stays, here1) ↦
          let (_, k2, run2, done) =
            time_slice-ends m law k1 lists c1 q (qs ++ woken k.pcbs ds) (kept k.pcbs ds)
              (record v { run_time = suc_ℤ v.run_time }) (suc t) r conts sound1
              (ap k1.pcbs stays ∙ here1) (ap suc_ℤ ran) (slice ∙ ap pos (omega arith))
              (omega (arith, count)) in
          (tt, k2, rw run1 run2, done)
      | inr (over, _, _, _) ↦ absurd (ground (arith, over, ran, slice))
    ]

abbrev pub Delaying : List UserContext → Type 0
Delaying [] = Unit {0}
Delaying (uctxt ∷ uctxts) = ((n : ℕ) × (uctxt.regs 0 ≡ pos (suc n))) × Delaying uctxts

-- The process that stands behind `front` in the ready queue runs after one SysDelay of the running
-- process and one of each process in `front`, for a tick or more each, where the idle process does not
-- run. The kernel is sound then, and the others are ready in their order.
pub delays_rotate :
    (m : Machine) (law : Switches m) (k : Kernel) (lists : List ℕ) (c : ℕ → List ℕ) (front : List ℕ)
    (q : ℕ) (behind ds : List ℕ) (uctxts : List UserContext)
    → Sound m k lists c (front ++ q ∷ behind) ds
    → k.idle_process ≢ k.current_process
    → Delaying uctxts
    → length uctxts ≡ suc (length front)
    → Ends (delay_calls m uctxts k) λ _ k'.
      (k'.current_process ≡ q)
      × ((c' : ℕ → List ℕ) × Sound m k' lists c' behind (ds ++ k.current_process ∷ front))
unfolding delay_calls
delays_rotate m law k lists c front q behind ds [] sound busy each count = absurd (omega arith)
delays_rotate m law k lists c [] q behind ds (uctxt ∷ []) sound busy ((n, ticks), each) count =
    let (_, k', run, (sound', current, _, _)) =
      sys_delay-Sound m law k lists c (q ∷ behind) ds uctxt n sound busy ticks in
    (tt, k', rw run refl, (current, (_, sound')))
delays_rotate m law k lists c [] q behind ds (uctxt ∷ uctxt' ∷ uctxts) sound busy each count =
    absurd (omega arith)
delays_rotate m law k lists c (p ∷ ps) q behind ds (uctxt ∷ uctxts) sound busy ((n, ticks), each)
      count =
    let (_, k1, run1, (sound1, current, (_, _, names, _), _)) =
      sys_delay-Sound m law k lists c (p ∷ ps ++ q ∷ behind) ds uctxt n sound busy ticks in
    let (i, rests, out) = sound.idle in
    let not_idle : p ≢ k.idle_process =
      not_ready k lists c p (ps ++ q ∷ behind) k.idle_process sound.inv.ready_in
        (stands_out k lists c k.idle_process i sound.inv rests out) sound.readies in
    let (_, k2, run2, (runs, (c2, sound2))) =
      delays_rotate m law k1 lists _ ps q behind (ds ++ k.current_process ∷ []) uctxts sound1
        (λ eq. not_idle (sym (sym names ∙ eq ∙ current))) each (omega (arith, count)) in
    (
      tt,
      k2,
      rw run1 run2,
      (
        runs,
        (
          c2,
          subst (λ xs. Sound m k2 lists c2 behind xs)
              (append_assoc ds (k.current_process ∷ []) (k1.current_process ∷ ps)
                ∙ ap (λ x. ds ++ k.current_process ∷ x ∷ ps) current)
              sound2,
        ),
      ),
    )
