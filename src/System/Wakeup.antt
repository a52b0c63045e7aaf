-- ===== src/System/Wakeup.antt =====
-- traps.c, pcb.c and syscalls.c: a delayed process is woken by the clock trap on which its delay is over.
use mathlib.Core.Option.{some-injective}
use sasha_jakob.Base.{
  ℕ, ℤ, suc, ◌+◌, ◌≡◌, ◌≢◌, refl, sym, ap, ◌∙◌, Option, some, false, List, [], ◌∷◌, ◌++◌, arith,
  length, Ends, ◌∈◌, ◌⊎◌, inl, inr, pos, ◌>>◌, has-append, first, ℕ_discrete,
}
use sasha_jakob.Kernel.{
  Kernel, Machine, Switches, Pcb, UserContext, process_delayed, process_ready, queue_node,
}
use sasha_jakob.Process.Exit.{set_reg0}
use sasha_jakob.Process.Scan.Delay.{expires, woken, kept}
use sasha_jakob.Process.Scan.Wakeup.{kept-keeps}
use sasha_jakob.Calls.Schedule.{sys_delay}
use sasha_jakob.Calls.Schedule.Switched.{entered_pcb}
use sasha_jakob.Traps.{clock_handler}
use sasha_jakob.System.Sound.{IsSound, Sound, is_out}
use sasha_jakob.System.Tick.{not_delayed, after_tick}
use sasha_jakob.System.Delay.{sys_delay-Sound}
use sasha_jakob.System.Clock.{Enters, clock_handler-Sound}
use sasha_jakob.System.Turns.{clock_traps}

-- What holds while process `p` with the PCB `v` is delayed.
abbrev Sleeps : Machine → List ℕ → (p : ℕ) → Pcb → Kernel → Type 0
Sleeps m lists p v k =
    (c : ℕ → List ℕ) × (rs : List ℕ) × (ds : List ℕ) × Sound m k lists c rs ds
    × (p ∈ ds)
    × (k.pcbs p ≡ some v)

-- The process that runs is not delayed.
not_current :
    (m : Machine) (k : Kernel) (lists : List ℕ) (c : ℕ → List ℕ) (rs ds : List ℕ) (p : ℕ)
    → Sound m k lists c rs ds
    → p ∈ ds
    → p ≢ k.current_process
not_current m k lists c rs ds p sound i eq =
    let (v, here, on) = sound.one.is in
    let out = not_delayed k ds k.current_process v sound.asleep here (ap is_out on) in
    let there : k.current_process ∈ ds = rw eq at i in cc

same_ticks : (v : Pcb) (t : ℤ) → v.delay_ticks ≡ t → some v ≡ some (record v { delay_ticks = t })
same_ticks v t e = cc

-- One clock trap that is not the last.
trap-Sleeps :
    (m : Machine) (law : Switches m) (lists : List ℕ) (k : Kernel) (p : ℕ) (v : Pcb) (n : ℕ)
    (cont : UserContext)
    → v.delay_ticks ≡ pos (suc (suc n))
    → Sleeps m lists p v k
    → Ends
        (clock_handler m cont k)
        λ _ k'. Sleeps m lists p (record v { delay_ticks = pos (suc n) }) k'
trap-Sleeps m law lists k p v n cont left (c, rs, ds, sound, i, here) =
    let (run_pcb, runs, _) = sound.one.is in
    let (back, k', run, (others, after)) =
      clock_handler-Sound m law k lists c rs ds run_pcb cont sound runs in
    let more : expires (some v) ≡ false = rw left (ground arith) in
    let stays : p ∈ kept k.pcbs ds = kept-keeps k.pcbs p ds i (ap expires here ∙ more) in
    let apart = not_current m k lists c rs ds p sound i in
    let now : p ≢ k'.current_process → k'.pcbs p ≡ some (record v { delay_ticks = pos (suc n) }) =
      λ ne. others p apart ne ∙ rw (i, here, more, left) refl in
    elim after [
      | inl (_, _, (c', sound'), _, _) ↦ (
        back,
        k',
        run,
        (c', _, _, sound', stays, now (not_current m k' lists c' _ _ p sound' stays)),
      )
      | inr (_, (c', sound'), _, _) ↦ (
        back,
        k',
        run,
        (c', _, _, sound', stays, now (not_current m k' lists c' _ _ p sound' stays)),
      )
    ]

clock_traps-Sleeps :
    (m : Machine) (law : Switches m) (lists : List ℕ) (k : Kernel) (p : ℕ) (v : Pcb) (r : ℕ)
    (conts : List UserContext)
    → v.delay_ticks ≡ pos (suc (length conts + r))
    → Sleeps m lists p v k
    → Ends
        (clock_traps m conts k)
        λ _ k'. Sleeps m lists p (record v { delay_ticks = pos (suc r) }) k'
unfolding clock_traps
clock_traps-Sleeps m law lists k p v r [] left (c, rs, ds, sound, i, here) = (
  tt,
  k,
  refl,
  (c, rs, ds, sound, i, here ∙ same_ticks v (pos (suc r)) (left ∙ ap pos (omega arith))),
)
clock_traps-Sleeps m law lists k p v r (cont ∷ conts) left asleep =
    let (_, k1, run1, asleep1) =
      trap-Sleeps m law lists k p v (length conts + r) cont (left ∙ ap pos (omega arith)) asleep in
    let (_, k2, run2, asleep2) =
      clock_traps-Sleeps m law lists k1 p (record v { delay_ticks = pos (suc (length conts + r)) })
        r conts refl asleep1 in
    (tt, k2, rw run1 run2, asleep2)

-- The PCB of a process whose delay is over.
abbrev pub roused : Pcb → Pcb
roused v = record v { delay_ticks = pos 0; state = process_ready }

-- The process `p` is ready, in the ready queue; or it has come in at once, and the trap returns the context
-- that it had saved.
abbrev pub Awake : Machine → List ℕ → (p : ℕ) → Pcb → (back : UserContext) → Kernel → Type 0
Awake m lists p v back k' =
    IsSound m lists k'
    × (((k'.pcbs p ≡ some (roused v))
          × ((c' : ℕ → List ℕ) × (rs' : List ℕ) × (ds' : List ℕ) × Sound m k' lists c' rs' ds'
              × (queue_node p ∈ c' k'.ready_queue)))
        ⊎ ((k'.current_process ≡ p)
            × (k'.pcbs p ≡ some (entered_pcb (roused v)))
            × (back ≡ v.user_context)))

-- The first ready process has come in, and it is the one whose delay is over.
come_in :
    (f : ℕ → Option Pcb) (p q : ℕ) (rs : List ℕ) (v : Pcb) (cont back : UserContext) (k' : Kernel)
    → p ≢ q
    → p ≡ first rs q
    → f p ≡ some v
    → Enters f q rs cont back k'
    → (k'.pcbs p ≡ some (entered_pcb v)) × (back ≡ v.user_context)
come_in f p q [] v cont back k' ne is here enters = absurd (ne is)
come_in f p q (r ∷ rs) v cont back k' ne is here (_, u, there, returns, enters) =
    let same : u ≡ v = some-injective _ _ (sym there ∙ ap f (sym is) ∙ here) in
    (
      ap k'.pcbs is ∙ enters ∙ ap (λ x. some (entered_pcb x)) same,
      returns ∙ ap (λ x. x.user_context) same,
    )

last_trap-Awake :
    (m : Machine) (law : Switches m) (lists : List ℕ) (k : Kernel) (p : ℕ) (v : Pcb)
    (cont : UserContext)
    → v.delay_ticks ≡ pos 1
    → Sleeps m lists p v k
    → Ends (clock_handler m cont k) λ back k'. Awake m lists p v back k'
last_trap-Awake m law lists k p v cont left (c, rs, ds, sound, i, here) =
    let (run_pcb, runs, _) = sound.one.is in
    let (back, k', run, (others, after)) =
      clock_handler-Sound m law k lists c rs ds run_pcb cont sound runs in
    let apart = not_current m k lists c rs ds p sound i in
    let woke : after_tick k.pcbs ds p ≡ some (roused v) = rw (i, here, left) refl in
    let placed : (c' : ℕ → List ℕ) (rs' ds' : List ℕ)
        → Sound m k' lists c' rs' ds'
        → p ≢ k'.current_process
        → Awake m lists p v back k' =
      λ c' rs' ds' sound' ne.
        let now : k'.pcbs p ≡ some (roused v) = others p apart ne ∙ woke in
        (
          (c', rs', ds', sound'),
          inl (now, (c', rs', ds', sound', sound'.inv.placed p (roused v) now)),
        ) in
    elim after [
      | inl (_, _, (c', sound'), stays, _) ↦
          (back, k', run, placed c' _ _ sound' (λ e. apart (e ∙ stays)))
      | inr (_, (c', sound'), current, enters) ↦ elim (ℕ_discrete p k'.current_process) [
        | no ne ↦ (back, k', run, placed c' _ _ sound' ne)
        | yes e ↦ (
          back,
          k',
          run,
          (
            (c', _, _, sound'),
            let (comes, returns) =
                  come_in (after_tick k.pcbs ds) p k.current_process (rs ++ woken k.pcbs ds)
                    (roused v) cont back k' apart (e ∙ current) woke enters in
                inr (sym e, comes, returns),
          ),
        )
      ]
    ]

-- A delayed process with t + r + 1 ticks left, in a sound kernel, is delayed with r + 1 ticks left after
-- t clock traps, and otherwise what it was. The clock trap behind t + r of them wakes it: the process is
-- ready then, in the ready queue, or it has come in at once, and the trap returns the context that it had
-- saved. The kernel is sound each time, whatever else runs and is woken in the meantime.
pub wakes_up :
    (m : Machine) (law : Switches m) (k : Kernel) (lists : List ℕ) (c : ℕ → List ℕ) (rs ds : List ℕ)
    (p : ℕ) (v : Pcb) (r : ℕ) (early late : List UserContext) (cont : UserContext)
    → Sound m k lists c rs ds
    → p ∈ ds
    → k.pcbs p ≡ some v
    → v.delay_ticks ≡ pos (suc (length early + r))
    → length late ≡ length early + r
    → (Ends
        (clock_traps m early k)
        λ _ k'. IsSound m lists k' × (k'.pcbs p ≡ some (record v { delay_ticks = pos (suc r) })))
      × (Ends
          ((do clock_traps m late; clock_handler m cont) k)
          λ back k'. Awake m lists p v back k')
wakes_up m law k lists c rs ds p v r early late cont sound i here left count =
    let asleep : Sleeps m lists p v k = (c, rs, ds, sound, i, here) in
    let (_, k1, run1, (c1, rs1, ds1, sound1, _, here1)) =
      clock_traps-Sleeps m law lists k p v r early left asleep in
    let (_, k2, run2, asleep2) =
      clock_traps-Sleeps m law lists k p v 0 late (left ∙ ap pos (omega (arith, count))) asleep in
    let (back, k3, run3, awake) =
      last_trap-Awake m law lists k2 p (record v { delay_ticks = pos 1 }) cont refl asleep2 in
    ((tt, k1, run1, ((c1, rs1, ds1, sound1), here1)), (back, k3, rw run2 run3, awake))

-- Process `p` is still delayed, with that many ticks left.
abbrev pub StillDelayed : (p left : ℕ) → Kernel → Type 0
StillDelayed p left k' =
    (w : Pcb) × (k'.pcbs p ≡ some w) × (w.state ≡ process_delayed) × (w.delay_ticks ≡ pos left)

-- SysDelay of the running process for t + r + 1 ticks, in a sound kernel where the idle process does not
-- run, leaves that process delayed, with r + 1 ticks left, after t clock traps. The clock trap behind
-- t + r of them wakes it: it is ready, in the ready queue, with SysDelay's result 0 in the context that it
-- has saved, or it runs again at once, and the trap returns that context. The kernel is sound then.
pub sys_delay-wakes :
    (m : Machine) (law : Switches m) (k : Kernel) (lists : List ℕ) (c : ℕ → List ℕ) (rs ds : List ℕ)
    (uctxt : UserContext) (r : ℕ) (early late : List UserContext) (cont : UserContext)
    → Sound m k lists c rs ds
    → k.idle_process ≢ k.current_process
    → uctxt.regs 0 ≡ pos (suc (length early + r))
    → length late ≡ length early + r
    → (Ends
        ((do sys_delay m uctxt; clock_traps m early) k)
        λ _ k'. IsSound m lists k' × StillDelayed k.current_process (suc r) k')
      × (Ends ((do sys_delay m uctxt; clock_traps m late; clock_handler m cont) k) λ back k'.
          (w : Pcb) × (w.user_context ≡ set_reg0 (pos 0) uctxt)
          × Awake m lists k.current_process w back k')
sys_delay-wakes m law k lists c rs ds uctxt r early late cont sound busy ticks count =
    let p = k.current_process in
    let (_, k1, run, (sound1, _, _, (w, here, st, left, saved))) =
      sys_delay-Sound m law k lists c rs ds uctxt (length early + r) sound busy ticks in
    let ((_, k2, run2, (sound2, here2)), (back, k3, run3, awake)) =
      wakes_up m law k1 lists _ _ (ds ++ p ∷ []) p w r early late cont sound1
        (ground (arith, has-append p ds (p ∷ []))) here left count in
    (
      (tt, k2, rw run run2, (sound2, (_, here2, st, refl))),
      (back, k3, rw run run3, (w, saved, awake)),
    )
