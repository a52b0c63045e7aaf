-- ===== src/Tests/System.antt =====
-- SysDelay and the clock's trap on the sample kernel.
use sasha_jakob.Base.{
  ℕ, ◌≡◌, ◌≢◌, refl, some, List, [], ◌∷◌, arith, Ends, ◌⊎◌, length, ◌≤◌, ℕ_discrete, pos, ◌>>◌,
}
use sasha_jakob.Links.{null}
use sasha_jakob.Kernel.{Kernel, Pcb, Pte, process_default, process_running, process_ready}
use sasha_jakob.Calls.Schedule.{sys_delay}
use sasha_jakob.Traps.{clock_handler}
use sasha_jakob.System.Sound.{Sound, IsSound, stack_of}
use sasha_jakob.System.Delay.{sys_delay-Sound}
use sasha_jakob.System.Clock.{Clocked, clock_handler-Sound}
use sasha_jakob.System.Reached.{Reach, here, next, delay_call, reached-IsSound}
use sasha_jakob.System.Turns.{clock_traps, delay_calls, time_slice-ends, delays_rotate}
use sasha_jakob.System.Wakeup.{Awake, StillDelayed, wakes_up, sys_delay-wakes}
use sasha_jakob.Process.Exit.{set_reg0}
use sasha_jakob.Tests.Sample.{
  sample, sample_lists, sample_entries, sample_pcbs, pcb_in, late_pcb, machine, machine-Switches,
}
use sasha_jakob.Tests.Invariant.{sample-Inv}
use sasha_jakob.Tests.Calls.{two, sample-OneRuns, sample-Delayed}

sample-stacked :
    (p : ℕ) (s : List Pte) → stack_of (sample_pcbs p) ≡ some s → (p ≢ null) × (2 ≤ length s)
sample-stacked p s e = (ground arith, ground arith)

sample-Sound : Sound machine sample sample_lists sample_entries (3 ∷ []) (7 ∷ [])
sample-Sound = record {
  inv = sample-Inv;
  one = sample-OneRuns;
  readies = refl;
  delays = refl;
  known = λ q i. elim (ℕ_discrete q 3) [
    | yes e ↦ (pcb_in process_ready 3, rw e refl)
    | no ne ↦ absurd (ground (arith, i))
  ];
  asleep = sample-Delayed;
  idle = (pcb_in process_default 6, refl, refl);
  stacked = sample-stacked;
  fits = omega arith;
}

clock_handler-Sound_example : Ends (clock_handler machine two sample) λ back k'.
    Clocked machine sample sample_lists (3 ∷ []) (7 ∷ []) (pcb_in process_running 2) two back k'
clock_handler-Sound_example =
    clock_handler-Sound machine machine-Switches sample sample_lists sample_entries (3 ∷ [])
      (7 ∷ []) (pcb_in process_running 2) two sample-Sound refl

time_slice-ends_example :
    Ends
      (clock_traps machine (two ∷ two ∷ []) sample)
      λ _ k'. (k'.current_process ≡ 3) × IsSound machine sample_lists k'
time_slice-ends_example =
    time_slice-ends machine machine-Switches sample sample_lists sample_entries 3 [] (7 ∷ [])
      (pcb_in process_running 2) 0 1 (two ∷ two ∷ []) sample-Sound refl refl refl refl

delays_rotate_example : Ends (delay_calls machine (two ∷ []) sample) λ _ k'.
    (k'.current_process ≡ 3)
    × ((c' : ℕ → List ℕ) × Sound machine k' sample_lists c' [] (7 ∷ 2 ∷ []))
delays_rotate_example =
    delays_rotate machine machine-Switches sample sample_lists sample_entries [] 3 [] (7 ∷ [])
      (two ∷ []) sample-Sound (omega arith) ((1, refl), tt) refl

-- The kernel after SysDelay of process 2 for two ticks.
sample_delay :
    Ends
      (sys_delay machine two sample)
      λ _ k'. IsSound machine sample_lists k' × Reach machine sample k'
sample_delay =
    let (back, k', run, (sound, _, _, _)) =
      sys_delay-Sound machine machine-Switches sample sample_lists sample_entries (3 ∷ []) (7 ∷ [])
        two 1 sample-Sound (omega arith) refl in
    (back, k', run, ((_, _, _, sound), next here (delay_call two back (omega arith) run)))

abbrev later : Kernel
later = sample_delay.1

reached-IsSound_example :
    IsSound machine sample_lists later
    × (Ends (clock_handler machine two later) λ _ k'. IsSound machine sample_lists k')
    × ((later.idle_process ≡ later.current_process)
        ⊎ (Ends (sys_delay machine two later) λ _ k'. IsSound machine sample_lists k'))
reached-IsSound_example =
    reached-IsSound machine machine-Switches sample_lists sample later two
      (sample_entries, 3 ∷ [], 7 ∷ [], sample-Sound) (sample_delay.3.1)

-- Process 7 has one tick left.
wakes_up_example :
    (Ends (clock_traps machine [] sample) λ _ k'.
      IsSound machine sample_lists k'
      × (k'.pcbs 7 ≡ some (record late_pcb { delay_ticks = pos 1 })))
    × (Ends
        ((do clock_traps machine []; clock_handler machine two) sample)
        λ back k'. Awake machine sample_lists 7 late_pcb back k')
wakes_up_example =
    wakes_up machine machine-Switches sample sample_lists sample_entries (3 ∷ []) (7 ∷ []) 7
      late_pcb 0 [] [] two sample-Sound refl refl refl refl

-- Process 2 delays itself for two ticks.
sys_delay-wakes_example :
    (Ends
      ((do sys_delay machine two; clock_traps machine (two ∷ [])) sample)
      λ _ k'. IsSound machine sample_lists k' × StillDelayed 2 1 k')
    × (Ends
        ((do sys_delay machine two; clock_traps machine (two ∷ []); clock_handler machine two)
          sample)
        λ back k'.
          (w : Pcb) × (w.user_context ≡ set_reg0 (pos 0) two)
          × Awake machine sample_lists 2 w back k')
sys_delay-wakes_example =
    sys_delay-wakes machine machine-Switches sample sample_lists sample_entries (3 ∷ []) (7 ∷ [])
      two 0 (two ∷ []) (two ∷ []) two sample-Sound (omega arith) refl refl
