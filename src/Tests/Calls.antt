-- ===== src/Tests/Calls.antt =====
-- The scheduler, the system calls and the clock's trap on the sample kernel.
use sasha_jakob.Base.{
  ℕ, ◌≡◌, ◌≢◌, refl, none, some, ◌==◌, if◌then◌else◌, [], ◌∷◌, ◌∈◌, ◌∉◌, arith, pos, error, Ends,
  ◌⊎◌, inl, inr, pure, ◌>>=◌, ◌>>◌, ==-ne, ℕ_discrete,
}
use sasha_jakob.Kernel.{
  UserContext, process_default, process_running, process_ready, process_delayed, queue_node,
}
use sasha_jakob.Process.Exit.{set_reg0}
use sasha_jakob.Process.Queue.Placed.{Inv, SameGlobals}
use sasha_jakob.Process.Scan.Delay.{Delayed}
use sasha_jakob.Sync.Lock.{sync_lock_acquire}
use sasha_jakob.Sync.Cvar.OneId.{OneKind}
use sasha_jakob.Calls.Schedule.{schedule, sys_delay}
use sasha_jakob.Calls.Schedule.Switched.{left_pcb, entered_pcb}
use sasha_jakob.Calls.Schedule.Next.{taken, SwitchesTo, schedule-Inv}
use sasha_jakob.Calls.Schedule.Delay.{delayed_last, sys_delay-Inv}
use sasha_jakob.Calls.Schedule.Single.{OneRuns}
use sasha_jakob.Calls.Sync.{
  map_bytes, sys_lock_acquire, sys_pipe_read, sys_pipe_write, sys_cvar_wait,
}
use sasha_jakob.Calls.Sync.Blocking.{
  read_at_once, write_prepared, write_at_once, blocking_calls-stay, sys_cvar_wait-OneKind,
}
use sasha_jakob.Traps.{preempt}
use sasha_jakob.Traps.Preempt.{preempt-lost}
use sasha_jakob.Tests.Sample.{
  sample, sample_lists, sample_entries, pcb_in, late_pcb, machine, machine-Switches,
}
use sasha_jakob.Tests.Invariant.{sample-Inv}

-- The first register holds 2: the id of a lock of process 3, or two ticks.
abbrev pub two : UserContext
two = record { code = pos 0; addr = 0; pc = 0; sp = 0; regs = λ i. if i == 0 then pos 2 else pos 0 }

idle_out : (l : ℕ) → l ∈ sample_lists → queue_node 6 ∉ sample_entries l
idle_out l i = ground arith

schedule-Inv_example :
    SwitchesTo machine sample sample_lists
      (taken sample sample_entries (3 ∷ []))
      (pcb_in process_running 2)
      3
      (pcb_in process_ready 3)
      two
      (schedule machine two sample)
schedule-Inv_example =
    schedule-Inv machine machine-Switches sample sample_lists sample_entries (3 ∷ [])
      (pcb_in process_running 2) (pcb_in process_ready 3) two sample-Inv refl idle_out (omega arith)
      refl refl (omega arith) (omega arith) (omega arith)

sys_delay-Inv_example : Ends (sys_delay machine two sample) λ back k'.
    (back ≡ (pcb_in process_ready 3).user_context)
    × (k'.current_process ≡ 3)
    × (k'.pcbs 3 ≡ some (entered_pcb (pcb_in process_ready 3)))
    × ((kc : ℕ) × (k'.pcbs 2
          ≡ some (
              left_pcb
                (record (pcb_in process_running 2) { state = process_delayed; delay_ticks = pos 2 })
                (set_reg0 (pos 0) two)
                kc)))
    × ((x : ℕ) → x ≢ 3 → x ≢ 2 → k'.pcbs x ≡ sample.pcbs x)
    × SameGlobals sample k'
    × Inv k' sample_lists (taken sample (delayed_last sample sample_entries 2) (3 ∷ []))
sys_delay-Inv_example =
    sys_delay-Inv machine machine-Switches sample sample_lists sample_entries (3 ∷ [])
      (pcb_in process_running 2) (pcb_in process_ready 3) two sample-Inv refl idle_out (omega arith)
      refl refl refl (omega arith) (omega arith) (omega arith) 1 refl

pub sample-OneRuns : OneRuns sample
sample-OneRuns = record {
  only = λ p v at on. ground arith;
  is = (pcb_in process_running 2, refl, refl);
}

pub sample-Delayed : Delayed sample (7 ∷ [])
sample-Delayed = ((late_pcb, refl, refl, omega arith), tt)

blocking_calls-stay_example :
    (sys_lock_acquire machine two sample
      ≡ (do rc ← sync_lock_acquire (pos 2); pure (set_reg0 rc two)) sample)
    × (sys_pipe_read machine 100 (λ _. 0) two sample
        ≡ (map_bytes 100 0 (λ _. 0) >> read_at_once machine 100 two) sample)
    × (sys_pipe_write machine 100 (λ _. 0) two sample
        ≡ (write_prepared 100 (λ _. 0) two >> write_at_once machine 100 two) sample)
blocking_calls-stay_example = blocking_calls-stay machine 100 (λ _. 0) two sample

sample-OneKind : OneKind sample
sample-OneKind o = elim (ℕ_discrete o 5) [
  | yes e ↦ inl (rw e refl)
  | no ne ↦ inr (rw (==-ne o 5 ne) refl)
]

sys_cvar_wait-OneKind_example :
    (sys_cvar_wait machine two sample ≡ none)
    ⊎ (sys_cvar_wait machine two sample ≡ some (set_reg0 error two, sample))
sys_cvar_wait-OneKind_example = sys_cvar_wait-OneKind machine two sample sample-OneKind

preempt-lost_example : Ends (preempt machine 2 two sample) λ back k'.
    (back ≡ (pcb_in process_ready 3).user_context)
    × (k'.current_process ≡ 3)
    × (k'.pcbs 3 ≡ some (entered_pcb (pcb_in process_ready 3)))
    × ((kc : ℕ) × (k'.pcbs 2
          ≡ some (left_pcb (record (pcb_in process_running 2) { state = process_default }) two kc)))
    × ((x : ℕ) → x ≢ 3 → x ≢ 2 → k'.pcbs x ≡ sample.pcbs x)
    × SameGlobals sample k'
    × ((l : ℕ) → l ∈ sample_lists → queue_node 2 ∉ taken sample sample_entries (3 ∷ []) l)
    × Inv k' sample_lists (taken sample sample_entries (3 ∷ []))
preempt-lost_example =
    preempt-lost machine machine-Switches sample sample_lists sample_entries 3 []
      (pcb_in process_running 2) (pcb_in process_ready 3) two sample-Inv refl idle_out (omega arith)
      refl refl refl (omega arith) (omega arith)
