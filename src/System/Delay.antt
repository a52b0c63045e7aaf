-- ===== src/System/Delay.antt =====
-- syscalls.c: SysDelay keeps the kernel sound.
use sasha_jakob.Base.{
  ℕ, suc, ◌≡◌, ◌≢◌, refl, ap, ◌∙◌, some, true, List, [], ◌∷◌, ◌++◌, arith, ◌∈◌, first, Ends, pos,
  ==-refl, ℕ_discrete,
}
use sasha_jakob.Kernel.{Kernel, Machine, Switches, Pcb, UserContext, process_delayed}
use sasha_jakob.Process.Exit.{set_reg0}
use sasha_jakob.Process.Queue.Placed.{SameGlobals}
use sasha_jakob.Sync.Waits.{rest_of}
use sasha_jakob.Calls.Schedule.{sys_delay}
use sasha_jakob.Calls.Schedule.Switched.{left_pcb, entered_pcb}
use sasha_jakob.Calls.Schedule.Next.{taken}
use sasha_jakob.Calls.Schedule.Delay.{delayed_last, sys_delay-Inv}
use sasha_jakob.Calls.Schedule.Single.{OneRuns-switch}
use sasha_jakob.Calls.Schedule.Wakes.{delayed-entries, Delayed-after}
use sasha_jakob.System.Sound.{IsKnown, Sound, SameStacks, Sound-after, stands_out, is_out, stack_of}

-- The process that schedule chooses has a PCB.
pub chosen-IsKnown :
    (m : Machine) (k : Kernel) (lists : List ℕ) (c : ℕ → List ℕ) (rs ds : List ℕ)
    → Sound m k lists c rs ds
    → IsKnown k (first rs k.idle_process)
chosen-IsKnown m k lists c [] ds sound = let (v, here, _) = sound.idle in (v, here)
chosen-IsKnown m k lists c (q ∷ qs) ds sound = sound.known q (ground arith)

-- After a switch from `p` to `q` every process has the stack that it had.
pub SameStacks-switch :
    (k k' : Kernel) (p q : ℕ) (v u w : Pcb)
    → k.pcbs p ≡ some v
    → k.pcbs q ≡ some u
    → k'.pcbs q ≡ some (entered_pcb u)
    → k'.pcbs p ≡ some w
    → w.kernel_stack ≡ v.kernel_stack
    → ((x : ℕ) → x ≢ q → x ≢ p → k'.pcbs x ≡ k.pcbs x)
    → SameStacks k k'
SameStacks-switch k k' p q v u w here there enters leaves same others x = elim (ℕ_discrete x q) [
  | yes e ↦ rw (e, enters, there) refl
  | no nq ↦ elim (ℕ_discrete x p) [
    | yes e ↦ rw (e, leaves, here, same) refl
    | no np ↦ ap stack_of (others x nq np)
  ]
]

-- The idle process is out of the queues after the switch.
pub idle-switch :
    (k k' : Kernel) (p q : ℕ) (u : Pcb)
    → ((v : Pcb) × (k.pcbs k.idle_process ≡ some v) × (is_out v.state ≡ true))
    → k.idle_process ≢ p
    → k'.pcbs q ≡ some (entered_pcb u)
    → ((x : ℕ) → x ≢ q → x ≢ p → k'.pcbs x ≡ k.pcbs x)
    → (v : Pcb) × (k'.pcbs k.idle_process ≡ some v) × (is_out v.state ≡ true)
idle-switch k k' p q u (v, rests, out) np enters others = elim (ℕ_discrete k.idle_process q) [
  | yes e ↦ (entered_pcb u, ap k'.pcbs e ∙ enters, refl)
  | no nq ↦ (v, others k.idle_process nq np ∙ rests, out)
]

rest-IsKnown :
    (k : Kernel) (rs : List ℕ)
    → ((q : ℕ) → q ∈ rs → IsKnown k q)
    → (q : ℕ) → q ∈ rest_of rs
    → IsKnown k q
rest-IsKnown k [] all q i = all q i
rest-IsKnown k (r ∷ rs) all q i = all q (ground (arith, i))

-- SysDelay of a running process that is not the idle one, for n + 1 ticks: the process goes to the end
-- of the delay queue, and the first ready process, or the idle one, comes in.
pub sys_delay-Sound :
    (m : Machine) (law : Switches m) (k : Kernel) (lists : List ℕ) (c : ℕ → List ℕ) (rs ds : List ℕ)
    (uctxt : UserContext) (n : ℕ)
    → Sound m k lists c rs ds
    → k.idle_process ≢ k.current_process
    → uctxt.regs 0 ≡ pos (suc n)
    → Ends (sys_delay m uctxt k) λ _ k'.
      Sound m k' lists
        (taken k (delayed_last k c k.current_process) rs)
        (rest_of rs)
        (ds ++ k.current_process ∷ [])
      × (k'.current_process ≡ first rs k.idle_process)
      × SameGlobals k k'
      × ((w : Pcb) × (k'.pcbs k.current_process ≡ some w)
          × (w.state ≡ process_delayed)
          × (w.delay_ticks ≡ pos (suc n))
          × (w.user_context ≡ set_reg0 (pos 0) uctxt))
sys_delay-Sound m law k lists c rs ds uctxt n sound busy ticks =
    let p = k.current_process in
    let q = first rs k.idle_process in
    let inv = sound.inv in
    let (v, here, runs) = sound.one.is in
    let (u, there) = chosen-IsKnown m k lists c rs ds sound in
    let (i, rests, out) = sound.idle in
    let (real, _) = sound.stacked p v.kernel_stack (ap stack_of here) in
    let (_, stacked) = sound.stacked q u.kernel_stack (ap stack_of there) in
    let (back, k', run, (_, current, enters, (kc, leaves), others, names, inv')) =
      sys_delay-Inv m law k lists c rs v u uctxt inv sound.readies
        (stands_out k lists c k.idle_process i inv rests out) real here runs there busy stacked
        sound.fits n ticks in
    let w : Pcb =
      left_pcb (record v { state = process_delayed; delay_ticks = pos (suc n) })
        (set_reg0 (pos 0) uctxt) kc in
    let c' = taken k (delayed_last k c p) rs in
    let entries = delayed-entries k lists c rs ds p inv sound.delays in
    (
      back,
      k',
      run,
      (
        Sound-after m k k' lists c c' rs ds (rest_of rs) (ds ++ p ∷ []) sound names
            (SameStacks-switch k k' p q v u w here there enters leaves refl others) inv'
            (OneRuns-switch k k' q w u sound.one current enters leaves (λ x. cc) others)
            (rw (==-refl k.ready_queue) refl) entries (rest-IsKnown k rs sound.known)
            (Delayed-after k k' lists c c' ds p q v w u inv sound.delays sound.asleep here runs real
              inv' entries enters leaves refl others)
            (idle-switch k k' p q u sound.idle busy enters others),
        current,
        names,
        (w, leaves, refl, refl, refl),
      ),
    )
