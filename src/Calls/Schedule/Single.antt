-- ===== src/Calls/Schedule/Single.antt =====
-- syscalls.c: one process runs at a time.
use mathlib.Core.Option.{some-injective}
use sasha_jakob.Base.{
  ℕ, suc, ◌+◌, ◌≤◌, ◌≡◌, ◌≢◌, refl, sym, ap, ◌∙◌, some, List, map, ◌∈◌, ◌∉◌, length, first, pos,
  Ends, ℕ_discrete,
}
use sasha_jakob.Links.{null}
use sasha_jakob.Kernel.{
  Kernel, Machine, Switches, Pcb, UserContext, process_running, process_delayed, queue_node,
}
use sasha_jakob.Process.Exit.{set_reg0}
use sasha_jakob.Process.Queue.Placed.{Inv}
use sasha_jakob.Calls.Schedule.{sys_delay}
use sasha_jakob.Calls.Schedule.Switched.{left_pcb, entered_pcb}
use sasha_jakob.Calls.Schedule.Delay.{not_chosen, sys_delay-Inv}

-- Only the current process has the state PROCESS_RUNNING, and it has.
pub record OneRuns (k : Kernel) : Type 0 where
  pub only :
      (p : ℕ) (v : Pcb) → k.pcbs p ≡ some v → v.state ≡ process_running → p ≡ k.current_process
  pub is : (v : Pcb) × (k.pcbs k.current_process ≡ some v) × (v.state ≡ process_running)

-- A change of the current process, after which the old one is not running.
pub OneRuns-switch :
    (k k' : Kernel) (q : ℕ) (w u : Pcb)
    → OneRuns k
    → k'.current_process ≡ q
    → k'.pcbs q ≡ some (entered_pcb u)
    → k'.pcbs k.current_process ≡ some w
    → w.state ≢ process_running
    → ((x : ℕ) → x ≢ q → x ≢ k.current_process → k'.pcbs x ≡ k.pcbs x)
    → OneRuns k'
OneRuns-switch k k' q w u one current enters leaves off others = record {
  only = λ p v at on. elim (ℕ_discrete p q) [
    | yes e ↦ e ∙ sym current
    | no nq ↦ elim (ℕ_discrete p k.current_process) [
      | yes e ↦
          let same : v ≡ w = some-injective _ _ (sym at ∙ ap k'.pcbs e ∙ leaves) in
          absurd (off (sym (ap (λ x. x.state) same) ∙ on))
      | no np ↦ absurd (np (one.only p v (sym (others p nq np) ∙ at) on))
    ]
  ];
  is = (entered_pcb u, ap k'.pcbs current ∙ enters, refl);
}

-- Where one process runs and the idle process is another one and stands in no list, SysDelay of the
-- running process for n + 1 ticks ends with one process running again, which is another one.
sys_delay-OneRuns :
    (m : Machine) (law : Switches m) (k : Kernel) (lists : List ℕ) (c : ℕ → List ℕ) (ready : List ℕ)
    (u : Pcb) (uctxt : UserContext) (n : ℕ)
    → Inv k lists c
    → OneRuns k
    → c k.ready_queue ≡ map queue_node ready
    → ((l : ℕ) → l ∈ lists → queue_node k.idle_process ∉ c l)
    → k.current_process ≢ null
    → k.pcbs (first ready k.idle_process) ≡ some u
    → k.idle_process ≢ k.current_process
    → m.hw.kernel_stack_pages ≤ length u.kernel_stack
    → m.hw.kernel_stack_page + m.hw.kernel_stack_pages ≤ length k.region0_pt
    → uctxt.regs 0 ≡ pos (suc n)
    → Ends (sys_delay m uctxt k) λ _ k'. OneRuns k' × (k'.current_process ≢ k.current_process)
sys_delay-OneRuns m law k lists c ready u uctxt n inv one e idle real there rests stacked fits
      ticks =
    let (v, here, runs) = one.is in
    let (back, k', run, (_, current, enters, (kc, leaves), others, _, _)) =
      sys_delay-Inv m law k lists c ready v u uctxt inv e idle real here runs there rests stacked
        fits n ticks in
    let q = first ready k.idle_process in
    let out : (l : ℕ) → l ∈ lists → queue_node k.current_process ∉ c l =
      rw runs at (inv.placed k.current_process v here) in
    let other : q ≢ k.current_process =
      not_chosen k lists c ready k.current_process inv.ready_in out e rests in
    let w : Pcb =
      left_pcb (record v { state = process_delayed; delay_ticks = pos (suc n) })
        (set_reg0 (pos 0) uctxt) kc in
    (
      back,
      k',
      run,
      (
        OneRuns-switch k k' q w u one current enters leaves (λ x. cc) others,
        λ eq. other (sym current ∙ eq),
      ),
    )
