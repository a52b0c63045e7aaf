-- ===== src/Traps/Preempt.antt =====
-- traps.c: the clock's trap takes a process off the processor.
use sasha_jakob.Base.{
  ℕ, ◌+◌, ◌≤◌, ◌≡◌, ◌≢◌, refl, ap, ◌∙◌, some, List, ◌∷◌, map, arith, ◌∈◌, ◌∉◌, length, pos, ==-refl,
  ==-ne, Ends, ℕ_discrete,
}
use sasha_jakob.Links.{null}
use sasha_jakob.Kernel.{
  Kernel, Machine, Switches, Pcb, UserContext, process_default, process_running, queue_node,
}
use sasha_jakob.Process.Queue.Placed.{Inv, SameGlobals}
use sasha_jakob.Calls.Schedule.Switched.{left_pcb, entered_pcb}
use sasha_jakob.Calls.Schedule.Next.{taken, schedule-Inv}
use sasha_jakob.Calls.Schedule.Delay.{not_ready, between, between-Inv}
use sasha_jakob.Traps.{preempt}

-- Where a process is ready, the idle process is in no list, and the tables have room for a kernel stack,
-- the process that has used its time up is left in the state PROCESS_DEFAULT and in none of the lists,
-- with its context saved; the first ready process runs, no other process changes, and the invariant holds.
pub preempt-lost :
    (m : Machine) (law : Switches m) (k : Kernel) (lists : List ℕ) (c : ℕ → List ℕ) (q : ℕ)
    (qs : List ℕ) (v u : Pcb) (cont : UserContext)
    → Inv k lists c
    → c k.ready_queue ≡ map queue_node (q ∷ qs)
    → ((l : ℕ) → l ∈ lists → queue_node k.idle_process ∉ c l)
    → k.current_process ≢ null
    → k.pcbs k.current_process ≡ some v
    → v.state ≡ process_running
    → k.pcbs q ≡ some u
    → m.hw.kernel_stack_pages ≤ length u.kernel_stack
    → m.hw.kernel_stack_page + m.hw.kernel_stack_pages ≤ length k.region0_pt
    → Ends (preempt m k.current_process cont k) λ back k'.
      (back ≡ u.user_context)
      × (k'.current_process ≡ q)
      × (k'.pcbs q ≡ some (entered_pcb u))
      × ((kc : ℕ) × (k'.pcbs k.current_process
            ≡ some (left_pcb (record v { state = process_default }) cont kc)))
      × ((x : ℕ) → x ≢ q → x ≢ k.current_process → k'.pcbs x ≡ k.pcbs x)
      × SameGlobals k k'
      × ((l : ℕ) → l ∈ lists → queue_node k.current_process ∉ taken k c (q ∷ qs) l)
      × Inv k' lists (taken k c (q ∷ qs))
unfolding preempt
preempt-lost m law k lists c q qs v u cont inv e idle real here runs there stacked fits =
    let p = k.current_process in
    let out : (l : ℕ) → l ∈ lists → queue_node p ∉ c l = rw runs at (inv.placed p v here) in
    let other = not_ready k lists c q qs p inv.ready_in out e in
    let counted : k.links.count k.ready_queue ≡ some (pos (length (map queue_node (q ∷ qs)))) =
      (inv.holds.each k.ready_queue inv.ready_in).count
      ∙ ap (λ xs. some (pos (length {A = ℕ} xs))) e in
    let ((b, back), k', run, (same, current, runs', saved, others, _, _, names, inv')) =
      schedule-Inv m law (between k p v) lists c (q ∷ qs) (record v { state = process_default }) u
        cont (between-Inv k lists c p v inv here runs) e idle real (rw (==-refl p) refl)
        (rw (==-ne q p other) there) other stacked fits in
    (
      back,
      k',
      ground (arith, counted, here, run),
      (
        ap (λ r. r.1) same,
        current,
        runs',
        saved,
        (λ x nq np. others x nq np ∙ rw (==-ne x p np) refl),
        names,
        still_out out,
        inv',
      ),
    )
  where
    still_out :
        ((l : ℕ) → l ∈ lists → queue_node k.current_process ∉ c l)
        → (l : ℕ) → l ∈ lists
        → queue_node k.current_process ∉ taken k c (q ∷ qs) l
    still_out out l i = elim (ℕ_discrete l k.ready_queue) [
      | yes at ↦
          let away : queue_node k.current_process ∉ map queue_node (q ∷ qs) =
            rw e at (out k.ready_queue inv.ready_in) in
          rw (at, ==-refl k.ready_queue) (ground (arith, away))
      | no ne ↦ rw (==-ne l k.ready_queue ne) (out l i)
    ]
