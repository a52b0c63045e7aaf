-- ===== src/Calls/Schedule/Delay.antt =====
-- syscalls.c: SysDelay, from the call to the process that runs next.
use sasha_jakob.Base.{
  ℕ, suc, ◌+◌, ◌≤◌, ◌≡◌, ◌≢◌, refl, ap, ◌∙◌, some, List, [], ◌∷◌, ◌++◌, map, arith, ◌∈◌, ◌∉◌,
  length, pos, ==-refl, ==-ne, ℕ_discrete, Ends, has-append, first,
}
use sasha_jakob.Links.{null, put}
use sasha_jakob.Links.Heap.{update}
use sasha_jakob.Kernel.{
  Kernel, Machine, Switches, Pcb, UserContext, process_default, process_running, process_delayed,
  queue_node,
}
use sasha_jakob.Process.Queue.Placed.{SameGlobals, Inv, Inv-move}
use sasha_jakob.Process.Queue.Moves.{moved, add_to_delay_queue-Enters}
use sasha_jakob.Process.Exit.{set_reg0}
use sasha_jakob.Calls.Schedule.{sys_delay}
use sasha_jakob.Calls.Schedule.Switched.{left_pcb, entered_pcb}
use sasha_jakob.Calls.Schedule.Next.{taken, schedule-Inv}

-- A process that stands in no list is not the first of the ready queue.
pub not_ready :
    (k : Kernel) (lists : List ℕ) (c : ℕ → List ℕ) (q : ℕ) (qs : List ℕ) (p : ℕ)
    → k.ready_queue ∈ lists
    → ((l : ℕ) → l ∈ lists → queue_node p ∉ c l)
    → c k.ready_queue ≡ map queue_node (q ∷ qs)
    → q ≢ p
not_ready k lists c q qs p at out e = λ same.
    let there : queue_node p ∈ c k.ready_queue = rw (e, same, ==-refl (queue_node p)) refl in
    cc (out k.ready_queue at, there)

-- The process that runs stands in no list, so it is not the one that schedule chooses.
pub not_chosen :
    (k : Kernel) (lists : List ℕ) (c : ℕ → List ℕ) (ready : List ℕ) (p : ℕ)
    → k.ready_queue ∈ lists
    → ((l : ℕ) → l ∈ lists → queue_node p ∉ c l)
    → c k.ready_queue ≡ map queue_node ready
    → k.idle_process ≢ p
    → first ready k.idle_process ≢ p
not_chosen k lists c [] p at out e ne = ne
not_chosen k lists c (q ∷ qs) p at out e ne = not_ready k lists c q qs p at out e

-- A process that runs and is to wait, between its two states.
abbrev pub between : Kernel → ℕ → Pcb → Kernel
between k p v = record k { pcbs = put k.pcbs p (record v { state = process_default }) }

pub between-Inv :
    (k : Kernel) (lists : List ℕ) (c : ℕ → List ℕ) (p : ℕ) (v : Pcb)
    → Inv k lists c
    → k.pcbs p ≡ some v
    → v.state ≡ process_running
    → Inv (between k p v) lists c
between-Inv k lists c p v inv here st =
    Inv-move c p (record v { state = process_default }) inv
      (record { ready = refl; delay = refl; blocked = refl; zombie = refl }) inv.holds (λ x h. h)
      refl (inv.nodes p v here) (λ r ne m. refl) (rw st at (inv.placed p v here))

-- The lists when process `p` has entered the delay queue.
abbrev pub delayed_last : Kernel → (ℕ → List ℕ) → ℕ → ℕ → List ℕ
delayed_last k c p = update c k.delay_queue (c k.delay_queue ++ queue_node p ∷ [])

module _ (m : Machine) (law : Switches m) (k : Kernel) (lists : List ℕ) (c : ℕ → List ℕ)
    (ready : List ℕ) (v u : Pcb) (uctxt : UserContext) (inv : Inv k lists c)
    (e : c k.ready_queue ≡ map queue_node ready)
    (idle : (l : ℕ) → l ∈ lists → queue_node k.idle_process ∉ c l) (real : k.current_process ≢ null)
    (here : k.pcbs k.current_process ≡ some v) (runs : v.state ≡ process_running)
    (there : k.pcbs (first ready k.idle_process) ≡ some u)
    (rests : k.idle_process ≢ k.current_process)
    (stacked : m.hw.kernel_stack_pages ≤ length u.kernel_stack)
    (fits : m.hw.kernel_stack_page + m.hw.kernel_stack_pages ≤ length k.region0_pt) where
  idle_out : (l : ℕ) → l ∈ lists → queue_node k.idle_process ∉ delayed_last k c k.current_process l
  idle_out l i = elim (ℕ_discrete l k.delay_queue) [
    | yes at ↦
        rw (at, ==-refl k.delay_queue)
          (ground (
            arith,
            has-append (queue_node k.idle_process) (c k.delay_queue)
                (queue_node k.current_process ∷ []),
            idle k.delay_queue inv.delay_in,
            ==-ne (queue_node k.idle_process) (queue_node k.current_process) (omega (arith, rests)),
          ))
    | no ne ↦ rw (==-ne l k.delay_queue ne) (idle l i)
  ]

  -- SysDelay of the running process for n + 1 ticks ends with that process last in the delay queue, with
  -- n + 1 ticks left and 0 in the first register of its saved context, and with the first ready process,
  -- or the idle process where none is ready, running in its own context; no other process changes, and
  -- the invariant holds.
  pub sys_delay-Inv :
      (n : ℕ)
      → uctxt.regs 0 ≡ pos (suc n)
      → Ends (sys_delay m uctxt k) λ back k'.
        (back ≡ u.user_context)
        × (k'.current_process ≡ first ready k.idle_process)
        × (k'.pcbs (first ready k.idle_process) ≡ some (entered_pcb u))
        × ((kc : ℕ) × (k'.pcbs k.current_process
              ≡ some (
                  left_pcb
                    (record v { state = process_delayed; delay_ticks = pos (suc n) })
                    (set_reg0 (pos 0) uctxt)
                    kc)))
        × ((x : ℕ) → x ≢ first ready k.idle_process → x ≢ k.current_process → k'.pcbs x ≡ k.pcbs x)
        × SameGlobals k k'
        × Inv k' lists (taken k (delayed_last k c k.current_process) ready)
  unfolding sys_delay
  sys_delay-Inv n ticks =
      let p = k.current_process in
      let q = first ready k.idle_process in
      let w : Pcb = record v { state = process_delayed; delay_ticks = pos (suc n) } in
      let k1 = between k p v in
      let (s, run, inv2) =
        add_to_delay_queue-Enters k1 lists c (between-Inv k lists c p v inv here runs) p
          (record v { state = process_default }) (rw (==-refl p) refl) (pos (suc n)) real refl in
      let k2 = moved k1 s p w in
      let out : (l : ℕ) → l ∈ lists → queue_node p ∉ c l = rw runs at (inv.placed p v here) in
      let other = not_chosen k lists c ready p inv.ready_in out e rests in
      let ((b, back), k', run', (same, current, runs', saved, others, _, _, names, inv')) =
        schedule-Inv m law k2 lists (delayed_last k c p) ready w u (set_reg0 (pos 0) uctxt) inv2
          (rw (==-ne k.ready_queue k.delay_queue inv.ready_ne_delay) e) idle_out real
          (rw (==-refl p) refl) (rw (==-ne q p other) there) other stacked fits in
      (
        back,
        k',
        ground (arith, ticks, here, run, run'),
        (
          ap (λ r. r.1) same,
          current,
          runs',
          saved,
          (λ x nq np. others x nq np ∙ rw (==-ne x p np) refl),
          names,
          inv',
        ),
      )
