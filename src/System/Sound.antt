-- ===== src/System/Sound.antt =====
-- What holds of the kernel between two traps.
use sasha_jakob.Base.{
  ℕ, ◌+◌, ◌≤◌, ◌≡◌, ◌≢◌, refl, sym, ap, ◌∙◌, Option, none, some, Bool, true, false, List, map, ◌∈◌,
  ◌∉◌, length,
}
use sasha_jakob.Links.{null}
use sasha_jakob.Kernel.{
  Kernel, Machine, Pcb, Pte, ProcessState, process_default, process_running, process_ready,
  process_delayed, process_blocked, process_zombie, queue_node,
}
use sasha_jakob.Process.Queue.Placed.{Placed, Inv, SameGlobals}
use sasha_jakob.Process.Scan.Delay.{Delayed}
use sasha_jakob.Calls.Schedule.Single.{OneRuns}

-- The kernel stack of a process, where there is one.
abbrev pub stack_of : Option Pcb → Option (List Pte)
stack_of none = none
stack_of (some v) = some v.kernel_stack

abbrev pub IsKnown : Kernel → ℕ → Type 0
IsKnown k p = (v : Pcb) × (k.pcbs p ≡ some v)

-- The states of a process that stands in no queue.
abbrev pub is_out : ProcessState → Bool
is_out process_default = true
is_out process_running = true
is_out process_ready = false
is_out process_delayed = false
is_out process_blocked = false
is_out process_zombie = false

-- The queues and the states of the processes agree, one process runs, the ready queue is `rs` and the
-- delay queue `ds`, the idle process stands in no queue, and the tables have room for a kernel stack.
pub record Sound (m : Machine) (k : Kernel) (lists : List ℕ) (c : ℕ → List ℕ) (rs ds : List ℕ)
    : Type 0 where
  pub inv : Inv k lists c
  pub one : OneRuns k
  pub readies : c k.ready_queue ≡ map queue_node rs
  pub delays : c k.delay_queue ≡ map queue_node ds
  pub known : (q : ℕ) → q ∈ rs → IsKnown k q
  pub asleep : Delayed k ds
  pub idle : (v : Pcb) × (k.pcbs k.idle_process ≡ some v) × (is_out v.state ≡ true)
  pub stacked :
      (p : ℕ) (s : List Pte)
      → stack_of (k.pcbs p) ≡ some s
      → (p ≢ null) × (m.hw.kernel_stack_pages ≤ length s)
  pub fits : m.hw.kernel_stack_page + m.hw.kernel_stack_pages ≤ length k.region0_pt

abbrev pub IsSound : Machine → List ℕ → Kernel → Type 0
IsSound m lists k = (c : ℕ → List ℕ) × (rs : List ℕ) × (ds : List ℕ) × Sound m k lists c rs ds

Placed-out :
    (k : Kernel) (lists : List ℕ) (c : ℕ → List ℕ) (st : ProcessState) (n : ℕ)
    → is_out st ≡ true
    → Placed k lists c st n
    → (l : ℕ) → l ∈ lists
    → n ∉ c l
Placed-out k lists c process_default n e h = h
Placed-out k lists c process_running n e h = h
Placed-out k lists c process_ready n e h = cc
Placed-out k lists c process_delayed n e h = cc
Placed-out k lists c process_blocked n e h = cc
Placed-out k lists c process_zombie n e h = cc

-- A process in such a state stands in no list.
pub stands_out :
    (k : Kernel) (lists : List ℕ) (c : ℕ → List ℕ) (p : ℕ) (v : Pcb)
    → Inv k lists c
    → k.pcbs p ≡ some v
    → is_out v.state ≡ true
    → (l : ℕ) → l ∈ lists
    → queue_node p ∉ c l
stands_out k lists c p v inv here out =
    Placed-out k lists c v.state (queue_node p) out (inv.placed p v here)

-- The processes of the table and their stacks stay.
abbrev pub SameStacks : Kernel → Kernel → Type 0
SameStacks k k' = (p : ℕ) → stack_of (k'.pcbs p) ≡ stack_of (k.pcbs p)

stack-some : (o : Option Pcb) (s : List Pte) → stack_of o ≡ some s → (v : Pcb) × (o ≡ some v)
stack-some none s e = cc
stack-some (some v) s e = (v, refl)

pub IsKnown-same :
    (k k' : Kernel) (q : ℕ)
    → stack_of (k'.pcbs q) ≡ stack_of (k.pcbs q)
    → IsKnown k q
    → IsKnown k' q
IsKnown-same k k' q same (v, here) = stack-some (k'.pcbs q) v.kernel_stack (same ∙ ap stack_of here)

-- A step that changes neither the table's processes nor their stacks.
pub Sound-after :
    (m : Machine) (k k' : Kernel) (lists : List ℕ) (c c' : ℕ → List ℕ) (rs ds rs' ds' : List ℕ)
    → Sound m k lists c rs ds
    → SameGlobals k k'
    → SameStacks k k'
    → Inv k' lists c'
    → OneRuns k'
    → c' k.ready_queue ≡ map queue_node rs'
    → c' k.delay_queue ≡ map queue_node ds'
    → ((q : ℕ) → q ∈ rs' → IsKnown k q)
    → Delayed k' ds'
    → ((v : Pcb) × (k'.pcbs k.idle_process ≡ some v) × (is_out v.state ≡ true))
    → Sound m k' lists c' rs' ds'
Sound-after m k k' lists c c' rs ds rs' ds' sound (delay, ready, idle, region) stacks inv one
      readies delays known asleep (v, rests, out) =
    record {
      inv = inv;
      one = one;
      readies = ap c' ready ∙ readies;
      delays = ap c' delay ∙ delays;
      known = λ q i. IsKnown-same k k' q (stacks q) (known q i);
      asleep = asleep;
      idle = (v, ap k'.pcbs idle ∙ rests, out);
      stacked = λ p s e. sound.stacked p s (sym (stacks p) ∙ e);
      fits = rw region sound.fits;
    }
