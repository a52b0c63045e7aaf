-- ===== src/Calls/Schedule/Next.antt =====
-- syscalls.c: the process that schedule chooses, and the invariant of the queues.
use sasha_jakob.Base.{
  ℕ, ◌+◌, ◌≤◌, ◌≡◌, ◌≢◌, refl, sym, ap, some, Bool, true, Option, List, [], ◌∷◌, map, arith, ◌∈◌,
  ◌∉◌, length, ==-refl, ==-ne, ℕ_discrete, Ends, has, first,
}
use sasha_jakob.Links.{Links, null}
use sasha_jakob.Links.Chain.{IsNode}
use sasha_jakob.Links.Heap.{update, Holds, pop-Holds}
use sasha_jakob.Kernel.{
  Kernel, Machine, Switches, Pcb, UserContext, queue_node, pcb_from_queue_node-queue_node,
}
use sasha_jakob.Process.Queue.Placed.{SameGlobals, Inv, Inv-move, Inv-modify, has-update_same}
use sasha_jakob.Sync.Waits.{rest_of}
use sasha_jakob.Switch.Stack.{Maps}
use sasha_jakob.Calls.Schedule.{choose, schedule}
use sasha_jakob.Calls.Schedule.Switched.{left_pcb, entered_pcb, switched, schedule-switched}

-- The lists when the first ready process has been taken.
abbrev pub taken : Kernel → (ℕ → List ℕ) → List ℕ → ℕ → List ℕ
taken k c ready = update c k.ready_queue (map queue_node (rest_of ready))

-- The run succeeds. Process `q`, whose PCB was `u`, runs: its context is in `*uctxt`, its kernel stack is
-- the one in region 0, and it stands in no list. The process that ran has its context saved, no other
-- process changes, the globals that name the queues and the idle process stay, and the invariant holds.
abbrev pub SwitchesTo :
    Machine
    → Kernel
    → List ℕ
    → (ℕ → List ℕ)
    → Pcb
    → ℕ
    → Pcb
    → UserContext
    → Option ((Bool × UserContext) × Kernel)
    → Type 0
SwitchesTo m k lists c' v q u uctxt r = Ends r λ a k'.
    (a ≡ (true, u.user_context))
    × (k'.current_process ≡ q)
    × (k'.pcbs q ≡ some (entered_pcb u))
    × ((kc : ℕ) × (k'.pcbs k.current_process ≡ some (left_pcb v uctxt kc)))
    × ((x : ℕ) → x ≢ q → x ≢ k.current_process → k'.pcbs x ≡ k.pcbs x)
    × Maps k.region0_pt u.kernel_stack k'.region0_pt m.hw.kernel_stack_pages 0
        m.hw.kernel_stack_page
    × ((l : ℕ) → l ∈ lists → queue_node q ∉ c' l)
    × SameGlobals k k'
    × Inv k' lists c'

module _ (k : Kernel) (lists : List ℕ) (c : ℕ → List ℕ) (inv : Inv k lists c) where
  -- The choice changes nothing but the links, which hold the ready queue without its first process.
  pub choose-first :
      (ready : List ℕ)
      → c k.ready_queue ≡ map queue_node ready
      → (s : Links) × (choose k ≡ some (first ready k.idle_process, record k { links = s }))
        × Holds s lists (taken k c ready)
        × ((x : ℕ) → IsNode k.links x → IsNode s x)
  unfolding choose
  choose-first [] e =
      let same : update c k.ready_queue [] ≡ c = λ i x. same_at x i in
      (
        k.links,
        rw ((inv.holds.each k.ready_queue inv.ready_in).count, e) refl,
        rw same inv.holds,
        λ x h. h,
      )
    where
      same_at : (x : ℕ) → update c k.ready_queue [] x ≡ c x
      same_at x = elim (ℕ_discrete x k.ready_queue) [
        | yes at ↦ rw (at, ==-refl k.ready_queue) (sym e)
        | no ne ↦ rw (==-ne x k.ready_queue ne) refl
      ]
  choose-first (q ∷ qs) e =
      let (_, s, run, (at, holds, keeps)) =
        pop-Holds inv.holds k.ready_queue inv.ready_in (queue_node q) (map queue_node qs) e in
      (
        s,
        ground (
          arith,
          (inv.holds.each k.ready_queue inv.ready_in).count,
          ap (length {A = ℕ}) e,
          run,
          at,
          pcb_from_queue_node-queue_node q,
        ),
        holds,
        keeps,
      )

  -- Every other process stays where it was.
  others-stay :
      (ready : List ℕ)
      → c k.ready_queue ≡ map queue_node ready
      → (x : ℕ) → x ≢ first ready k.idle_process
      → (l : ℕ) → has (queue_node x) (taken k c ready l) ≡ has (queue_node x) (c l)
  others-stay [] e x ne = has-update_same c k.ready_queue [] (queue_node x) (rw e refl)
  others-stay (q ∷ qs) e x ne =
      has-update_same c k.ready_queue (map queue_node qs) (queue_node x)
        (rw (e, ==-ne (queue_node x) (queue_node q) (omega (arith, ne))) refl)

  -- The chosen process stands in no list.
  chosen-out :
      (ready : List ℕ)
      → c k.ready_queue ≡ map queue_node ready
      → ((l : ℕ) → l ∈ lists → queue_node k.idle_process ∉ c l)
      → (l : ℕ) → l ∈ lists
      → queue_node (first ready k.idle_process) ∉ taken k c ready l
  chosen-out [] e idle l i = elim (ℕ_discrete l k.ready_queue) [
    | yes at ↦ rw (at, ==-refl k.ready_queue) refl
    | no ne ↦ rw (==-ne l k.ready_queue ne) (idle l i)
  ]
  chosen-out (q ∷ qs) e idle l i = elim (ℕ_discrete l k.ready_queue) [
    | yes at ↦
        rw (at, ==-refl k.ready_queue)
          ((rw e at ((inv.holds.each k.ready_queue inv.ready_in).distinct)).0)
    | no ne ↦ rw (==-ne l k.ready_queue ne) (
        inv.holds.apart k.ready_queue l (queue_node q) inv.ready_in i (λ eq. ne (sym eq))
          (rw (e, ==-refl (queue_node q)) refl))
  ]

-- schedule runs the first process of the ready queue, or the idle process where none is ready, whatever
-- has become of the process that calls it, provided that is another process, the idle process stands in
-- no list, and the tables have room for a kernel stack. The outcome is `SwitchesTo`: the contexts are
-- exchanged, the kernel stack is that of the new process, no other process changes, and the invariant
-- holds with the new process out of the ready queue.
pub schedule-Inv :
    (m : Machine) (law : Switches m) (k : Kernel) (lists : List ℕ) (c : ℕ → List ℕ) (ready : List ℕ)
    (v u : Pcb) (uctxt : UserContext)
    → Inv k lists c
    → c k.ready_queue ≡ map queue_node ready
    → ((l : ℕ) → l ∈ lists → queue_node k.idle_process ∉ c l)
    → k.current_process ≢ null
    → k.pcbs k.current_process ≡ some v
    → k.pcbs (first ready k.idle_process) ≡ some u
    → first ready k.idle_process ≢ k.current_process
    → m.hw.kernel_stack_pages ≤ length u.kernel_stack
    → m.hw.kernel_stack_page + m.hw.kernel_stack_pages ≤ length k.region0_pt
    → SwitchesTo m k lists
        (taken k c ready)
        v
        (first ready k.idle_process)
        u
        uctxt
        (schedule m uctxt k)
schedule-Inv m law k lists c ready v u uctxt inv e idle real here there other stacked fits =
    let q = first ready k.idle_process in
    let p = k.current_process in
    let (s, chosen, holds, keeps) = choose-first k lists c inv ready e in
    let (kc, table, run, maps) =
      schedule-switched m law k s q v u uctxt real here there other chosen stacked fits in
    let out = chosen-out k lists c inv ready e idle in
    let saved = Inv-modify p v (left_pcb v uctxt kc) inv here refl in
    (
      (true, u.user_context),
      switched m k s table p q v u uctxt kc,
      run,
      (
        refl,
        refl,
        rw (==-refl q) refl,
        (kc, rw (==-ne p q (λ eq. other (sym eq)), ==-refl p) refl),
        (λ x nq np. rw (==-ne x q nq, ==-ne x p np) refl),
        maps,
        out,
        (refl, refl, refl, maps.same_length),
        Inv-move (taken k c ready) q (entered_pcb u) saved
            (record { ready = refl; delay = refl; blocked = refl; zombie = refl }) holds keeps refl
            (inv.nodes q u there) (others-stay k lists c inv ready e) out,
      ),
    )
