-- ===== src/Process/Queue/Placed.antt =====
-- Where a process stands by its state: the invariant of the process queues.
use mathlib.Core.Option.{some-injective}
use sasha_jakob.Base.{
  ℕ, ◌≡◌, ◌≢◌, refl, some, List, ◌==◌, if◌then◌else◌, has, ◌∈◌, ◌∉◌, ==-refl, ==-ne, ℕ_discrete, ap,
  ◌∙◌, sym, length,
}
use sasha_jakob.Links.{put}
use sasha_jakob.Links.Chain.{IsNode}
use sasha_jakob.Links.Heap.{update, Holds}
use sasha_jakob.Kernel.{
  Kernel, Pcb, ProcessState, process_default, process_running, process_ready, process_delayed,
  process_blocked, process_zombie, queue_node,
}

-- A process that is ready, delayed or a zombie is in the queue for that; a blocked one is in some
-- other list; one that runs, or is between two queues, is in no list.
abbrev pub Placed : Kernel → List ℕ → (ℕ → List ℕ) → ProcessState → ℕ → Type 0
Placed k lists c process_ready n = n ∈ c k.ready_queue
Placed k lists c process_delayed n = n ∈ c k.delay_queue
Placed k lists c process_zombie n = n ∈ c k.zombie_queue
Placed k lists c process_blocked n =
    (l : ℕ) × (l ∈ lists)
    × (n ∈ c l)
    × (l ≢ k.ready_queue)
    × (l ≢ k.delay_queue)
    × (l ≢ k.zombie_queue)
Placed k lists c process_default n = (l : ℕ) → l ∈ lists → n ∉ c l
Placed k lists c process_running n = (l : ℕ) → l ∈ lists → n ∉ c l

-- The lists at `lists` hold what `c` says, the four queues are among them, and every process stands
-- where its state says.
pub record Inv (k : Kernel) (lists : List ℕ) (c : ℕ → List ℕ) : Type 0 where
  pub holds : Holds k.links lists c
  pub ready_in : k.ready_queue ∈ lists
  pub delay_in : k.delay_queue ∈ lists
  pub blocked_in : k.blocked_queue ∈ lists
  pub zombie_in : k.zombie_queue ∈ lists
  pub ready_ne_delay : k.ready_queue ≢ k.delay_queue
  pub ready_ne_zombie : k.ready_queue ≢ k.zombie_queue
  pub delay_ne_zombie : k.delay_queue ≢ k.zombie_queue
  pub blocked_ne_ready : k.blocked_queue ≢ k.ready_queue
  pub blocked_ne_delay : k.blocked_queue ≢ k.delay_queue
  pub blocked_ne_zombie : k.blocked_queue ≢ k.zombie_queue
  pub nodes : (p : ℕ) (v : Pcb) → k.pcbs p ≡ some v → IsNode k.links (queue_node p)
  pub heads : (p : ℕ) → queue_node p ∉ lists
  pub placed : (p : ℕ) (v : Pcb) → k.pcbs p ≡ some v → Placed k lists c v.state (queue_node p)

-- The globals name the same queues.
pub record SameQueues (k k' : Kernel) : Type 0 where
  pub ready : k'.ready_queue ≡ k.ready_queue
  pub delay : k'.delay_queue ≡ k.delay_queue
  pub blocked : k'.blocked_queue ≡ k.blocked_queue
  pub zombie : k'.zombie_queue ≡ k.zombie_queue

-- The globals that schedule reads name the same lists and the same process, and region 0 is as large.
abbrev pub SameGlobals : Kernel → Kernel → Type 0
SameGlobals k k' =
    (k'.delay_queue ≡ k.delay_queue)
    × (k'.ready_queue ≡ k.ready_queue)
    × (k'.idle_process ≡ k.idle_process)
    × (length k'.region0_pt ≡ length k.region0_pt)

-- Only membership counts.
pub Placed-same :
    (k k' : Kernel) (lists : List ℕ) (c c' : ℕ → List ℕ) (st : ProcessState) (n : ℕ)
    → SameQueues k k'
    → ((l : ℕ) → has n (c' l) ≡ has n (c l))
    → Placed k lists c st n
    → Placed k' lists c' st n
Placed-same k k' lists c c' process_ready n q e h = rw (q.ready) (e k.ready_queue ∙ h)
Placed-same k k' lists c c' process_delayed n q e h = rw (q.delay) (e k.delay_queue ∙ h)
Placed-same k k' lists c c' process_zombie n q e h = rw (q.zombie) (e k.zombie_queue ∙ h)
Placed-same k k' lists c c' process_blocked n q e (l, i, h, r, d, z) =
    (l, i, e l ∙ h, rw (q.ready) r, rw (q.delay) d, rw (q.zombie) z)
Placed-same k k' lists c c' process_default n q e h = λ l i. e l ∙ h l i
Placed-same k k' lists c c' process_running n q e h = λ l i. e l ∙ h l i

-- Membership in a list that has changed.
pub has-update :
    (c : ℕ → List ℕ) (l : ℕ) (xs : List ℕ) (n m : ℕ)
    → has n (update c l xs m) ≡ (if m == l then has n xs else has n (c m))
has-update c l xs n m = elim (ℕ_discrete m l) [
  | yes e ↦ rw (e, ==-refl l)
  | no ne ↦ rw (==-ne m l ne)
]

pub has-update_same :
    (c : ℕ → List ℕ) (l : ℕ) (xs : List ℕ) (n : ℕ)
    → has n xs ≡ has n (c l)
    → (m : ℕ) → has n (update c l xs m) ≡ has n (c m)
has-update_same c l xs n e m = elim (ℕ_discrete m l) [
  | yes at ↦ rw (at, ==-refl l) e
  | no ne ↦ rw (==-ne m l ne)
]

-- The invariant after a step that moves one process, changes its PCB, and leaves the queues' names
-- alone: the lists are well formed again, and the process stands where its new state says.
pub Inv-move :
    {k k' : Kernel} {lists : List ℕ} {c : ℕ → List ℕ} (c' : ℕ → List ℕ) (p : ℕ) (w : Pcb)
    → Inv k lists c
    → SameQueues k k'
    → Holds k'.links lists c'
    → ((x : ℕ) → IsNode k.links x → IsNode k'.links x)
    → k'.pcbs ≡ put k.pcbs p w
    → IsNode k.links (queue_node p)
    → ((q : ℕ) → q ≢ p → (m : ℕ) → has (queue_node q) (c' m) ≡ has (queue_node q) (c m))
    → Placed k' lists c' w.state (queue_node p)
    → Inv k' lists c'
Inv-move {k} {k'} {lists} {c} c' p w inv q holds keeps table node others mine = record {
  holds = holds;
  ready_in = rw (q.ready) inv.ready_in;
  delay_in = rw (q.delay) inv.delay_in;
  blocked_in = rw (q.blocked) inv.blocked_in;
  zombie_in = rw (q.zombie) inv.zombie_in;
  ready_ne_delay = rw (q.ready, q.delay) inv.ready_ne_delay;
  ready_ne_zombie = rw (q.ready, q.zombie) inv.ready_ne_zombie;
  delay_ne_zombie = rw (q.delay, q.zombie) inv.delay_ne_zombie;
  blocked_ne_ready = rw (q.blocked, q.ready) inv.blocked_ne_ready;
  blocked_ne_delay = rw (q.blocked, q.delay) inv.blocked_ne_delay;
  blocked_ne_zombie = rw (q.blocked, q.zombie) inv.blocked_ne_zombie;
  nodes = λ r u at. elim (ℕ_discrete r p) [
    | yes e ↦ rw e (keeps (queue_node p) node)
    | no ne ↦ keeps (queue_node r) (inv.nodes r u (other r u ne at))
  ];
  heads = inv.heads;
  placed = λ r u at. elim (ℕ_discrete r p) [
    | yes e ↦ let same : w ≡ u = some-injective _ _ (sym (at_p r u e at)) in rw (e, ← same) mine
    | no ne ↦
        Placed-same k k' lists c c' u.state (queue_node r) q (others r ne)
          (inv.placed r u (other r u ne at))
  ];
}
  where
    other : (r : ℕ) (u : Pcb) → r ≢ p → k'.pcbs r ≡ some u → k.pcbs r ≡ some u
    other r u ne at = sym (ap (λ f. f r) table ∙ rw (==-ne r p ne)) ∙ at

    at_p : (r : ℕ) (u : Pcb) → r ≡ p → k'.pcbs r ≡ some u → some u ≡ some w
    at_p r u e at = sym at ∙ ap (λ f. f r) table ∙ rw (e, ==-refl p)

-- A step that changes neither lists nor processes keeps the invariant.
pub Inv-same :
    {k k' : Kernel} {lists : List ℕ} {c : ℕ → List ℕ}
    → Inv k lists c
    → SameQueues k k'
    → k'.links ≡ k.links
    → k'.pcbs ≡ k.pcbs
    → Inv k' lists c
Inv-same {k} {k'} {lists} {c} inv q links table = record {
  holds = rw links inv.holds;
  ready_in = rw (q.ready) inv.ready_in;
  delay_in = rw (q.delay) inv.delay_in;
  blocked_in = rw (q.blocked) inv.blocked_in;
  zombie_in = rw (q.zombie) inv.zombie_in;
  ready_ne_delay = rw (q.ready, q.delay) inv.ready_ne_delay;
  ready_ne_zombie = rw (q.ready, q.zombie) inv.ready_ne_zombie;
  delay_ne_zombie = rw (q.delay, q.zombie) inv.delay_ne_zombie;
  blocked_ne_ready = rw (q.blocked, q.ready) inv.blocked_ne_ready;
  blocked_ne_delay = rw (q.blocked, q.delay) inv.blocked_ne_delay;
  blocked_ne_zombie = rw (q.blocked, q.zombie) inv.blocked_ne_zombie;
  nodes = λ r u at. rw links (inv.nodes r u (sym (ap (λ f. f r) table) ∙ at));
  heads = inv.heads;
  placed = λ r u at.
      Placed-same k k' lists c c u.state (queue_node r) q (λ l. refl)
        (inv.placed r u (sym (ap (λ f. f r) table) ∙ at));
}

-- A step that changes a process's PCB and not its state keeps the invariant.
pub Inv-modify :
    {k : Kernel} {lists : List ℕ} {c : ℕ → List ℕ} (p : ℕ) (v w : Pcb)
    → Inv k lists c
    → k.pcbs p ≡ some v
    → w.state ≡ v.state
    → Inv (record k { pcbs = put k.pcbs p w }) lists c
Inv-modify {k} {lists} {c} p v w inv here same =
    let q : SameQueues k (record k { pcbs = put k.pcbs p w }) = record {
      ready = refl;
      delay = refl;
      blocked = refl;
      zombie = refl;
    } in
    Inv-move c p w inv q inv.holds (λ x h. h) refl (inv.nodes p v here) (λ r ne m. refl)
      (rw same (
        Placed-same k (record k { pcbs = put k.pcbs p w }) lists c c v.state (queue_node p) q
          (λ l. refl) (inv.placed p v here)))
