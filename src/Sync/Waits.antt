-- ===== src/Sync/Waits.antt =====
-- A list of processes that wait, which is none of the queues, and how its first process is woken.
use sasha_jakob.Base.{
  ℕ, ◌≡◌, ◌≢◌, refl, some, true, is_some, List, [], ◌∷◌, ◌++◌, map, ◌∈◌, ==-refl, ==-ne, ℕ_discrete,
  ap, ◌∙◌, sym, arith, pos, length, length-map,
}
use sasha_jakob.Links.{Links, null, pop}
use sasha_jakob.Links.Chain.{IsNode}
use sasha_jakob.Links.Heap.{update, Holds, pop-Holds}
use sasha_jakob.Kernel.{Kernel, Pcb, process_default, process_ready, queue_node}
use sasha_jakob.Process.Queue.{add_to_ready_queue}
use sasha_jakob.Process.Queue.Placed.{Inv, SameQueues}
use sasha_jakob.Process.Queue.Moves.{moved, add_to_ready_queue-Enters}
use sasha_jakob.Sync.Wake.{pop-Inv}

-- Who is woken when one process is, and who waits on.
abbrev pub first_of : List ℕ → List ℕ
first_of [] = []
first_of (q ∷ qs) = q ∷ []

abbrev pub rest_of : List ℕ → List ℕ
rest_of [] = []
rest_of (q ∷ qs) = qs

-- The processes `queue` wait in the list `w`, in this order.
pub record Waits (k : Kernel) (lists : List ℕ) (c : ℕ → List ℕ) (w : ℕ) (queue : List ℕ)
    : Type 0 where
  pub listed : w ∈ lists
  pub waits : c w ≡ map queue_node queue
  pub ne_ready : w ≢ k.ready_queue
  pub ne_delay : w ≢ k.delay_queue
  pub ne_zombie : w ≢ k.zombie_queue
  pub alive : (q : ℕ) → q ∈ queue → (q ≢ null) × (is_some (k.pcbs q) ≡ true)

-- The kernel when process `q` with the PCB `u` has gone from a list of waiting processes to the
-- ready queue.
abbrev pub readied : Kernel → Links → Links → ℕ → Pcb → Kernel
readied k s1 s2 q u = moved (moved k s1 q u) s2 q (record u { state = process_ready })

abbrev pub now_ready : Kernel → (ℕ → List ℕ) → (w q : ℕ) → List ℕ → ℕ → List ℕ
now_ready k c w q xs =
    update (update c w xs) k.ready_queue (update c w xs k.ready_queue ++ queue_node q ∷ [])

-- A process that has been taken from the front of `w` goes to the end of the ready queue.
pub ready-Inv :
    (k : Kernel) (lists : List ℕ) (c : ℕ → List ℕ) (w q : ℕ) (xs : List ℕ) (v u : Pcb) (s1 : Links)
    → Inv k lists c
    → w ∈ lists
    → c w ≡ queue_node q ∷ xs
    → k.pcbs q ≡ some v
    → u.state ≡ process_default
    → q ≢ null
    → Holds s1 lists (update c w xs)
    → ((x : ℕ) → IsNode k.links x → IsNode s1 x)
    → (s2 : Links) × (add_to_ready_queue q (moved k s1 q u) ≡ some (tt, readied k s1 s2 q u))
      × Inv (readied k s1 s2 q u) lists (now_ready k c w q xs)
ready-Inv k lists c w q xs v u s1 inv listed entries at_q idle real holds keeps =
    add_to_ready_queue-Enters (moved k s1 q u) lists (update c w xs)
      (pop-Inv w q xs v u s1 inv listed entries at_q idle holds keeps) q u (rw (==-refl q) refl)
      real idle

-- The first process that waits in `w` goes from there to the end of the ready queue.
pub wake-Inv :
    (k : Kernel) (lists : List ℕ) (c : ℕ → List ℕ) (w q : ℕ) (xs : List ℕ) (v u : Pcb)
    → Inv k lists c
    → w ∈ lists
    → c w ≡ queue_node q ∷ xs
    → k.pcbs q ≡ some v
    → u.state ≡ process_default
    → q ≢ null
    → (s1 s2 : Links) × (pop w k.links ≡ some (queue_node q, s1))
      × (add_to_ready_queue q (moved k s1 q u) ≡ some (tt, readied k s1 s2 q u))
      × Inv (readied k s1 s2 q u) lists (now_ready k c w q xs)
wake-Inv k lists c w q xs v u inv listed entries at_q idle real =
    let (n, s1, run, (front, holds, keeps)) =
      pop-Holds inv.holds w listed (queue_node q) xs entries in
    let (s2, ready_run, ready_inv) =
      ready-Inv k lists c w q xs v u s1 inv listed entries at_q idle real holds keeps in
    (s1, s2, run ∙ ap (λ m. some (m, s1)) front, ready_run, ready_inv)

-- The list is as it was, and so are the globals and the processes that wait in it.
pub Waits-keep :
    (k k' : Kernel) (lists : List ℕ) (c c' : ℕ → List ℕ) (w : ℕ) (queue : List ℕ)
    → Waits k lists c w queue
    → SameQueues k k'
    → c' w ≡ c w
    → ((q : ℕ) → is_some (k.pcbs q) ≡ true → is_some (k'.pcbs q) ≡ true)
    → Waits k' lists c' w queue
Waits-keep k k' lists c c' w queue h q same still = record {
  listed = h.listed;
  waits = same ∙ h.waits;
  ne_ready = rw (q.ready) h.ne_ready;
  ne_delay = rw (q.delay) h.ne_delay;
  ne_zombie = rw (q.zombie) h.ne_zombie;
  alive = λ r i. let (real, lives) = h.alive r i in (real, still r lives);
}

pub Waits-count :
    (k : Kernel) (lists : List ℕ) (c : ℕ → List ℕ) (w : ℕ) (queue : List ℕ)
    → Inv k lists c
    → Waits k lists c w queue
    → k.links.count w ≡ some (pos (length queue))
Waits-count k lists c w queue inv h =
    (inv.holds.each w h.listed).count
    ∙ ap (λ n. some (pos n)) (ap length h.waits ∙ length-map queue_node queue)

-- The others that wait, wait on.
pub wake-Waits :
    (k : Kernel) (lists : List ℕ) (c : ℕ → List ℕ) (w q : ℕ) (qs : List ℕ) (s1 s2 : Links) (u : Pcb)
    → Waits k lists c w (q ∷ qs)
    → Waits (readied k s1 s2 q u) lists (now_ready k c w q (map queue_node qs)) w qs
wake-Waits k lists c w q qs s1 s2 u h = record {
  listed = h.listed;
  waits = rw (==-ne w k.ready_queue h.ne_ready, ==-refl w);
  ne_ready = h.ne_ready;
  ne_delay = h.ne_delay;
  ne_zombie = h.ne_zombie;
  alive = λ r i.
      let was : (r ≢ null) × (is_some (k.pcbs r) ≡ true) = h.alive r (ground arith) in
      (was.0, still r (was.1));
}
  where
    still : (r : ℕ) → is_some (k.pcbs r) ≡ true → is_some ((readied k s1 s2 q u).pcbs r) ≡ true
    still r old = elim (ℕ_discrete r q) [
      | yes e ↦ rw (e, ==-refl q)
      | no ne ↦ rw (==-ne r q ne) old
    ]

-- The ready queue is longer by the process that was woken.
pub now_ready-ready :
    (k : Kernel) (c : ℕ → List ℕ) (w q : ℕ) (xs : List ℕ)
    → w ≢ k.ready_queue
    → now_ready k c w q xs k.ready_queue ≡ c k.ready_queue ++ queue_node q ∷ []
now_ready-ready k c w q xs ne = rw (==-refl k.ready_queue, ==-ne k.ready_queue w (λ e. ne (sym e)))
