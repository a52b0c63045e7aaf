-- ===== src/Process/Scan/Delay.antt =====
-- pcb.c: what one clock tick does to the processes in the delay queue.
use sasha_jakob.Base.{
  ℕ, ◌≡◌, ◌≢◌, refl, Option, none, some, Bool, true, false, List, [], ◌∷◌, ◌++◌, map, ◌∙◌, sym,
  arith, Ends, pos, ==-refl, ==-ne, pred_ℤ, eq_ℤ, if◌then◌else◌, has, has-append, ◌∈◌, ◌∉◌, erase,
  Distinct,
}
use sasha_jakob.Links.{Links, put, null}
use sasha_jakob.Links.Heap.{update}
use sasha_jakob.Kernel.{Kernel, Pcb, process_default, process_delayed, process_ready, queue_node}
use sasha_jakob.Process.Queue.{add_to_ready_queue, remove_from_delay_queue}
use sasha_jakob.Process.Queue.Placed.{Inv, Inv-modify, SameGlobals}
use sasha_jakob.Process.Queue.Moves.{moved, add_to_ready_queue-Enters}
use sasha_jakob.Process.Queue.Leave.{remove_from_delay_queue-Leaves}
use sasha_jakob.Process.Scan.{tick}

-- Whether the tick is a process's last one, and its PCB after the tick.
abbrev pub expires : Option Pcb → Bool
expires none = false
expires (some v) = eq_ℤ (pred_ℤ v.delay_ticks) (pos 0)

abbrev pub ticked : Option Pcb → Option Pcb
ticked none = none
ticked (some v) = some (record v {
  delay_ticks = pred_ℤ v.delay_ticks;
  state = if expires (some v) then process_ready else v.state;
})

-- The processes that the tick wakes, and those that stay.
abbrev pub woken : (ℕ → Option Pcb) → List ℕ → List ℕ
woken f [] = []
woken f (p ∷ ps) = if expires (f p) then p ∷ woken f ps else woken f ps

abbrev pub kept : (ℕ → Option Pcb) → List ℕ → List ℕ
kept f [] = []
kept f (p ∷ ps) = if expires (f p) then kept f ps else p ∷ kept f ps

-- Only what the table says of the processes in the list counts.
pub woken-agree :
    (f g : ℕ → Option Pcb) (ps : List ℕ) → ((p : ℕ) → p ∈ ps → g p ≡ f p) → woken g ps ≡ woken f ps
woken-agree f g [] h = refl
woken-agree f g (p ∷ ps) h =
    rw (h p (ground arith), woken-agree f g ps (λ r i. h r (ground arith))) refl

pub kept-agree :
    (f g : ℕ → Option Pcb) (ps : List ℕ) → ((p : ℕ) → p ∈ ps → g p ≡ f p) → kept g ps ≡ kept f ps
kept-agree f g [] h = refl
kept-agree f g (p ∷ ps) h =
    rw (h p (ground arith), kept-agree f g ps (λ r i. h r (ground arith))) refl

-- The tick has been given to `ps`, from the state `k`, where `front` are the nodes of the delay queue
-- before them.
abbrev pub Ticks :
    Kernel → List ℕ → (ℕ → List ℕ) → (front ps : List ℕ) → Option (Unit {0} × Kernel) → Type 0
Ticks k lists c front ps r = Ends r λ _ k'.
    (c' : ℕ → List ℕ) × Inv k' lists c'
    × (c' k.delay_queue ≡ front ++ map queue_node (kept k.pcbs ps))
    × (c' k.ready_queue ≡ c k.ready_queue ++ map queue_node (woken k.pcbs ps))
    × ((p : ℕ) → k'.pcbs p ≡ (if has p ps then ticked (k.pcbs p) else k.pcbs p))
    × SameGlobals k k'
    × (k'.current_process ≡ k.current_process)

-- The processes have PCBs, which say that they are delayed.
abbrev pub Delayed : Kernel → List ℕ → Type 0
Delayed k [] = Unit {0}
Delayed k (p ∷ ps) =
    ((v : Pcb) × (k.pcbs p ≡ some v) × (v.state ≡ process_delayed) × (p ≢ null)) × Delayed k ps

pub Delayed-agree :
    (k k1 : Kernel) (ps : List ℕ)
    → ((p : ℕ) → p ∈ ps → k1.pcbs p ≡ k.pcbs p)
    → Delayed k ps
    → Delayed k1 ps
Delayed-agree k k1 [] h d = d
Delayed-agree k k1 (p ∷ ps) h ((v, at, st, real), d) =
    ((v, h p (ground arith) ∙ at, st, real), Delayed-agree k k1 ps (λ r i. h r (ground arith)) d)

abbrev pub one_less : Pcb → Pcb
one_less v = record v { delay_ticks = pred_ℤ v.delay_ticks }

abbrev pub counted_down : Kernel → ℕ → Pcb → Kernel
counted_down k q v = record k { pcbs = put k.pcbs q (one_less v) }

abbrev pub gone_ready : Kernel → Links → Links → ℕ → Pcb → Kernel
gone_ready k s1 s2 q v =
    moved (moved (counted_down k q v) s1 q (record (one_less v) { state = process_default })) s2 q
      (record (one_less v) { state = process_ready })

abbrev pub to_ready : Kernel → (ℕ → List ℕ) → ℕ → ℕ → List ℕ
to_ready k c q =
    let c1 = update c k.delay_queue (erase (queue_node q) (c k.delay_queue)) in
    update c1 k.ready_queue (c1 k.ready_queue ++ queue_node q ∷ [])

tick-run :
    (k k1 k2 : Kernel) (q : ℕ) (v : Pcb)
    → k.pcbs q ≡ some v
    → eq_ℤ (pred_ℤ v.delay_ticks) (pos 0) ≡ true
    → remove_from_delay_queue q (counted_down k q v) ≡ some (tt, k1)
    → add_to_ready_queue q k1 ≡ some (tt, k2)
    → tick q k ≡ some (tt, k2)
unfolding tick
tick-run k k1 k2 q v here last run1 run2 = ground (arith, here, ==-refl q, last, run1, run2)

pub tick-waits :
    (k : Kernel) (q : ℕ) (v : Pcb)
    → k.pcbs q ≡ some v
    → eq_ℤ (pred_ℤ v.delay_ticks) (pos 0) ≡ false
    → tick q k ≡ some (tt, counted_down k q v)
unfolding tick
tick-waits k q v here more = ground (arith, here, ==-refl q, more)

pub tick-wakes :
    (k : Kernel) (lists : List ℕ) (c : ℕ → List ℕ) (q : ℕ) (v : Pcb)
    → Inv k lists c
    → k.pcbs q ≡ some v
    → v.state ≡ process_delayed
    → q ≢ null
    → eq_ℤ (pred_ℤ v.delay_ticks) (pos 0) ≡ true
    → (s1 s2 : Links) × (tick q k ≡ some (tt, gone_ready k s1 s2 q v))
      × Inv (gone_ready k s1 s2 q v) lists (to_ready k c q)
tick-wakes k lists c q v inv here st real last =
    let k0 = counted_down k q v in
    let inv0 : Inv k0 lists c = Inv-modify q v (one_less v) inv here refl in
    let at0 : k0.pcbs q ≡ some (one_less v) = rw (==-refl q) refl in
    let (s1, run1, inv1) =
      remove_from_delay_queue-Leaves k0 lists c inv0 q (one_less v) at0 real st in
    let u = record (one_less v) { state = process_default } in
    let c1 = update c k.delay_queue (erase (queue_node q) (c k.delay_queue)) in
    let (s2, run2, inv2) =
      add_to_ready_queue-Enters (moved k0 s1 q u) lists c1 inv1 q u (rw (==-refl q) refl) real
        refl in
    (s1, s2, tick-run k (moved k0 s1 q u) (gone_ready k s1 s2 q v) q v here last run1 run2, inv2)

-- What erasing leaves, where the node stands behind `front`.
erase-middle :
    (n : ℕ) (front rest : List ℕ) → n ∉ front → erase n (front ++ n ∷ rest) ≡ front ++ rest
erase-middle n [] rest out = rw (==-refl n) refl
erase-middle n (x ∷ front) rest out = ground (arith, erase-middle n front rest)

pub Distinct-front : (n : ℕ) (front rest : List ℕ) → Distinct (front ++ n ∷ rest) → n ∉ front
Distinct-front n [] rest d = refl
Distinct-front n (x ∷ front) rest (out, d) =
    ground (arith, has-append x front (n ∷ rest), Distinct-front n front rest d, out)

pub Distinct-rest : (n : ℕ) (front rest : List ℕ) → Distinct (front ++ n ∷ rest) → n ∉ rest
Distinct-rest n [] rest (out, d) = out
Distinct-rest n (x ∷ front) rest (out, d) = Distinct-rest n front rest d

pub to_ready-delay :
    (k : Kernel) (c : ℕ → List ℕ) (q : ℕ) (front rest : List ℕ)
    → k.ready_queue ≢ k.delay_queue
    → c k.delay_queue ≡ front ++ queue_node q ∷ rest
    → queue_node q ∉ front
    → to_ready k c q k.delay_queue ≡ front ++ rest
to_ready-delay k c q front rest ne entries out =
    rw (==-ne k.delay_queue k.ready_queue (λ e. ne (sym e)), ==-refl k.delay_queue, entries)
      (erase-middle (queue_node q) front rest out)

pub to_ready-ready :
    (k : Kernel) (c : ℕ → List ℕ) (q : ℕ)
    → k.ready_queue ≢ k.delay_queue
    → to_ready k c q k.ready_queue ≡ c k.ready_queue ++ queue_node q ∷ []
to_ready-ready k c q ne = rw (==-refl k.ready_queue, ==-ne k.ready_queue k.delay_queue ne) refl
