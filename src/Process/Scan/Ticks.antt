-- ===== src/Process/Scan/Ticks.antt =====
-- pcb.c: the loop of update_delayed_processes gives one tick to each process of the delay queue.
use mathlib.Core.List.{append_assoc, append-nil}
use sasha_jakob.Base.{
  ℕ, zero, suc, ◌≡◌, ◌≢◌, refl, Option, some, Bool, true, false, List, [], ◌∷◌, ◌++◌, map, ap, ◌∙◌,
  sym, arith, pos, ==-refl, ==-ne, pred_ℤ, eq_ℤ, if◌then◌else◌, has, ◌∈◌, ◌∉◌, ℕ_discrete,
  Bool-cases, inl, inr, length, length-map, ◌<◌, first, ne_of_mem,
}
use sasha_jakob.Links.{Links}
use sasha_jakob.Links.Chain.{Chain-split, Chain-first, IsList}
use sasha_jakob.Links.Walk.{list_is_empty-peek}
use sasha_jakob.Kernel.{Kernel, Pcb, queue_node, not_mem-nodes}
use sasha_jakob.Process.Queue.Placed.{Inv, Inv-modify}
use sasha_jakob.Process.Scan.{tick, delay_loop, update_delayed_processes}
use sasha_jakob.Kernel.{pcb_from_queue_node-queue_node}
use sasha_jakob.Process.Scan.Delay.{
  expires, ticked, woken, kept, woken-agree, kept-agree, Ticks, Delayed, Delayed-agree, one_less,
  counted_down, gone_ready, to_ready, tick-waits, tick-wakes, Distinct-front, Distinct-rest,
  to_ready-delay, to_ready-ready,
}

-- The table after one process's tick and then the others'.
pcbs-ticked :
    (f g h : ℕ → Option Pcb) (q : ℕ) (qs : List ℕ)
    → g q ≡ ticked (f q)
    → ((p : ℕ) → p ≢ q → g p ≡ f p)
    → q ∉ qs
    → ((p : ℕ) → h p ≡ (if has p qs then ticked (g p) else g p))
    → (p : ℕ) → h p ≡ (if has p (q ∷ qs) then ticked (f p) else f p)
pcbs-ticked f g h q qs here others out rest p = elim (ℕ_discrete p q) [
  | yes e ↦ rest p ∙ rw (e, ==-refl q, out) here
  | no ne ↦ rest p ∙ rw (==-ne p q ne, others p ne)
]

module _ (k : Kernel) (lists : List ℕ) (c : ℕ → List ℕ) (inv : Inv k lists c) (q : ℕ)
    (front rest : List ℕ) (entries : c k.delay_queue ≡ front ++ queue_node q ∷ rest) where
  whole : IsList k.links k.delay_queue (front ++ queue_node q ∷ rest)
  whole = rw entries at (inv.holds.each k.delay_queue inv.delay_in)

  following : k.links.next (queue_node q) ≡ some (first rest k.delay_queue)
  following =
      let (_, behind) =
        Chain-split k.links k.delay_queue front (queue_node q) rest k.delay_queue whole.chain in
      (Chain-first k.links (queue_node q) rest k.delay_queue behind).0

  no_head : queue_node q ≢ k.delay_queue
  no_head e = ne_of_mem k.delay_queue (queue_node q) lists inv.delay_in (inv.heads q) (sym e)

loop-step :
    (k k1 : Kernel) (fuel head q next : ℕ)
    → queue_node q ≢ head
    → k.links.next (queue_node q) ≡ some next
    → tick q k ≡ some (tt, k1)
    → delay_loop (suc fuel) head (queue_node q) k ≡ delay_loop fuel head next k1
unfolding delay_loop
loop-step k k1 fuel head q next ne follows run =
    ground (arith, ==-ne (queue_node q) head ne, follows, run, pcb_from_queue_node-queue_node q)

-- The two lists of the specification, where the first process's tick is its last and where it is not.
kept-cons :
    (f : ℕ → Option Pcb) (q : ℕ) (qs : List ℕ) (b : Bool)
    → expires (f q) ≡ b
    → kept f (q ∷ qs) ≡ (if b then kept f qs else q ∷ kept f qs)
kept-cons f q qs b e = rw e refl

woken-cons :
    (f : ℕ → Option Pcb) (q : ℕ) (qs : List ℕ) (b : Bool)
    → expires (f q) ≡ b
    → woken f (q ∷ qs) ≡ (if b then q ∷ woken f qs else woken f qs)
woken-cons f q qs b e = rw e refl

module _ (k : Kernel) (lists : List ℕ) (c : ℕ → List ℕ) (inv : Inv k lists c) (q : ℕ)
    (front qs : List ℕ) (entries : c k.delay_queue ≡ front ++ queue_node q ∷ map queue_node qs)
    (v : Pcb) (here : k.pcbs q ≡ some v) (fuel : ℕ) where
  once : q ∉ qs
  once = not_mem-nodes q qs (
      Distinct-rest (queue_node q) front (map queue_node qs)
        (whole k lists c inv q front (map queue_node qs) entries).distinct)

  unseen :
      (k1 : Kernel)
      → ((p : ℕ) → p ≢ q → k1.pcbs p ≡ k.pcbs p)
      → (p : ℕ) → p ∈ qs
      → k1.pcbs p ≡ k.pcbs p
  unseen k1 others p i = others p (ne_of_mem p q qs i once)

  expires-here : (b : Bool) → eq_ℤ (pred_ℤ v.delay_ticks) (pos 0) ≡ b → expires (k.pcbs q) ≡ b
  expires-here b e = ap expires here ∙ e

  stays-Ticks :
      eq_ℤ (pred_ℤ v.delay_ticks) (pos 0) ≡ false
      → Ticks (counted_down k q v) lists c (front ++ queue_node q ∷ []) qs (
          delay_loop fuel k.delay_queue
            (first (map queue_node qs) k.delay_queue)
            (counted_down k q v))
      → Ticks k lists c front (q ∷ qs) (delay_loop (suc fuel) k.delay_queue (queue_node q) k)
  stays-Ticks more (_, k', run, (c', inv', delays, readies, table, names, runs)) =
      let k1 = counted_down k q v in
      let others : (p : ℕ) → p ≢ q → k1.pcbs p ≡ k.pcbs p = λ p ne. rw (==-ne p q ne) refl in
      (
        tt,
        k',
        loop-step k k1 fuel k.delay_queue q (first (map queue_node qs) k.delay_queue)
              (no_head k lists c inv q front (map queue_node qs) entries)
              (following k lists c inv q front (map queue_node qs) entries)
              (tick-waits k q v here more)
            ∙ run,
        (
          c',
          inv',
          delays
              ∙ ap (λ xs. (front ++ queue_node q ∷ []) ++ map queue_node xs)
                  (kept-agree k.pcbs k1.pcbs qs (unseen k1 others))
              ∙ append_assoc front (queue_node q ∷ []) (map queue_node (kept k.pcbs qs))
              ∙ ap (λ xs. front ++ map queue_node xs)
                  (sym (kept-cons k.pcbs q qs false (expires-here false more))),
          readies
              ∙ ap (λ xs. c k.ready_queue ++ map queue_node xs)
                  (woken-agree k.pcbs k1.pcbs qs (unseen k1 others)
                    ∙ sym (woken-cons k.pcbs q qs false (expires-here false more))),
          pcbs-ticked k.pcbs k1.pcbs k'.pcbs q qs (rw (==-refl q, here, more) refl) others once
              table,
          names,
          runs,
        ),
      )

  leaves-Ticks :
      (s1 s2 : Links)
      → tick q k ≡ some (tt, gone_ready k s1 s2 q v)
      → eq_ℤ (pred_ℤ v.delay_ticks) (pos 0) ≡ true
      → Ticks (gone_ready k s1 s2 q v) lists (to_ready k c q) front qs (
          delay_loop fuel k.delay_queue
            (first (map queue_node qs) k.delay_queue)
            (gone_ready k s1 s2 q v))
      → Ticks k lists c front (q ∷ qs) (delay_loop (suc fuel) k.delay_queue (queue_node q) k)
  leaves-Ticks s1 s2 tick_run last (_, k', run, (c', inv', delays, readies, table, names, runs)) =
      let k1 = gone_ready k s1 s2 q v in
      let others : (p : ℕ) → p ≢ q → k1.pcbs p ≡ k.pcbs p = λ p ne. rw (==-ne p q ne) refl in
      (
        tt,
        k',
        loop-step k k1 fuel k.delay_queue q (first (map queue_node qs) k.delay_queue)
              (no_head k lists c inv q front (map queue_node qs) entries)
              (following k lists c inv q front (map queue_node qs) entries) tick_run
            ∙ run,
        (
          c',
          inv',
          delays
              ∙ ap (λ xs. front ++ map queue_node xs)
                  (kept-agree k.pcbs k1.pcbs qs (unseen k1 others)
                    ∙ sym (kept-cons k.pcbs q qs true (expires-here true last))),
          readies
              ∙ ap (λ ys. ys ++ map queue_node (woken k1.pcbs qs))
                  (to_ready-ready k c q inv.ready_ne_delay)
              ∙ append_assoc (c k.ready_queue) (queue_node q ∷ [])
                  (map queue_node (woken k1.pcbs qs))
              ∙ ap (λ xs. c k.ready_queue ++ queue_node q ∷ map queue_node xs)
                  (woken-agree k.pcbs k1.pcbs qs (unseen k1 others))
              ∙ ap (λ xs. c k.ready_queue ++ map queue_node xs)
                  (sym (woken-cons k.pcbs q qs true (expires-here true last))),
          pcbs-ticked k.pcbs k1.pcbs k'.pcbs q qs (rw (==-refl q, here, last) refl) others once
              table,
          names,
          runs,
        ),
      )

delay_loop-Ticks :
    (k : Kernel) (lists : List ℕ) (c : ℕ → List ℕ) (front ps : List ℕ) (fuel : ℕ)
    → length ps < fuel
    → Inv k lists c
    → c k.delay_queue ≡ front ++ map queue_node ps
    → Delayed k ps
    → Ticks k lists c front ps
        (delay_loop fuel k.delay_queue (first (map queue_node ps) k.delay_queue) k)
unfolding delay_loop
delay_loop-Ticks k lists c front ps zero enough inv entries d = elim enough [ ]
delay_loop-Ticks k lists c front [] (suc fuel) enough inv entries d = (
  tt,
  k,
  rw (==-refl k.delay_queue) refl,
  (
    c,
    inv,
    entries,
    sym (append-nil (c k.ready_queue)),
    (λ p. refl),
    (refl, refl, refl, refl),
    refl,
  ),
)
delay_loop-Ticks k lists c front (q ∷ qs) (suc fuel) enough inv entries ((v, here, st, real), d) =
    elim (Bool-cases (eq_ℤ (pred_ℤ v.delay_ticks) (pos 0))) [
      | inl last ↦
          let (s1, s2, run, inv1) = tick-wakes k lists c q v inv here st real last in
          let k1 = gone_ready k s1 s2 q v in
          leaves-Ticks k lists c inv q front qs entries v here fuel s1 s2 run last (
            delay_loop-Ticks k1 lists (to_ready k c q) front qs fuel (omega arith) inv1
              (to_ready-delay k c q front (map queue_node qs) inv.ready_ne_delay entries (
                Distinct-front (queue_node q) front (map queue_node qs)
                  (whole k lists c inv q front (map queue_node qs) entries).distinct))
              (Delayed-agree k k1 qs
                (unseen k lists c inv q front qs entries v here fuel k1
                  (λ p ne. rw (==-ne p q ne) refl))
                d))
      | inr more ↦
          let k1 = counted_down k q v in
          stays-Ticks k lists c inv q front qs entries v here fuel more (
            delay_loop-Ticks k1 lists c (front ++ queue_node q ∷ []) qs fuel (omega arith)
              (Inv-modify q v (one_less v) inv here refl)
              (entries ∙ sym (append_assoc front (queue_node q ∷ []) (map queue_node qs)))
              (Delayed-agree k k1 qs
                (unseen k lists c inv q front qs entries v here fuel k1
                  (λ p ne. rw (==-ne p q ne) refl))
                d))
    ]

-- update_delayed_processes comes to an end with one tick taken from every process of the delay queue;
-- those whose last tick it was are ready, at the end of the ready queue and in the order in which they
-- stood, the others stay delayed in their order, no other process changes, the queues, the running
-- process and the idle process stay, and the invariant holds.
pub update_delayed_processes_lem :
    (k : Kernel) (lists : List ℕ) (c : ℕ → List ℕ) (ps : List ℕ)
    → Inv k lists c
    → c k.delay_queue ≡ map queue_node ps
    → Delayed k ps
    → Ticks k lists c [] ps (update_delayed_processes k)
unfolding update_delayed_processes
update_delayed_processes_lem k lists c [] inv entries d =
    let is : IsList k.links k.delay_queue [] =
      rw entries at (inv.holds.each k.delay_queue inv.delay_in) in
    (
      tt,
      k,
      ground (arith, (list_is_empty-peek k.delay_queue k.links [] is).0),
      (
        c,
        inv,
        entries,
        sym (append-nil (c k.ready_queue)),
        (λ p. refl),
        (refl, refl, refl, refl),
        refl,
      ),
    )
update_delayed_processes_lem k lists c (q ∷ qs) inv entries d =
    let xs = queue_node q ∷ map queue_node qs in
    let is : IsList k.links k.delay_queue xs =
      rw entries at (inv.holds.each k.delay_queue inv.delay_in) in
    let (_, k', run, post) =
      delay_loop-Ticks k lists c [] (q ∷ qs) (suc (length xs))
        (omega (arith, length-map queue_node qs)) inv entries d in
    (
      tt,
      k',
      ground (arith, (list_is_empty-peek k.delay_queue k.links xs is).0, is.count, is.chain, run),
      post,
    )
