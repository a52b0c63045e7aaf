-- ===== src/Process/Queue/Each.antt =====
-- pcb.c: what the functions of the four queues have in common, and how they undo each other.
use sasha_jakob.Base.{
  ℕ, ◌≡◌, ◌≢◌, refl, some, List, [], ◌∷◌, ◌++◌, arith, has-append, ◌∈◌, ◌∉◌, ==-refl, ==-ne,
  ℕ_discrete, Ends, ℤ, erase,
}
use sasha_jakob.Links.{Links, null}
use sasha_jakob.Links.Heap.{update}
use sasha_jakob.Kernel.{
  Kernel, Pcb, process_default, process_ready, process_delayed, process_blocked, process_zombie,
  queue_node,
}
use sasha_jakob.Process.Queue.{
  add_to_ready_queue, add_to_delay_queue, add_to_zombie_queue, add_to_blocked_queue,
  remove_from_ready_queue, remove_from_delay_queue, remove_from_zombie_queue,
  remove_from_blocked_queue,
}
use sasha_jakob.Process.Queue.Placed.{Inv}
use sasha_jakob.Base.{and_then, erase-snoc, ◌>>◌, ap, ◌∙◌, subst}
use sasha_jakob.Kernel.{K, ProcessState}
use sasha_jakob.Process.Queue.Moves.{
  moved, Enters, add_to_ready_queue-Enters, add_to_delay_queue-Enters, add_to_zombie_queue-Enters,
  add_to_blocked_queue-Enters,
}
use sasha_jakob.Process.Queue.Leave.{
  Leaves, remove_from_ready_queue-Leaves, remove_from_delay_queue-Leaves,
  remove_from_zombie_queue-Leaves, remove_from_blocked_queue-Leaves,
}

-- The queue's name, its list, and the state of the processes in it.
pub data Queue : Type 0 where
  ready_one delay_one blocked_one zombie_one : Queue

abbrev pub home : Queue → Kernel → ℕ
home ready_one k = k.ready_queue
home delay_one k = k.delay_queue
home blocked_one k = k.blocked_queue
home zombie_one k = k.zombie_queue

abbrev pub state_in : Queue → ProcessState
state_in ready_one = process_ready
state_in delay_one = process_delayed
state_in blocked_one = process_blocked
state_in zombie_one = process_zombie

-- Its two functions; only that of the delay queue looks at the number of ticks.
abbrev pub add_to : Queue → ℕ → ℤ → K (Unit {0})
add_to ready_one p ticks = add_to_ready_queue p
add_to delay_one p ticks = add_to_delay_queue p ticks
add_to blocked_one p ticks = add_to_blocked_queue p
add_to zombie_one p ticks = add_to_zombie_queue p

abbrev pub remove_from : Queue → ℕ → K (Unit {0})
remove_from ready_one p = remove_from_ready_queue p
remove_from delay_one p = remove_from_delay_queue p
remove_from blocked_one p = remove_from_blocked_queue p
remove_from zombie_one p = remove_from_zombie_queue p

-- The PCB of a process that has been added.
abbrev pub entered : Queue → ℤ → Pcb → Pcb
entered ready_one ticks v = record v { state = process_ready }
entered delay_one ticks v = record v { state = process_delayed; delay_ticks = ticks }
entered blocked_one ticks v = record v { state = process_blocked }
entered zombie_one ticks v = record v { state = process_zombie }

module _ (k : Kernel) (lists : List ℕ) (c : ℕ → List ℕ) (inv : Inv k lists c) (p : ℕ) (v : Pcb)
    (here : k.pcbs p ≡ some v) where
  -- A process in the state PROCESS_DEFAULT that is added to one of the four queues stands at the
  -- queue's end and in no other list, its state is the queue's, and the invariant holds; no other
  -- process changes.
  pub add_to-Enters :
      (q : Queue) (ticks : ℤ)
      → p ≢ null
      → v.state ≡ process_default
      → Enters k lists c p (entered q ticks v) (home q k) (add_to q p ticks k)
  add_to-Enters ready_one ticks nn idle = add_to_ready_queue-Enters k lists c inv p v here nn idle
  add_to-Enters delay_one ticks nn idle =
      add_to_delay_queue-Enters k lists c inv p v here ticks nn idle
  add_to-Enters blocked_one ticks nn idle =
      add_to_blocked_queue-Enters k lists c inv p v here nn idle
  add_to-Enters zombie_one ticks nn idle = add_to_zombie_queue-Enters k lists c inv p v here nn idle

  -- A process that stands in one of the four queues, with the queue's state, is taken out of it,
  -- wherever in the queue it stands; its state is PROCESS_DEFAULT after that, and the invariant holds.
  pub remove_from-Leaves :
      (q : Queue)
      → p ≢ null
      → v.state ≡ state_in q
      → queue_node p ∈ c (home q k)
      → Leaves k lists c p v (home q k) (remove_from q p k)
  remove_from-Leaves ready_one nn st i = remove_from_ready_queue-Leaves k lists c inv p v here nn st
  remove_from-Leaves delay_one nn st i = remove_from_delay_queue-Leaves k lists c inv p v here nn st
  remove_from-Leaves blocked_one nn st i =
      remove_from_blocked_queue-Leaves k lists c inv p v here nn st i
  remove_from-Leaves zombie_one nn st i =
      remove_from_zombie_queue-Leaves k lists c inv p v here nn st

-- To add to a list and to erase from it what was added restores all lists.
update-restored :
    (c : ℕ → List ℕ) (l n : ℕ)
    → n ∉ c l
    → update (update c l (c l ++ n ∷ [])) l (erase n (update c l (c l ++ n ∷ []) l)) ≡ c
update-restored c l n out = λ i m. pointwise m i
  where
    pointwise :
        (m : ℕ)
        → update (update c l (c l ++ n ∷ [])) l (erase n (update c l (c l ++ n ∷ []) l)) m ≡ c m
    pointwise m = elim (ℕ_discrete m l) [
      | yes e ↦ rw (e, ==-refl l) (erase-snoc n (c l) out)
      | no ne ↦ rw (==-ne m l ne)
    ]

module _ (k : Kernel) (lists : List ℕ) (c : ℕ → List ℕ) (inv : Inv k lists c) (p : ℕ) (v : Pcb)
    (here : k.pcbs p ≡ some v) where
  home-lists : (q : Queue) → home q k ∈ lists
  home-lists ready_one = inv.ready_in
  home-lists delay_one = inv.delay_in
  home-lists blocked_one = inv.blocked_in
  home-lists zombie_one = inv.zombie_in

  state-entered : (q : Queue) (ticks : ℤ) → (entered q ticks v).state ≡ state_in q
  state-entered ready_one ticks = refl
  state-entered delay_one ticks = refl
  state-entered blocked_one ticks = refl
  state-entered zombie_one ticks = refl

  home-moved : (q : Queue) (s : Links) (w : Pcb) → home q (moved k s p w) ≡ home q k
  home-moved ready_one s w = refl
  home-moved delay_one s w = refl
  home-moved blocked_one s w = refl
  home-moved zombie_one s w = refl

  -- A process that is added to a queue and taken out of it again leaves all lists as they were, and
  -- its state is PROCESS_DEFAULT again.
  pub remove_from-add_to :
      (q : Queue) (ticks : ℤ)
      → p ≢ null
      → v.state ≡ process_default
      → Ends ((add_to q p ticks >> remove_from q p) k) λ _ k'.
        (k'.pcbs p ≡ some (record (entered q ticks v) { state = process_default })) × Inv k' lists c
  remove_from-add_to q ticks nn idle =
      let n = queue_node p in
      let l = home q k in
      let w = entered q ticks v in
      let free : n ∉ c l = (rw idle at (inv.placed p v here)) l (home-lists q) in
      let (s1, run1, inv1) = add_to-Enters k lists c inv p v here q ticks nn idle in
      let k1 = moved k s1 p w in
      let c1 = update c l (c l ++ n ∷ []) in
      let at : k1.pcbs p ≡ some w = rw (==-refl p) refl in
      let mem : n ∈ c1 (home q k1) =
        rw (home-moved q s1 w, ==-refl l) (ground (arith, has-append n (c l) (n ∷ []))) in
      let (s2, run2, inv2) =
        remove_from-Leaves k1 lists c1 inv1 p w at q nn (state-entered q ticks) mem in
      (
        tt,
        moved k1 s2 p (record w { state = process_default }),
        ap (λ r. and_then r (λ (_, s). remove_from q p s)) run1 ∙ run2,
        (
          rw (==-refl p) refl,
          subst (Inv (moved k1 s2 p (record w { state = process_default })) lists)
              (ap (λ m. update c1 m (erase n (c1 m))) (home-moved q s1 w)
                ∙ update-restored c l n free)
              inv2,
        ),
      )
