-- ===== src/Process/Queue/Moves.antt =====
-- pcb.c: the functions that move a process into a queue, and the invariant.
use sasha_jakob.Base.{
  ℕ, ◌≡◌, ◌≢◌, refl, Option, some, List, [], ◌∷◌, ◌++◌, arith, has-append, ◌∈◌, ==-refl, ℤ,
}
use sasha_jakob.Links.{Links, put, null}
use sasha_jakob.Links.Chain.{IsNode}
use sasha_jakob.Links.Heap.{update, Holds, IsFree, insert_tail-Holds}
use sasha_jakob.Kernel.{
  Kernel, Pcb, process_default, process_ready, process_delayed, process_blocked, process_zombie,
  queue_node,
}
use sasha_jakob.Process.Queue.{
  add_to_ready_queue, add_to_delay_queue, add_to_zombie_queue, add_to_blocked_queue,
}
use sasha_jakob.Process.Queue.Placed.{Placed, Inv, Inv-move, has-update_same}

-- The kernel with other links and another PCB for `p`.
abbrev pub moved : Kernel → Links → ℕ → Pcb → Kernel
moved k s p w = record k { links = s; pcbs = put k.pcbs p w }

-- The run ends; process `p` has the PCB `w` and stands at the end of the list `l`, nothing else but
-- the links has changed, and the invariant holds.
abbrev pub Enters :
    Kernel → List ℕ → (ℕ → List ℕ) → ℕ → Pcb → ℕ → Option (Unit {0} × Kernel) → Type 0
Enters k lists c p w l r =
    (s' : Links) × (r ≡ some (tt, moved k s' p w))
    × Inv (moved k s' p w) lists (update c l (c l ++ queue_node p ∷ []))

module _ (k : Kernel) (lists : List ℕ) (c : ℕ → List ℕ) (inv : Inv k lists c) (p : ℕ) (v : Pcb)
    (here : k.pcbs p ≡ some v) where
  pub enter-Inv :
      (l : ℕ) (w : Pcb) (s' : Links)
      → l ∈ lists
      → Holds s' lists (update c l (c l ++ queue_node p ∷ []))
      → ((x : ℕ) → IsNode k.links x → IsNode s' x)
      → Placed (moved k s' p w) lists (update c l (c l ++ queue_node p ∷ [])) w.state (queue_node p)
      → Inv (moved k s' p w) lists (update c l (c l ++ queue_node p ∷ []))
  enter-Inv l w s' at holds keeps fits =
      Inv-move (update c l (c l ++ queue_node p ∷ [])) p w inv
        (record { ready = refl; delay = refl; blocked = refl; zombie = refl }) holds keeps refl
        (inv.nodes p v here)
        (λ q ne.
          has-update_same c l (c l ++ queue_node p ∷ []) (queue_node q)
            (ground (arith, has-append (queue_node q) (c l) (queue_node p ∷ []))))
        fits

  pub now_last : (l : ℕ) → queue_node p ∈ update c l (c l ++ queue_node p ∷ []) l
  now_last l = rw (==-refl l) (ground (arith, has-append (queue_node p) (c l) (queue_node p ∷ [])))

  pub is_free : v.state ≡ process_default → IsFree lists c (queue_node p)
  is_free idle = (inv.heads p, rw idle at (inv.placed p v here))

  pub add_to_ready_queue-Enters :
      p ≢ null
      → v.state ≡ process_default
      → Enters k lists c p
          (record v { state = process_ready })
          k.ready_queue
          (add_to_ready_queue p k)
  unfolding add_to_ready_queue
  add_to_ready_queue-Enters nn idle =
      let (_, s', run, (holds, keeps)) =
        insert_tail-Holds inv.holds k.ready_queue inv.ready_in (queue_node p) (inv.nodes p v here)
          (is_free idle) in
      (
        s',
        ground (arith, here, run),
        enter-Inv k.ready_queue (record v { state = process_ready }) s' inv.ready_in holds keeps
            (now_last k.ready_queue),
      )

  pub add_to_delay_queue-Enters :
      (ticks : ℤ)
      → p ≢ null
      → v.state ≡ process_default
      → Enters k lists c p
          (record v { state = process_delayed; delay_ticks = ticks })
          k.delay_queue
          (add_to_delay_queue p ticks k)
  unfolding add_to_delay_queue
  add_to_delay_queue-Enters ticks nn idle =
      let (_, s', run, (holds, keeps)) =
        insert_tail-Holds inv.holds k.delay_queue inv.delay_in (queue_node p) (inv.nodes p v here)
          (is_free idle) in
      (
        s',
        ground (arith, here, run),
        enter-Inv k.delay_queue (record v { state = process_delayed; delay_ticks = ticks }) s'
            inv.delay_in holds keeps (now_last k.delay_queue),
      )

  pub add_to_zombie_queue-Enters :
      p ≢ null
      → v.state ≡ process_default
      → Enters k lists c p
          (record v { state = process_zombie })
          k.zombie_queue
          (add_to_zombie_queue p k)
  unfolding add_to_zombie_queue
  add_to_zombie_queue-Enters nn idle =
      let (_, s', run, (holds, keeps)) =
        insert_tail-Holds inv.holds k.zombie_queue inv.zombie_in (queue_node p) (inv.nodes p v here)
          (is_free idle) in
      (
        s',
        ground (arith, here, run),
        enter-Inv k.zombie_queue (record v { state = process_zombie }) s' inv.zombie_in holds keeps
            (now_last k.zombie_queue),
      )

  pub add_to_blocked_queue-Enters :
      p ≢ null
      → v.state ≡ process_default
      → Enters k lists c p
          (record v { state = process_blocked })
          k.blocked_queue
          (add_to_blocked_queue p k)
  unfolding add_to_blocked_queue
  add_to_blocked_queue-Enters nn idle =
      let (_, s', run, (holds, keeps)) =
        insert_tail-Holds inv.holds k.blocked_queue inv.blocked_in (queue_node p)
          (inv.nodes p v here) (is_free idle) in
      (
        s',
        ground (arith, here, run),
        enter-Inv k.blocked_queue (record v { state = process_blocked }) s' inv.blocked_in holds
            keeps
            (
              k.blocked_queue,
              inv.blocked_in,
              now_last k.blocked_queue,
              inv.blocked_ne_ready,
              inv.blocked_ne_delay,
              inv.blocked_ne_zombie,
            ),
      )
