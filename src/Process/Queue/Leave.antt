-- ===== src/Process/Queue/Leave.antt =====
-- pcb.c: the functions that take a process out of a queue, and the invariant.
use sasha_jakob.Base.{
  ℕ, ◌≡◌, ◌≢◌, refl, Option, some, List, arith, ◌∈◌, ◌∉◌, ==-refl, ==-ne, ℕ_discrete, sym, Ends,
  erase, mem-split, has-erase_ne, has-erase_self,
}
use sasha_jakob.Links.{Links, null, list_remove}
use sasha_jakob.Links.Chain.{IsNode}
use sasha_jakob.Links.Heap.{update, Holds, list_remove-Holds}
use sasha_jakob.Kernel.{
  Kernel, Pcb, process_default, process_ready, process_delayed, process_blocked, process_zombie,
  queue_node,
}
use sasha_jakob.Process.Queue.{
  remove_from_ready_queue, remove_from_delay_queue, remove_from_zombie_queue,
  remove_from_blocked_queue,
}
use sasha_jakob.Process.Queue.Placed.{Inv, Inv-move, has-update_same}
use sasha_jakob.Process.Queue.Moves.{moved}

-- The run ends; process `p` is out of the list `l` and in the state PROCESS_DEFAULT, nothing else
-- but the links has changed, and the invariant holds.
abbrev pub Leaves :
    Kernel → List ℕ → (ℕ → List ℕ) → ℕ → Pcb → ℕ → Option (Unit {0} × Kernel) → Type 0
Leaves k lists c p v l r =
    (s' : Links) × (r ≡ some (tt, moved k s' p (record v { state = process_default })))
    × Inv (moved k s' p (record v { state = process_default })) lists
        (update c l (erase (queue_node p) (c l)))

module _ (k : Kernel) (lists : List ℕ) (c : ℕ → List ℕ) (inv : Inv k lists c) (p : ℕ) (v : Pcb)
    (here : k.pcbs p ≡ some v) where
  leave-Inv :
      (l : ℕ) (w : Pcb) (s' : Links)
      → l ∈ lists
      → queue_node p ∈ c l
      → w.state ≡ process_default
      → Holds s' lists (update c l (erase (queue_node p) (c l)))
      → ((x : ℕ) → IsNode k.links x → IsNode s' x)
      → Inv (moved k s' p w) lists (update c l (erase (queue_node p) (c l)))
  leave-Inv l w s' at mem idle holds keeps =
      Inv-move (update c l (erase (queue_node p) (c l))) p w inv
        (record { ready = refl; delay = refl; blocked = refl; zombie = refl }) holds keeps refl
        (inv.nodes p v here)
        (λ q ne.
          has-update_same c l (erase (queue_node p) (c l)) (queue_node q)
            (has-erase_ne (queue_node q) (queue_node p) (c l) (omega arith)))
        (rw idle gone)
    where
      gone : (m : ℕ) → m ∈ lists → queue_node p ∉ update c l (erase (queue_node p) (c l)) m
      gone m i = elim (ℕ_discrete m l) [
        | yes e ↦
            rw (e, ==-refl l) (has-erase_self (queue_node p) (c l) ((inv.holds.each l at).distinct))
        | no ne ↦ rw (==-ne m l ne) (inv.holds.apart l m (queue_node p) at i (λ e. ne (sym e)) mem)
      ]

  remove_run :
      (l : ℕ)
      → l ∈ lists
      → queue_node p ∈ c l
      → Ends (list_remove l (queue_node p) k.links) λ _ s'.
        Holds s' lists (update c l (erase (queue_node p) (c l)))
        × ((x : ℕ) → IsNode k.links x → IsNode s' x)
  remove_run l at mem =
      let (ys, zs, split, joined) = mem-split (queue_node p) (c l) mem in
      rw joined (list_remove-Holds inv.holds l at (queue_node p) ys zs split)

  pub remove_from_ready_queue-Leaves :
      p ≢ null
      → v.state ≡ process_ready
      → Leaves k lists c p v k.ready_queue (remove_from_ready_queue p k)
  unfolding remove_from_ready_queue
  remove_from_ready_queue-Leaves nn at_state =
      let mem : queue_node p ∈ c k.ready_queue = rw at_state at (inv.placed p v here) in
      let (_, s', run, (holds, keeps)) = remove_run k.ready_queue inv.ready_in mem in
      (
        s',
        ground (arith, here, run),
        leave-Inv k.ready_queue (record v { state = process_default }) s' inv.ready_in mem refl
            holds keeps,
      )

  pub remove_from_delay_queue-Leaves :
      p ≢ null
      → v.state ≡ process_delayed
      → Leaves k lists c p v k.delay_queue (remove_from_delay_queue p k)
  unfolding remove_from_delay_queue
  remove_from_delay_queue-Leaves nn at_state =
      let mem : queue_node p ∈ c k.delay_queue = rw at_state at (inv.placed p v here) in
      let (_, s', run, (holds, keeps)) = remove_run k.delay_queue inv.delay_in mem in
      (
        s',
        ground (arith, here, run),
        leave-Inv k.delay_queue (record v { state = process_default }) s' inv.delay_in mem refl
            holds keeps,
      )

  pub remove_from_zombie_queue-Leaves :
      p ≢ null
      → v.state ≡ process_zombie
      → Leaves k lists c p v k.zombie_queue (remove_from_zombie_queue p k)
  unfolding remove_from_zombie_queue
  remove_from_zombie_queue-Leaves nn at_state =
      let mem : queue_node p ∈ c k.zombie_queue = rw at_state at (inv.placed p v here) in
      let (_, s', run, (holds, keeps)) = remove_run k.zombie_queue inv.zombie_in mem in
      (
        s',
        ground (arith, here, run),
        leave-Inv k.zombie_queue (record v { state = process_default }) s' inv.zombie_in mem refl
            holds keeps,
      )

  pub remove_from_blocked_queue-Leaves :
      p ≢ null
      → v.state ≡ process_blocked
      → queue_node p ∈ c k.blocked_queue
      → Leaves k lists c p v k.blocked_queue (remove_from_blocked_queue p k)
  unfolding remove_from_blocked_queue
  remove_from_blocked_queue-Leaves nn at_state mem =
      let (_, s', run, (holds, keeps)) = remove_run k.blocked_queue inv.blocked_in mem in
      (
        s',
        ground (arith, here, run),
        leave-Inv k.blocked_queue (record v { state = process_default }) s' inv.blocked_in mem refl
            holds keeps,
      )
