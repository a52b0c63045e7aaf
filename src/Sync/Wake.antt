-- ===== src/Sync/Wake.antt =====
-- A process is taken from the front of a list of waiting processes and made ready.
use sasha_jakob.Base.{
  ℕ, ◌≡◌, refl, some, List, ◌∷◌, arith, ◌∈◌, ◌∉◌, ==-refl, ==-ne, ℕ_discrete, sym,
}
use sasha_jakob.Links.{Links}
use sasha_jakob.Links.Chain.{IsNode}
use sasha_jakob.Links.Heap.{update, Holds}
use sasha_jakob.Kernel.{Kernel, Pcb, process_default, queue_node}
use sasha_jakob.Process.Queue.Placed.{Inv, Inv-move, has-update_same}
use sasha_jakob.Process.Queue.Moves.{moved}

pub pop-Inv :
    {k : Kernel} {lists : List ℕ} {c : ℕ → List ℕ} (w q : ℕ) (xs : List ℕ) (v u : Pcb) (s' : Links)
    → Inv k lists c
    → w ∈ lists
    → c w ≡ queue_node q ∷ xs
    → k.pcbs q ≡ some v
    → u.state ≡ process_default
    → Holds s' lists (update c w xs)
    → ((x : ℕ) → IsNode k.links x → IsNode s' x)
    → Inv (moved k s' q u) lists (update c w xs)
pop-Inv {k} {lists} {c} w q xs v u s' inv at split here idle holds keeps =
    Inv-move (update c w xs) q u inv
      (record { ready = refl; delay = refl; blocked = refl; zombie = refl }) holds keeps refl
      (inv.nodes q v here) (λ r ne. has-update_same c w xs (queue_node r) (rw split (ground arith)))
      (rw idle gone)
  where
    gone : (m : ℕ) → m ∈ lists → queue_node q ∉ update c w xs m
    gone m i = elim (ℕ_discrete m w) [
      | yes e ↦ rw (e, ==-refl w) ((rw split at ((inv.holds.each w at).distinct)).0)
      | no ne ↦
          rw (==-ne m w ne)
            (inv.holds.apart w m (queue_node q) at i (λ e. ne (sym e)) (rw split (ground arith)))
    ]
