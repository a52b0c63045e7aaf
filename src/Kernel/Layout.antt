-- ===== src/Kernel/Layout.antt =====
-- Where the list cells of a PCB and of a synchronisation object lie. The structs that hold them are
-- laid out so that no two cells coincide: PCB number p owns the addresses 4p, 4p+1 and 4p+2, and an
-- address 4q+3 is that of a list outside the PCBs.
use sasha_jakob.Base.{◌≡◌, List, [], ◌∷◌, map, ◌∈◌, ◌∉◌, refl, arith, ℕ, ◌+◌, ◌*◌, ◌/◌}

-- `&process->queue_node`, `&process->children_node` and `&process->children`.
abbrev pub queue_node : ℕ → ℕ
queue_node p = 4 * p

abbrev pub children_node : ℕ → ℕ
children_node p = 4 * p + 1

abbrev pub children : ℕ → ℕ
children p = 4 * p + 2

-- `container_of`: the PCB that a node is part of.
abbrev pub pcb_from_queue_node : ℕ → ℕ
pcb_from_queue_node n = n / 4

abbrev pub pcb_from_children_node : ℕ → ℕ
pcb_from_children_node n = n / 4

-- `&pipe->readers`, `&pipe->writers`, `&lock->waiters` and `&cvar->waiters`.
abbrev pub readers : ℕ → ℕ
readers o = 8 * o + 3

abbrev pub writers : ℕ → ℕ
writers o = 8 * o + 7

abbrev pub waiters : ℕ → ℕ
waiters o = 8 * o + 3

-- The nodes of some processes are in a list of nodes exactly with the processes.
pub mem-nodes : (r : ℕ) (ps : List ℕ) → r ∈ ps → queue_node r ∈ map queue_node ps
mem-nodes r [] i = absurd (ground (arith, i))
mem-nodes r (q ∷ qs) i = ground (arith, mem-nodes r qs, i)

pub not_mem-nodes : (r : ℕ) (ps : List ℕ) → queue_node r ∉ map queue_node ps → r ∉ ps
not_mem-nodes r [] out = refl
not_mem-nodes r (q ∷ qs) out = ground (arith, not_mem-nodes r qs, out)

pub pcb_from_queue_node-queue_node : (q : ℕ) → pcb_from_queue_node (queue_node q) ≡ q
pcb_from_queue_node-queue_node q = omega arith
