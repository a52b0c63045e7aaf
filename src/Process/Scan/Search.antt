-- ===== src/Process/Scan/Search.antt =====
-- pcb.c: the searches for a process by its pid and for a child that is a zombie.
use sasha_jakob.Base.{
  ℕ, zero, suc, ◌≡◌, ◌≢◌, refl, Option, none, some, Bool, true, false, List, [], ◌∷◌, map, arith,
  Option-some, ℤ, eq_ℤ, if◌then◌else◌, ◌∉◌, is_some, length, length-map, ◌<◌, first, ==-refl,
}
use sasha_jakob.Links.{null}
use sasha_jakob.Links.Chain.{Chain, Chain-first, IsList}
use sasha_jakob.Links.Walk.{list_is_empty-peek}
use sasha_jakob.Kernel.{
  Kernel, Pcb, process_zombie, same_state, queue_node, children_node, children,
  pcb_from_children_node, pcb_from_queue_node-queue_node,
}
use sasha_jakob.Process.Scan.{pid_loop, list_contains_pid, zombie_loop, find_zombie_child}

-- The processes have PCBs.
abbrev pub Alive : Kernel → List ℕ → Type 0
Alive k [] = Unit {0}
Alive k (p ∷ ps) = (is_some (k.pcbs p) ≡ true) × Alive k ps

abbrev pub has_pid : ℤ → Option Pcb → Bool
has_pid pid none = false
has_pid pid (some v) = eq_ℤ pid v.pid

abbrev pub is_zombie : Option Pcb → Bool
is_zombie none = false
is_zombie (some v) = same_state v.state process_zombie

-- The first of the processes that the test accepts, or NULL.
abbrev pub first_that : (Option Pcb → Bool) → (ℕ → Option Pcb) → List ℕ → ℕ
first_that test f [] = null
first_that test f (p ∷ ps) = if test (f p) then p else first_that test f ps

pid_loop-run :
    (k : Kernel) (pid : ℤ) (l a : ℕ) (ps : List ℕ) (fuel : ℕ)
    → length ps < fuel
    → Chain k.links a (map queue_node ps) l
    → l ∉ map queue_node ps
    → Alive k ps
    → pid_loop fuel pid l (first (map queue_node ps) l) k
      ≡ some (first_that (has_pid pid) k.pcbs ps, k)
unfolding pid_loop
pid_loop-run k pid l a ps zero enough chain out alive = elim enough [ ]
pid_loop-run k pid l a [] (suc fuel) enough chain out alive = rw (==-refl l) refl
pid_loop-run k pid l a (q ∷ qs) (suc fuel) enough (_, chain) out (living, alive) =
    let (v, here) = Option-some (k.pcbs q) living in
    let rest =
      pid_loop-run k pid l (queue_node q) qs fuel (omega arith) chain (ground (arith, out)) alive in
    ground (
      arith,
      out,
      pcb_from_queue_node-queue_node q,
      here,
      Chain-first k.links (queue_node q) (map queue_node qs) l chain,
      rest,
    )

-- list_contains_pid returns the first process of the list that has the pid, or NULL where none has
-- it, and changes nothing.
list_contains_pid_lem :
    (k : Kernel) (l : ℕ) (ps : List ℕ) (pid : ℤ)
    → IsList k.links l (map queue_node ps)
    → Alive k ps
    → list_contains_pid l pid k ≡ some (first_that (has_pid pid) k.pcbs ps, k)
unfolding list_contains_pid
list_contains_pid_lem k l [] pid is alive =
    ground (arith, is.non_null, (list_is_empty-peek l k.links [] is).0)
list_contains_pid_lem k l (q ∷ qs) pid is alive = ground (
  arith,
  is.non_null,
  (list_is_empty-peek l k.links (map queue_node (q ∷ qs)) is).0,
  is.count,
  is.chain,
  pid_loop-run k pid l l (q ∷ qs) (suc (length (map queue_node (q ∷ qs))))
      (omega (arith, length-map queue_node qs)) is.chain is.apart alive,
)

pcb_from_children_node-children_node : (q : ℕ) → pcb_from_children_node (children_node q) ≡ q
pcb_from_children_node-children_node q = omega arith

zombie_loop-run :
    (k : Kernel) (l a : ℕ) (ps : List ℕ)
    → Chain k.links a (map children_node ps) l
    → Alive k ps
    → zombie_loop (length ps) (first (map children_node ps) l) k
      ≡ some (first_that is_zombie k.pcbs ps, k)
unfolding zombie_loop
zombie_loop-run k l a [] chain alive = refl
zombie_loop-run k l a (q ∷ qs) (_, chain) (living, alive) =
    let (v, here) = Option-some (k.pcbs q) living in
    ground (
      arith,
      pcb_from_children_node-children_node q,
      here,
      Chain-first k.links (children_node q) (map children_node qs) l chain,
      zombie_loop-run k l (children_node q) qs chain alive,
    )

-- find_zombie_child returns the first child of the process that is a zombie, or NULL where none is,
-- and changes nothing.
pub find_zombie_child_lem :
    (k : Kernel) (p : ℕ) (ps : List ℕ)
    → p ≢ null
    → IsList k.links (children p) (map children_node ps)
    → Alive k ps
    → find_zombie_child p k ≡ some (first_that is_zombie k.pcbs ps, k)
unfolding find_zombie_child
find_zombie_child_lem k p [] real is alive =
    ground (arith, real, (list_is_empty-peek (children p) k.links [] is).0)
find_zombie_child_lem k p (q ∷ qs) real is alive =
    let none_empty = list_is_empty-peek (children p) k.links (map children_node (q ∷ qs)) is in
    ground (
      arith,
      real,
      none_empty.0,
      none_empty.1,
      is.count,
      length-map children_node qs,
      zombie_loop-run k (children p) (children p) (q ∷ qs) is.chain alive,
    )
