-- ===== src/Sync/Lock/Spec.antt =====
-- A lock's specification, an owner and a queue of processes that wait, and how a lock object shows
-- its state.
use sasha_jakob.Base.{
  ℕ, ◌≡◌, ◌≢◌, true, not, Option, some, List, [], ◌∷◌, ◌++◌, map, ◌==◌, if◌then◌else◌, is_some, ◌∈◌,
  ℤ, Ends,
}
use sasha_jakob.Links.{null}
use sasha_jakob.Kernel.{Kernel, queue_node, waiters}
use sasha_jakob.Process.Queue.Placed.{Inv}

-- NULL for no owner.
pub record LockSpec : Type 0 where
  pub holder : ℕ
  pub queue : List ℕ

unfoldable pub acquire : ℕ → LockSpec → LockSpec
acquire p a =
    if a.holder == null then record a { holder = p } else record a { queue = a.queue ++ p ∷ [] }

unfoldable pub pass : List ℕ → LockSpec
pass [] = record { holder = null; queue = [] }
pass (q ∷ qs) = record { holder = q; queue = qs }

unfoldable pub release : LockSpec → LockSpec
release a = pass a.queue

-- The lock object `o` is in the state `a`.
pub record View (k : Kernel) (lists : List ℕ) (c : ℕ → List ℕ) (o : ℕ) (a : LockSpec) : Type 0 where
  pub object : k.locks o ≡ some (record { locked = not (a.holder == null); owner = a.holder })
  pub listed : waiters o ∈ lists
  pub waits : c (waiters o) ≡ map queue_node a.queue
  pub ne_ready : waiters o ≢ k.ready_queue
  pub ne_delay : waiters o ≢ k.delay_queue
  pub ne_zombie : waiters o ≢ k.zombie_queue
  pub alive : (q : ℕ) → q ∈ a.queue → (q ≢ null) × (is_some (k.pcbs q) ≡ true)

-- After the call the invariant holds and the lock is in the state `a`; `rc` is returned.
abbrev pub Steps : List ℕ → ℕ → LockSpec → ℤ → Option (ℤ × Kernel) → Type 0
Steps lists o a rc r =
    Ends r λ z k'. (z ≡ rc) × ((c' : ℕ → List ℕ) × Inv k' lists c' × View k' lists c' o a)
