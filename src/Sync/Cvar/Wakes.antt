-- ===== src/Sync/Cvar/Wakes.antt =====
-- sync.c: how signal and broadcast wake the processes that wait for a condition variable.
use mathlib.Core.List.{append_assoc, append-nil}
use sasha_jakob.Base.{
  ℕ, zero, suc, ◌≡◌, ◌≢◌, refl, some, Option, true, is_some, Option-some, List, [], ◌∷◌, ◌++◌, map,
  ap, ◌∙◌, sym, arith, Ends, pos, negsuc, length, ◌<◌, ==-refl, ℤ,
}
use sasha_jakob.Links.{Links, put-put, null, pop}
use sasha_jakob.Kernel.{
  Kernel, Pcb, cvar, process_default, queue_node, pcb_from_queue_node-queue_node, waiters,
}
use sasha_jakob.Process.Queue.{add_to_ready_queue}
use sasha_jakob.Process.Queue.Placed.{Inv}
use sasha_jakob.Process.Queue.Moves.{moved}
use sasha_jakob.Sync.Waits.{
  first_of, rest_of, Waits, readied, now_ready, wake-Inv, wake-Waits, now_ready-ready, Waits-count,
}
use sasha_jakob.Sync.Table.Names.{Names, get_check_sync-Names}
use sasha_jakob.Sync.Cvar.{
  cvar_waiters, wake_first, wake_loop, signal_object, broadcast_object, sync_cvar_signal,
  sync_cvar_broadcast,
}

-- The run ends with the processes `woken` at the end of the ready queue, in this order, and `left`
-- still waiting in `w`.
abbrev pub Wakes :
    {A : Type 0}
    → Kernel
    → List ℕ
    → (ℕ → List ℕ)
    → ℕ
    → (woken left : List ℕ) → A
    → Option (A × Kernel)
    → Type 0
Wakes k lists c w woken left rc r = Ends r λ a k'.
    (a ≡ rc)
    × ((c' : ℕ → List ℕ) × Inv k' lists c'
        × Waits k' lists c' w left
        × (c' k'.ready_queue ≡ c k.ready_queue ++ map queue_node woken))

abbrev roused : Pcb → Pcb
roused v = record v { waiting_cvar_id = negsuc 0; state = process_default }

wake_first-run :
    (k : Kernel) (w q : ℕ) (s1 : Links) (v : Pcb) (k2 : Kernel)
    → pop w k.links ≡ some (queue_node q, s1)
    → k.pcbs q ≡ some v
    → add_to_ready_queue q (moved k s1 q (roused v)) ≡ some (tt, k2)
    → wake_first w k ≡ some (tt, k2)
unfolding wake_first
wake_first-run k w q s1 v k2 run at_q ready_run =
    rw
      (
        run,
        pcb_from_queue_node-queue_node q,
        at_q,
        ==-refl q,
        put-put k.pcbs q (record v { waiting_cvar_id = negsuc 0 }) (roused v),
      )
      ready_run

wake_first-Wakes :
    (k : Kernel) (lists : List ℕ) (c : ℕ → List ℕ) (w q : ℕ) (qs : List ℕ)
    → Inv k lists c
    → Waits k lists c w (q ∷ qs)
    → Wakes k lists c w (q ∷ []) qs tt (wake_first w k)
wake_first-Wakes k lists c w q qs inv h =
    let living : (q ≢ null) × (is_some (k.pcbs q) ≡ true) = h.alive q (ground arith) in
    let (v, at_q) = Option-some (k.pcbs q) (living.1) in
    let (s1, s2, run, ready_run, inv') =
      wake-Inv k lists c w q (map queue_node qs) v (roused v) inv h.listed h.waits at_q refl
        (living.0) in
    (
      tt,
      readied k s1 s2 q (roused v),
      wake_first-run k w q s1 v _ run at_q ready_run,
      (
        refl,
        (
          now_ready k c w q (map queue_node qs),
          inv',
          wake-Waits k lists c w q qs s1 s2 (roused v) h,
          now_ready-ready k c w q (map queue_node qs) h.ne_ready,
        ),
      ),
    )

-- The loop of SyncCvarBroadcast wakes all that wait, in the order of the list, and ends.
wake_loop-Wakes :
    (k : Kernel) (lists : List ℕ) (c : ℕ → List ℕ) (w : ℕ) (queue : List ℕ) (fuel : ℕ)
    → length queue < fuel
    → Inv k lists c
    → Waits k lists c w queue
    → Wakes k lists c w queue [] tt (wake_loop fuel w k)
unfolding wake_loop
wake_loop-Wakes k lists c w queue zero enough inv h = elim enough [ ]
wake_loop-Wakes k lists c w [] (suc fuel) enough inv h = (
  tt,
  k,
  ground (arith, Waits-count k lists c w [] inv h),
  (refl, (c, inv, h, sym (append-nil (c k.ready_queue)))),
)
wake_loop-Wakes k lists c w (q ∷ qs) (suc fuel) enough inv h =
    let (_, k1, run1, (_, (c1, inv1, h1, ready1))) = wake_first-Wakes k lists c w q qs inv h in
    let (_, k2, run2, (_, (c2, inv2, h2, ready2))) =
      wake_loop-Wakes k1 lists c1 w qs fuel (omega arith) inv1 h1 in
    (
      tt,
      k2,
      ground (arith, Waits-count k lists c w (q ∷ qs) inv h, run1, run2),
      (
        refl,
        (
          c2,
          inv2,
          h2,
          ready2
              ∙ ap (λ xs. xs ++ map queue_node qs) ready1
              ∙ append_assoc (c k.ready_queue) (queue_node q ∷ []) (map queue_node qs),
        ),
      ),
    )

-- What broadcast returns.
abbrev pub broadcast_result : ℤ → List ℕ → ℤ
broadcast_result unspecified [] = pos 0
broadcast_result unspecified (q ∷ qs) = unspecified

signal_object-Wakes :
    (k : Kernel) (lists : List ℕ) (c : ℕ → List ℕ) (w : ℕ) (queue : List ℕ)
    → Inv k lists c
    → Waits k lists c w queue
    → Wakes k lists c w (first_of queue) (rest_of queue) (pos 0) (signal_object w k)
unfolding signal_object
signal_object-Wakes k lists c w [] inv h = (
  pos 0,
  k,
  ground (arith, Waits-count k lists c w [] inv h),
  (refl, (c, inv, h, sym (append-nil (c k.ready_queue)))),
)
signal_object-Wakes k lists c w (q ∷ qs) inv h =
    let (_, k1, run1, (_, woken)) = wake_first-Wakes k lists c w q qs inv h in
    (pos 0, k1, ground (arith, Waits-count k lists c w (q ∷ qs) inv h, run1), (refl, woken))

broadcast_object-Wakes :
    (unspecified : ℤ) (k : Kernel) (lists : List ℕ) (c : ℕ → List ℕ) (w : ℕ) (queue : List ℕ)
    → Inv k lists c
    → Waits k lists c w queue
    → Wakes k lists c w queue []
        (broadcast_result unspecified queue)
        (broadcast_object unspecified w k)
unfolding broadcast_object
broadcast_object-Wakes unspecified k lists c w [] inv h = (
  pos 0,
  k,
  ground (arith, Waits-count k lists c w [] inv h),
  (refl, (c, inv, h, sym (append-nil (c k.ready_queue)))),
)
broadcast_object-Wakes unspecified k lists c w (q ∷ qs) inv h =
    let (_, k1, run1, (_, woken)) =
      wake_loop-Wakes k lists c w (q ∷ qs) (suc (length (q ∷ qs))) (omega arith) inv h in
    (unspecified, k1, ground (arith, Waits-count k lists c w (q ∷ qs) inv h, run1), (refl, woken))

module _ (k : Kernel) (lists : List ℕ) (c : ℕ → List ℕ) (inv : Inv k lists c) (id sync o : ℕ)
    (names : Names k id sync cvar o) (object : k.cvars o ≡ some tt) (queue : List ℕ)
    (h : Waits k lists c (waiters o) queue) where
  -- SyncCvarSignal returns 0; the process that has waited longest goes to the end of the ready queue,
  -- and the others wait on. Where none waits nothing happens. The invariant holds after it.
  pub signal_refines :
      Wakes k lists c
        (waiters o)
        (first_of queue)
        (rest_of queue)
        (pos 0)
        (sync_cvar_signal (pos id) k)
  unfolding sync_cvar_signal cvar_waiters
  signal_refines =
      let (rc, k1, run, post) = signal_object-Wakes k lists c (waiters o) queue inv h in
      (rc, k1, ground (arith, get_check_sync-Names cvar names, names.object, object, run), post)

  -- SyncCvarBroadcast comes to an end with all processes that waited at the end of the ready queue,
  -- in the order in which they began to wait, and none waiting; what it returns is determined only
  -- where none waited. The invariant holds after it.
  pub broadcast_refines :
      (unspecified : ℤ)
      → Wakes k lists c
          (waiters o)
          queue
          []
          (broadcast_result unspecified queue)
          (sync_cvar_broadcast unspecified (pos id) k)
  unfolding sync_cvar_broadcast cvar_waiters
  broadcast_refines unspecified =
      let (rc, k1, run, post) =
        broadcast_object-Wakes unspecified k lists c (waiters o) queue inv h in
      (rc, k1, ground (arith, get_check_sync-Names cvar names, names.object, object, run), post)
