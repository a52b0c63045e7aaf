-- ===== src/Sync/Cvar/Wait.antt =====
-- sync.c: SyncCvarWait gives the lock away and puts the process in the condition variable's list.
use mathlib.Core.List.{map-append}
use sasha_jakob.Base.{
  ℕ, ◌≡◌, ◌≢◌, refl, some, true, not, is_some, List, [], ◌∷◌, ◌++◌, ap, ◌∙◌, sym, arith, Ends, pos,
  ==-refl, ==-ne, ℤ, ◌==◌, has-append, ◌∈◌, ◌∉◌, ℕ_discrete,
}
use sasha_jakob.Links.{Links, put, put-put, null, insert_tail}
use sasha_jakob.Links.Heap.{update, IsFree, insert_tail-Holds}
use sasha_jakob.Kernel.{
  Kernel, Pcb, lock, cvar, process_running, process_blocked, queue_node, waiters, mem-nodes,
  not_mem-nodes,
}
use sasha_jakob.Process.Queue.Placed.{Inv, Inv-same, SameQueues}
use sasha_jakob.Process.Queue.Moves.{moved, enter-Inv, now_last}
use sasha_jakob.Sync.Waits.{Waits}
use sasha_jakob.Sync.Table.{pcb_blocked}
use sasha_jakob.Sync.Table.Names.{Names, get_check_sync-Names}
use sasha_jakob.Sync.Lock.{hand_over, as_owner}
use sasha_jakob.Sync.Lock.Spec.{LockSpec, release, View}
use sasha_jakob.Sync.Lock.HandOver.{hand_over_lem}
use sasha_jakob.Sync.Cvar.{cvar_waiters, wait_on, wait_objects, sync_cvar_wait}

-- The kernel when the current process `p` waits in a list.
abbrev waiting_one : Kernel → Links → ℤ → ℕ → Pcb → Kernel
waiting_one k s cvar_id p v = record k {
  links = s;
  pcbs =
      put (put k.pcbs p (record v { waiting_cvar_id = cvar_id })) p
        (record v { waiting_cvar_id = cvar_id; state = process_blocked });
}

abbrev with_last : (ℕ → List ℕ) → (w p : ℕ) → ℕ → List ℕ
with_last c w p = update c w (c w ++ queue_node p ∷ [])

wait_on-run :
    (k : Kernel) (w p : ℕ) (s : Links) (v : Pcb) (cvar_id : ℤ)
    → k.current_process ≡ p
    → insert_tail w (queue_node p) k.links ≡ some (tt, s)
    → k.pcbs p ≡ some v
    → wait_on cvar_id w k ≡ some (pcb_blocked, waiting_one k s cvar_id p v)
unfolding wait_on
wait_on-run k w p s v cvar_id cur run at_p = ground (arith, cur, run, at_p, ==-refl p)

waiting-alive :
    (k : Kernel) (s : Links) (cvar_id : ℤ) (p r : ℕ) (v : Pcb)
    → is_some (k.pcbs r) ≡ true
    → is_some ((waiting_one k s cvar_id p v).pcbs r) ≡ true
waiting-alive k s cvar_id p r v old = elim (ℕ_discrete r p) [
  | yes e ↦ rw (e, ==-refl p)
  | no ne ↦ rw (==-ne r p ne) old
]

module _ (k : Kernel) (lists : List ℕ) (c : ℕ → List ℕ) (inv : Inv k lists c) (w : ℕ)
    (queue : List ℕ) (h : Waits k lists c w queue) (p : ℕ) (v : Pcb) (cur : k.current_process ≡ p)
    (real : p ≢ null) (here : k.pcbs p ≡ some v) (running : v.state ≡ process_running) where
  joined-Waits :
      (s : Links) (cvar_id : ℤ)
      → Waits (waiting_one k s cvar_id p v) lists (with_last c w p) w (queue ++ p ∷ [])
  joined-Waits s cvar_id = record {
    listed = h.listed;
    waits = rw (==-refl w, h.waits) (sym (map-append queue_node queue (p ∷ [])));
    ne_ready = h.ne_ready;
    ne_delay = h.ne_delay;
    ne_zombie = h.ne_zombie;
    alive = λ r i. elim (ℕ_discrete r p) [
      | yes e ↦ (λ n. real (sym e ∙ n), rw (e, ==-refl p))
      | no ne ↦
          let was : (r ≢ null) × (is_some (k.pcbs r) ≡ true) =
            h.alive r (ground (arith, has-append r queue (p ∷ []), i, ne)) in
          (was.0, waiting-alive k s cvar_id p r v (was.1))
    ];
  }

  wait_on-Waits :
      (cvar_id : ℤ)
      → (s : Links) × (wait_on cvar_id w k ≡ some (pcb_blocked, waiting_one k s cvar_id p v))
        × Inv (waiting_one k s cvar_id p v) lists (with_last c w p)
  wait_on-Waits cvar_id =
      let free : IsFree lists c (queue_node p) =
        (inv.heads p, rw running at (inv.placed p v here)) in
      let (_, s, run, (holds, keeps)) =
        insert_tail-Holds inv.holds w h.listed (queue_node p) (inv.nodes p v here) free in
      let u : Pcb = record v { waiting_cvar_id = cvar_id; state = process_blocked } in
      let inv' : Inv (moved k s p u) lists (with_last c w p) =
        enter-Inv k lists c inv p v here w u s h.listed holds keeps
          (w, h.listed, now_last k lists c inv p v here w, h.ne_ready, h.ne_delay, h.ne_zombie) in
      (
        s,
        wait_on-run k w p s v cvar_id cur run here,
        Inv-same inv' (record { ready = refl; delay = refl; blocked = refl; zombie = refl }) refl
            (put-put k.pcbs p (record v { waiting_cvar_id = cvar_id }) u),
      )

-- Whoever waits in another list does not wait for the lock.
elsewhere :
    (k : Kernel) (lists : List ℕ) (c : ℕ → List ℕ) (w o : ℕ) (queue : List ℕ) (a : LockSpec) (r : ℕ)
    → Inv k lists c
    → Waits k lists c w queue
    → View k lists c o a
    → w ≢ waiters o
    → r ∈ queue
    → r ∉ a.queue
elsewhere k lists c w o queue a r inv h view other i = not_mem-nodes r a.queue (
    rw (← view.waits) (
      inv.holds.apart w (waiters o) (queue_node r) h.listed view.listed other
        (rw h.waits (mem-nodes r queue i))))

Waits-kept :
    (k k1 : Kernel) (lists : List ℕ) (c c1 : ℕ → List ℕ) (w : ℕ) (queue : List ℕ)
    → Waits k lists c w queue
    → SameQueues k k1
    → c1 w ≡ c w
    → ((r : ℕ) → r ∈ queue → k1.pcbs r ≡ k.pcbs r)
    → Waits k1 lists c1 w queue
Waits-kept k k1 lists c c1 w queue h q same table = record {
  listed = h.listed;
  waits = same ∙ h.waits;
  ne_ready = rw (q.ready) h.ne_ready;
  ne_delay = rw (q.delay) h.ne_delay;
  ne_zombie = rw (q.zombie) h.ne_zombie;
  alive = λ r i. ((h.alive r i).0, ap is_some (table r i) ∙ (h.alive r i).1);
}

View-kept :
    (k : Kernel) (lists : List ℕ) (c : ℕ → List ℕ) (o : ℕ) (a : LockSpec) (w p : ℕ) (s : Links)
    (cvar_id : ℤ) (v : Pcb)
    → View k lists c o a
    → waiters o ≢ w
    → View (waiting_one k s cvar_id p v) lists (with_last c w p) o a
View-kept k lists c o a w p s cvar_id v view other = record {
  object = view.object;
  listed = view.listed;
  waits = rw (==-ne (waiters o) w other) view.waits;
  ne_ready = view.ne_ready;
  ne_delay = view.ne_delay;
  ne_zombie = view.ne_zombie;
  alive = λ r i. ((view.alive r i).0, waiting-alive k s cvar_id p r v ((view.alive r i).1));
}

wait-run :
    (k k1 k2 : Kernel) (id_c sync_c o_c id_l sync_l o_l : ℕ) (a : LockSpec)
    → Names k id_c sync_c cvar o_c
    → Names k id_l sync_l lock o_l
    → k.locks o_l ≡ some (record { locked = not (a.holder == null); owner = a.holder })
    → a.holder ≡ k.current_process
    → hand_over o_l k ≡ some (tt, k1)
    → k1.cvars o_c ≡ some tt
    → wait_on (pos id_c) (waiters o_c) k1 ≡ some (pcb_blocked, k2)
    → sync_cvar_wait (pos id_c) (pos id_l) k ≡ some (pcb_blocked, k2)
unfolding sync_cvar_wait wait_objects cvar_waiters as_owner
wait-run k k1 k2 id_c sync_c o_c id_l sync_l o_l a names_c names_l object mine run1 still run2 =
    let same : a.holder == k.current_process ≡ true = rw mine (==-refl k.current_process) in
    ground (
      arith,
      get_check_sync-Names cvar names_c,
      get_check_sync-Names lock names_l,
      names_c.object,
      names_l.object,
      object,
      same,
      run1,
      still,
      run2,
    )

module _ (k : Kernel) (lists : List ℕ) (c : ℕ → List ℕ) (inv : Inv k lists c) (id_c sync_c o_c : ℕ)
    (names_c : Names k id_c sync_c cvar o_c) (object : k.cvars o_c ≡ some tt) (queue : List ℕ)
    (h : Waits k lists c (waiters o_c) queue) (id_l sync_l o_l : ℕ)
    (names_l : Names k id_l sync_l lock o_l) (a : LockSpec) (view : View k lists c o_l a)
    (apart : o_c ≢ o_l) (v : Pcb) (real : k.current_process ≢ null)
    (here : k.pcbs k.current_process ≡ some v) (running : v.state ≡ process_running)
    (mine : a.holder ≡ k.current_process) where
  -- SyncCvarWait by the owner of the lock returns PCB_BLOCKED; the lock goes to the process that has
  -- waited for it longest, or is free, the caller is blocked behind those that wait for the condition
  -- variable, and the invariant holds.
  pub wait_refines : Ends (sync_cvar_wait (pos id_c) (pos id_l) k) λ rc k'.
      (rc ≡ pcb_blocked)
      × ((c' : ℕ → List ℕ) × Inv k' lists c'
          × View k' lists c' o_l (release a)
          × Waits k' lists c' (waiters o_c) (queue ++ k.current_process ∷ []))
  wait_refines =
      let p = k.current_process in
      let w = waiters o_c in
      let held : a.holder ≢ null = λ e. real (sym mine ∙ e) in
      let other : w ≢ waiters o_l = λ e. apart (omega (arith, e)) in
      let (_, k1, run1, (c1, inv1, view1, cur, cvs, others, sameq, kept, _)) =
        hand_over_lem k lists c inv o_l a view held in
      let out : p ∉ a.queue =
        not_mem-nodes p a.queue
          (rw (← view.waits) ((rw running at (inv.placed p v here)) (waiters o_l) view.listed)) in
      let at_p : k1.pcbs p ≡ some v = others p out ∙ here in
      let h1 : Waits k1 lists c1 w queue =
        Waits-kept k k1 lists c c1 w queue h sameq (kept w other h.ne_ready)
          (λ r i. others r (elsewhere k lists c w o_l queue a r inv h view other i)) in
      let (s, run2, inv2) =
        wait_on-Waits k1 lists c1 inv1 w queue h1 p v cur real at_p running (pos id_c) in
      (
        pcb_blocked,
        waiting_one k1 s (pos id_c) p v,
        wait-run k k1 (waiting_one k1 s (pos id_c) p v) id_c sync_c o_c id_l sync_l o_l a names_c
            names_l view.object mine run1 (ap (λ f. f o_c) cvs ∙ object) run2,
        (
          refl,
          (
            with_last c1 w p,
            inv2,
            View-kept k1 lists c1 o_l (release a) w p s (pos id_c) v view1 (λ e. other (sym e)),
            joined-Waits k1 lists c1 inv1 w queue h1 p v cur real at_p running s (pos id_c),
          ),
        ),
      )
