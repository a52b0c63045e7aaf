-- ===== src/Sync/Lock/HandOver.antt =====
-- The hand-over of a lock, in SyncLockRelease and SyncCvarWait, against the specification of a lock.
use mathlib.Core.List.{append-nil}
use sasha_jakob.Sync.Waits.{first_of}
use sasha_jakob.Base.{
  sym, ℕ, ◌≡◌, ◌≢◌, refl, true, false, Option, some, List, [], ◌∷◌, ◌++◌, map, arith, is_some,
  Option-some, length, suc, ◌∈◌, ◌∉◌, pos, negsuc, Ends, ==-refl, ==-ne, ℕ_discrete, ap, ◌∙◌,
}
use sasha_jakob.Links.{Links, put, put-put, null, pop}
use sasha_jakob.Links.Heap.{update, pop-Holds}
use sasha_jakob.Kernel.{
  Kernel, Pcb, Lock, process_default, process_ready, queue_node, pcb_from_queue_node-queue_node,
  waiters,
}
use sasha_jakob.Process.Queue.{add_to_ready_queue}
use sasha_jakob.Process.Queue.Placed.{Inv, Inv-same, SameQueues}
use sasha_jakob.Process.Queue.Moves.{moved, add_to_ready_queue-Enters}
use sasha_jakob.Sync.Wake.{pop-Inv}
use sasha_jakob.Sync.Lock.{hand_over}
use sasha_jakob.Sync.Lock.Spec.{LockSpec, release, pass, View}

-- The hand-over ends with the invariant, the lock as `release` says, and nothing changed but the
-- lists, the lock, and the process that gets it, which is the last in the ready queue then.
abbrev pub HandsOver :
    Kernel → List ℕ → (ℕ → List ℕ) → ℕ → LockSpec → Option (Unit {0} × Kernel) → Type 0
HandsOver k lists c o a r = Ends r λ _ k'.
    (c' : ℕ → List ℕ) × Inv k' lists c'
    × View k' lists c' o (release a)
    × (k'.current_process ≡ k.current_process)
    × (k'.cvars ≡ k.cvars)
    × ((p : ℕ) → p ∉ a.queue → k'.pcbs p ≡ k.pcbs p)
    × SameQueues k k'
    × ((l : ℕ) → l ≢ waiters o → l ≢ k.ready_queue → c' l ≡ c l)
    × (c' k.ready_queue ≡ c k.ready_queue ++ map queue_node (first_of a.queue))

-- The PCB of a process that is woken, and the kernel when it is out of the lock's list.
abbrev idle : Pcb → Pcb
idle u = record u { state = process_default; waiting_lock_id = negsuc 0 }

abbrev woken : Kernel → Links → ℕ → Pcb → Kernel
woken k s q u = record k {
  links = s;
  pcbs = put (put k.pcbs q (record u { state = process_default })) q (idle u);
}

abbrev queued : Kernel → Links → Links → ℕ → Pcb → Kernel
queued k s1 s2 q u = moved (woken k s1 q u) s2 q (record (idle u) { state = process_ready })

hand_over-run :
    (k : Kernel) (o q n : ℕ) (s1 : Links) (u : Pcb) (l : Lock) (k1 k2 : Kernel)
    → k.links.count (waiters o) ≡ some (pos (suc n))
    → pop (waiters o) k.links ≡ some (queue_node q, s1)
    → k.pcbs q ≡ some u
    → k1 ≡ woken k s1 q u
    → add_to_ready_queue q k1 ≡ some (tt, k2)
    → k2.locks o ≡ some l
    → hand_over o k ≡ some (tt, record k2 { locks = put k2.locks o (record l { owner = q }) })
unfolding hand_over
hand_over-run k o q n s1 u l k1 k2 counted run at_q is_woken ready_run locked = ground (
  arith,
  pcb_from_queue_node-queue_node q,
  ==-refl q,
  counted,
  run,
  at_q,
  is_woken,
  ready_run,
  locked,
)

-- The first process that waits in `w` goes from there to the end of the ready queue.
hand_over-queued :
    (k : Kernel) (lists : List ℕ) (c : ℕ → List ℕ) (w q : ℕ) (xs : List ℕ) (u : Pcb)
    → Inv k lists c
    → w ∈ lists
    → c w ≡ queue_node q ∷ xs
    → k.pcbs q ≡ some u
    → q ≢ null
    → (s1 s2 : Links) × (pop w k.links ≡ some (queue_node q, s1))
      × (add_to_ready_queue q (woken k s1 q u) ≡ some (tt, queued k s1 s2 q u))
      × Inv
          (queued k s1 s2 q u)
          lists
          (update (update c w xs) k.ready_queue (update c w xs k.ready_queue ++ queue_node q ∷ []))
hand_over-queued k lists c w q xs u inv listed entries at_q real =
    let (n, s1, run, (front, holds, keeps)) =
      pop-Holds inv.holds w listed (queue_node q) xs entries in
    let popped : Inv (woken k s1 q u) lists (update c w xs) =
      Inv-same (pop-Inv w q xs u (idle u) s1 inv listed entries at_q refl holds keeps)
        (record { ready = refl; delay = refl; blocked = refl; zombie = refl }) refl
        (put-put k.pcbs q (record u { state = process_default }) (idle u)) in
    let (s2, ready_run, ready_inv) =
      add_to_ready_queue-Enters (woken k s1 q u) lists (update c w xs) popped q (idle u)
        (rw (==-refl q) refl) real refl in
    (s1, s2, run ∙ ap (λ m. some (m, s1)) front, ready_run, ready_inv)

module _ (k : Kernel) (lists : List ℕ) (c : ℕ → List ℕ) (inv : Inv k lists c) (o : ℕ) (a : LockSpec)
    (view : View k lists c o a) (held : a.holder ≢ null) where
  hand_over_last : a.queue ≡ [] → HandsOver k lists c o a (hand_over o k)
  unfolding hand_over release pass
  hand_over_last none_waits =
      let w = waiters o in
      let locked : k.locks o ≡ some (record { locked = true; owner = a.holder }) =
        ground (arith, view.object, held) in
      let empty : c w ≡ [] = view.waits ∙ ap (map queue_node) none_waits in
      let none_counted : k.links.count w ≡ some (pos 0) =
        rw empty at ((inv.holds.each w view.listed).count) in
      let k' : Kernel = record k {
        locks =
            put (put k.locks o (record { locked = false; owner = a.holder })) o
              (record { locked = false; owner = null });
      } in
      (
        tt,
        k',
        ground (arith, locked, none_counted),
        (
          c,
          Inv-same inv (record { ready = refl; delay = refl; blocked = refl; zombie = refl }) refl
              refl,
          rw none_waits (record {
            object = ground arith;
            listed = view.listed;
            waits = empty;
            ne_ready = view.ne_ready;
            ne_delay = view.ne_delay;
            ne_zombie = view.ne_zombie;
            alive = λ q i. cc;
          }),
          refl,
          refl,
          (λ p out. refl),
          record { ready = refl; delay = refl; blocked = refl; zombie = refl },
          (λ l ne nr. refl),
          rw none_waits (sym (append-nil (c k.ready_queue))),
        ),
      )

  abbrev after : ℕ → List ℕ → ℕ → List ℕ
  after q qs =
      let c1 = update c (waiters o) (map queue_node qs) in
      update c1 k.ready_queue (c1 k.ready_queue ++ queue_node q ∷ [])

  after-ready :
      (q : ℕ) (qs : List ℕ) → after q qs k.ready_queue ≡ c k.ready_queue ++ queue_node q ∷ []
  after-ready q qs =
      rw (==-refl k.ready_queue, ==-ne k.ready_queue (waiters o) (λ e. view.ne_ready (sym e))) refl

  abbrev passed : Links → Links → ℕ → Pcb → Kernel
  passed s1 s2 q u = record (queued k s1 s2 q u) {
    locks = put k.locks o (record { locked = true; owner = q });
  }

  still_alive :
      (s1 s2 : Links) (q r : ℕ) (u : Pcb)
      → is_some (k.pcbs r) ≡ true
      → is_some ((passed s1 s2 q u).pcbs r) ≡ true
  still_alive s1 s2 q r u old = elim (ℕ_discrete r q) [
    | yes e ↦ rw (e, ==-refl q)
    | no ne ↦ rw (==-ne r q ne) old
  ]

  passed-View :
      (s1 s2 : Links) (q : ℕ) (qs : List ℕ) (u : Pcb)
      → a.queue ≡ q ∷ qs
      → q ≢ null
      → View (passed s1 s2 q u) lists (after q qs) o (record { holder = q; queue = qs })
  passed-View s1 s2 q qs u split real = record {
    object = rw (==-refl o, ==-ne q null real);
    listed = view.listed;
    waits = rw (==-ne (waiters o) k.ready_queue view.ne_ready, ==-refl (waiters o));
    ne_ready = view.ne_ready;
    ne_delay = view.ne_delay;
    ne_zombie = view.ne_zombie;
    alive = λ r i.
        let was : (r ≢ null) × (is_some (k.pcbs r) ≡ true) =
          view.alive r (rw split (ground arith)) in
        (was.0, still_alive s1 s2 q r u (was.1));
  }

  others_same :
      (s1 s2 : Links) (q : ℕ) (qs : List ℕ) (u : Pcb) (p : ℕ)
      → a.queue ≡ q ∷ qs
      → p ∉ a.queue
      → (passed s1 s2 q u).pcbs p ≡ k.pcbs p
  others_same s1 s2 q qs u p split out =
      let away : p ∉ (q ∷ qs) = rw split at out in
      let ne : p ≢ q = ground arith in rw (==-ne p q ne)

  hand_over_passes :
      (q : ℕ) (qs : List ℕ) → a.queue ≡ q ∷ qs → HandsOver k lists c o a (hand_over o k)
  unfolding release pass
  hand_over_passes q qs split =
      let w = waiters o in
      let locked : k.locks o ≡ some (record { locked = true; owner = a.holder }) =
        ground (arith, view.object, held) in
      let entries : c w ≡ queue_node q ∷ map queue_node qs =
        view.waits ∙ ap (map queue_node) split in
      let living : (q ≢ null) × (is_some (k.pcbs q) ≡ true) =
        view.alive q (rw split (ground arith)) in
      let counted : k.links.count w ≡ some (pos (suc (length (map queue_node qs)))) =
        rw entries at ((inv.holds.each w view.listed).count) in
      let (u, at_q) = Option-some (k.pcbs q) (living.1) in
      let (s1, s2, run, ready_run, ready_inv) =
        hand_over-queued k lists c w q (map queue_node qs) u inv view.listed entries at_q
          (living.0) in
      let k2 = queued k s1 s2 q u in
      (
        tt,
        passed s1 s2 q u,
        hand_over-run k o q (length (map queue_node qs)) s1 u
            (record { locked = true; owner = a.holder }) (woken k s1 q u) k2 counted run at_q refl
            ready_run locked,
        (
          after q qs,
          Inv-same ready_inv (record { ready = refl; delay = refl; blocked = refl; zombie = refl })
              refl refl,
          rw split (passed-View s1 s2 q qs u split (living.0)),
          refl,
          refl,
          (λ p. others_same s1 s2 q qs u p split),
          record { ready = refl; delay = refl; blocked = refl; zombie = refl },
          (λ l ne nr. rw (==-ne l k.ready_queue nr, ==-ne l w ne)),
          rw split (after-ready q qs),
        ),
      )

  -- The hand-over of a held lock comes to an end and keeps the invariant; the lock and its list
  -- are as release says, the process that gets the lock is at the end of the ready queue, and
  -- every other process's PCB, every other list, the current process and the condition variables
  -- are as they were.
  pub hand_over_lem : HandsOver k lists c o a (hand_over o k)
  hand_over_lem = waits_or_not a.queue refl
    where
      waits_or_not : (qs : List ℕ) → a.queue ≡ qs → HandsOver k lists c o a (hand_over o k)
      waits_or_not [] none_waits = hand_over_last none_waits
      waits_or_not (q ∷ qs) split = hand_over_passes q qs split
