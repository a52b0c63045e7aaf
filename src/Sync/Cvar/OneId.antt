-- ===== src/Sync/Cvar/OneId.antt =====
-- sync.c: SyncCvarWait with one id for the condition variable and the lock, as SysCvarWait calls it.
use sasha_jakob.Base.{
  ℕ, ◌≡◌, refl, ap, ◌∙◌, arith, none, some, inl, inr, ◌⊎◌, Option-cases, Bool-cases, ℤ, error, ◌==◌,
  ==-refl, negsuc,
}
use sasha_jakob.Kernel.{Kernel, Pcb, process_default, pcb_from_queue_node, lock, cvar, waiters}
use sasha_jakob.Links.{Links, put, pop}
use sasha_jakob.Process.Queue.{add_to_ready_queue}
use sasha_jakob.Sync.Table.{get_check_sync}
use sasha_jakob.Sync.Table.Names.{get_check_sync-state}
use sasha_jakob.Sync.Lock.{as_owner, hand_over}
use sasha_jakob.Sync.Cvar.{sync_cvar_wait, wait_objects}

add_to_ready_queue-cvars :
    (p : ℕ) (k k' : Kernel) → add_to_ready_queue p k ≡ some (tt, k') → k'.cvars ≡ k.cvars
unfolding add_to_ready_queue
add_to_ready_queue-cvars p k k' e = ground (arith, e)

-- The kernel when the process has left the lock's list.
abbrev woken_lock : Kernel → Links → ℕ → Pcb → Kernel
woken_lock k s p v = record k {
  links = s;
  pcbs =
      put (put k.pcbs p (record v { state = process_default })) p
        (record v { state = process_default; waiting_lock_id = negsuc 0 });
}

hand_over-cvars : (o : ℕ) (k k' : Kernel) → hand_over o k ≡ some (tt, k') → k'.cvars ≡ k.cvars
unfolding hand_over
hand_over-cvars o k k' e = elim (Option-cases (pop (waiters o) k.links)) [
  | inl stops ↦ ground (arith, e, stops)
  | inr ((node, s), run) ↦
      let p = pcb_from_queue_node node in
      elim (Option-cases (k.pcbs p)) [
        | inl stops ↦ ground (arith, e, run, stops)
        | inr (v, at) ↦
            let k1 = woken_lock k s p v in
            elim (Option-cases (add_to_ready_queue p k1)) [
              | inl stops ↦ ground (arith, e, run, at, stops, ==-refl p)
              | inr ((_, k2), ready) ↦
                  ground
                    (arith, e, run, at, ready, ==-refl p, add_to_ready_queue-cvars p k1 k2 ready)
            ]
      ]
]

-- An object that is not both a lock and a condition variable.
abbrev pub OneKind : Kernel → Type 0
OneKind k = (o : ℕ) → (k.locks o ≡ none) ⊎ (k.cvars o ≡ none)

wait_objects-OneKind :
    (id : ℤ) (o : ℕ) (k : Kernel)
    → OneKind k
    → (wait_objects id o o k ≡ none) ⊎ (wait_objects id o o k ≡ some (error, k))
unfolding wait_objects as_owner
wait_objects-OneKind id o k one = elim (one o) [
  | inl free ↦ inl (rw free refl)
  | inr bare ↦ elim (Option-cases (k.locks o)) [
    | inl stops ↦ inl (rw stops refl)
    | inr (l, at) ↦ elim (Bool-cases (l.owner == k.current_process)) [
      | inl mine ↦ elim (Option-cases (hand_over o k)) [
        | inl stops ↦ inl (rw (at, mine, stops) refl)
        | inr ((_, k'), run) ↦
            inl (rw (at, mine, run, ap (λ f. f o) (hand_over-cvars o k k' run) ∙ bare) refl)
      ]
      | inr other ↦ elim (Option-cases (k.pcbs l.owner)) [
        | inl stops ↦ inl (rw (at, other, stops) refl)
        | inr (u, there) ↦ elim (Option-cases (k.pcbs k.current_process)) [
          | inl stops ↦ inl (rw (at, other, there, stops) refl)
          | inr (v, here) ↦ inr (rw (at, other, there, here) refl)
        ]
      ]
    ]
  ]
]

-- Where no object is both a lock and a condition variable, SyncCvarWait with the same id twice never
-- makes the caller wait: it returns ERROR and changes nothing, or it is a fault.
pub sync_cvar_wait-OneKind :
    (id : ℤ) (k : Kernel)
    → OneKind k
    → (sync_cvar_wait id id k ≡ none) ⊎ (sync_cvar_wait id id k ≡ some (error, k))
unfolding sync_cvar_wait
sync_cvar_wait-OneKind id k one = elim (Option-cases (get_check_sync id cvar k)) [
  | inl stops ↦ inl (rw stops refl)
  | inr ((none, s), run) ↦ inr (rw (get_check_sync-state id cvar cvar k s none run) refl)
  | inr ((some sync, s), run) ↦ elim (Option-cases (k.sync_objs sync)) [
    | inl stops ↦ inl (rw (get_check_sync-state id cvar cvar k s (some sync) run, stops) refl)
    | inr (v, at) ↦
        rw
          (
            get_check_sync-state id cvar cvar k s (some sync) run,
            at,
            get_check_sync-state id cvar lock k s (some sync) run,
            at,
          )
          (wait_objects-OneKind id v.object k one)
  ]
]
