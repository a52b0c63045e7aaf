-- ===== src/Tests/Synchronisation.antt =====
-- sync.c on the sample kernel.
use sasha_jakob.Base.{ℕ, List, ◌≡◌, refl, some, none, [], ◌∷◌, arith, pos, success, Ends}
use sasha_jakob.Links.{null}
use sasha_jakob.Kernel.{lock, pipe, process_running}
use sasha_jakob.Sync.Table.{get_new_id, id_loop, free_id, pcb_blocked}
use sasha_jakob.Sync.Table.Ids.{IdsAgree, Issues, taken, get_new_id_lem, free_id-get_new_id}
use sasha_jakob.Sync.Table.Names.{Names}
use sasha_jakob.Sync.Lock.{sync_lock_acquire, sync_lock_release, hand_over}
use sasha_jakob.Sync.Lock.Spec.{LockSpec, acquire, release, pass, View, Steps}
use sasha_jakob.Sync.Lock.Acquire.{acquire_refines}
use sasha_jakob.Sync.Lock.HandOver.{HandsOver, hand_over_lem}
use sasha_jakob.Sync.Lock.Release.{release_refines, release_free}
use sasha_jakob.Kernel.{cvar}
use sasha_jakob.Process.Queue.Placed.{Inv}
use sasha_jakob.Sync.Waits.{Waits}
use sasha_jakob.Sync.Cvar.{sync_cvar_wait, sync_cvar_signal, sync_cvar_broadcast}
use sasha_jakob.Sync.Cvar.Wakes.{Wakes, signal_refines, broadcast_refines}
use sasha_jakob.Sync.Cvar.Wait.{wait_refines}
use sasha_jakob.Tests.Sample.{sample, sample_lists, sample_entries, pcb_in}
use sasha_jakob.Tests.Invariant.{sample-Inv}

abbrev free_lock_state : LockSpec
free_lock_state = record { holder = null; queue = [] }

abbrev own_lock_state : LockSpec
own_lock_state = record { holder = 2; queue = 1 ∷ [] }

abbrev other_lock_state : LockSpec
other_lock_state = record { holder = 3; queue = [] }

free-Names : Names sample 0 21 lock 1
free-Names = record { small = omega arith; entry = refl; real = omega arith; object = refl }

own-Names : Names sample 1 22 lock 2
own-Names = record { small = omega arith; entry = refl; real = omega arith; object = refl }

other-Names : Names sample 2 23 lock 3
other-Names = record { small = omega arith; entry = refl; real = omega arith; object = refl }

pipe-Names : Names sample 3 24 pipe 4
pipe-Names = record { small = omega arith; entry = refl; real = omega arith; object = refl }

free-View : View sample sample_lists sample_entries 1 free_lock_state
free-View = record {
  object = refl;
  listed = refl;
  waits = refl;
  ne_ready = omega arith;
  ne_delay = omega arith;
  ne_zombie = omega arith;
  alive = λ q i. absurd (ground (arith, i));
}

own-View : View sample sample_lists sample_entries 2 own_lock_state
own-View = record {
  object = refl;
  listed = refl;
  waits = refl;
  ne_ready = omega arith;
  ne_delay = omega arith;
  ne_zombie = omega arith;
  alive = λ q i. (ground (arith, i), ground (arith, i));
}

other-View : View sample sample_lists sample_entries 3 other_lock_state
other-View = record {
  object = refl;
  listed = refl;
  waits = refl;
  ne_ready = omega arith;
  ne_delay = omega arith;
  ne_zombie = omega arith;
  alive = λ q i. absurd (ground (arith, i));
}

acquire_refines_example :
    Steps sample_lists 3
      (record { holder = 3; queue = 2 ∷ [] })
      pcb_blocked
      (sync_lock_acquire (pos 2) sample)
unfolding acquire
acquire_refines_example =
    acquire_refines sample sample_lists sample_entries sample-Inv 2 23 3 other-Names
      other_lock_state other-View (pcb_in process_running 2) (omega arith) refl refl

release_refines_example : Ends (sync_lock_release (pos 1) sample) λ rc k'.
    (rc ≡ success)
    × ((c' : ℕ → List ℕ) × Inv k' sample_lists c'
        × View k' sample_lists c' 2 (record { holder = 1; queue = [] })
        × (c' 803 ≡ 12 ∷ 4 ∷ []))
unfolding release pass
release_refines_example =
    release_refines sample sample_lists sample_entries sample-Inv 1 22 2 own-Names own_lock_state
      own-View (omega arith) refl

hand_over_lem_example :
    HandsOver sample sample_lists sample_entries 2 own_lock_state (hand_over 2 sample)
hand_over_lem_example =
    hand_over_lem sample sample_lists sample_entries sample-Inv 2 own_lock_state own-View
      (omega arith)

release_free_example : sync_lock_release (pos 0) sample ≡ none
release_free_example =
    release_free sample sample_lists sample_entries sample-Inv 0 21 1 free-Names free_lock_state
      free-View refl (omega arith) refl

sample-IdsAgree : IdsAgree sample
sample-IdsAgree = record { entries = refl; counted = refl }

get_new_id_lem_example : Ends (get_new_id sample) λ r k'. IdsAgree k' × Issues sample r k'
get_new_id_lem_example = get_new_id_lem sample sample-IdsAgree

free_id-get_new_id_example : free_id (pos 5) (taken sample 5) ≡ some (tt, sample)
unfolding get_new_id id_loop
free_id-get_new_id_example = free_id-get_new_id sample sample-IdsAgree 5 (taken sample 5) refl

cvar-Names : Names sample 4 25 cvar 5
cvar-Names = record { small = omega arith; entry = refl; real = omega arith; object = refl }

cvar-Waits : Waits sample sample_lists sample_entries 43 (4 ∷ [])
cvar-Waits = record {
  listed = refl;
  waits = refl;
  ne_ready = omega arith;
  ne_delay = omega arith;
  ne_zombie = omega arith;
  alive = λ q i. (ground (arith, i), ground (arith, i));
}

signal_refines_example :
    Wakes sample sample_lists sample_entries 43
      (4 ∷ [])
      []
      (pos 0)
      (sync_cvar_signal (pos 4) sample)
signal_refines_example =
    signal_refines sample sample_lists sample_entries sample-Inv 4 25 5 cvar-Names refl (4 ∷ [])
      cvar-Waits

broadcast_refines_example :
    Wakes sample sample_lists sample_entries 43
      (4 ∷ [])
      []
      (pos 9)
      (sync_cvar_broadcast (pos 9) (pos 4) sample)
broadcast_refines_example =
    broadcast_refines sample sample_lists sample_entries sample-Inv 4 25 5 cvar-Names refl (4 ∷ [])
      cvar-Waits (pos 9)

wait_refines_example : Ends (sync_cvar_wait (pos 4) (pos 1) sample) λ rc k'.
    (rc ≡ pcb_blocked)
    × ((c' : ℕ → List ℕ) × Inv k' sample_lists c'
        × View k' sample_lists c' 2 (record { holder = 1; queue = [] })
        × Waits k' sample_lists c' 43 (4 ∷ 2 ∷ []))
unfolding release pass
wait_refines_example =
    wait_refines sample sample_lists sample_entries sample-Inv 4 25 5 cvar-Names refl (4 ∷ [])
      cvar-Waits 1 22 2 own-Names own_lock_state own-View (omega arith) (pcb_in process_running 2)
      (omega arith) refl refl refl
