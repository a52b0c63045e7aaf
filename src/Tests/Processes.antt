-- ===== src/Tests/Processes.antt =====
-- pcb.c on the sample kernel.
use sasha_jakob.Base.{◌≡◌, refl, some, arith, pos, Ends, ◌>>◌}
use sasha_jakob.Kernel.{process_default, process_ready}
use sasha_jakob.Process.Queue.Placed.{Inv}
use sasha_jakob.Process.Queue.Moves.{Enters}
use sasha_jakob.Process.Queue.Leave.{Leaves}
use sasha_jakob.Process.Queue.Each.{
  ready_one, delay_one, add_to, remove_from, entered, home, add_to-Enters, remove_from-Leaves,
  remove_from-add_to,
}
use sasha_jakob.Base.{[], ◌∷◌}
use sasha_jakob.Process.Scan.{update_delayed_processes, find_zombie_child}
use sasha_jakob.Process.Scan.Search.{find_zombie_child_lem}
use sasha_jakob.Process.Scan.Delay.{Ticks}
use sasha_jakob.Process.Scan.Ticks.{update_delayed_processes_lem}
use sasha_jakob.Tests.Sample.{late_pcb, sample, sample_lists, sample_entries, pcb_in}
use sasha_jakob.Tests.Invariant.{sample-Inv, single_one}

add_to-Enters_example :
    Enters sample sample_lists sample_entries 5
      (entered ready_one (pos 0) (pcb_in process_default 5))
      (home ready_one sample)
      (add_to ready_one 5 (pos 0) sample)
add_to-Enters_example =
    add_to-Enters sample sample_lists sample_entries sample-Inv 5 (pcb_in process_default 5) refl
      ready_one (pos 0) (omega arith) refl

remove_from-Leaves_example :
    Leaves sample sample_lists sample_entries 3
      (pcb_in process_ready 3)
      (home ready_one sample)
      (remove_from ready_one 3 sample)
remove_from-Leaves_example =
    remove_from-Leaves sample sample_lists sample_entries sample-Inv 3 (pcb_in process_ready 3) refl
      ready_one (omega arith) refl refl

remove_from-add_to_example :
    Ends ((add_to delay_one 5 (pos 7) >> remove_from delay_one 5) sample) λ _ k'.
      (k'.pcbs 5
        ≡ some (record (entered delay_one (pos 7) (pcb_in process_default 5)) {
          state = process_default;
        }))
      × Inv k' sample_lists sample_entries
remove_from-add_to_example =
    remove_from-add_to sample sample_lists sample_entries sample-Inv 5 (pcb_in process_default 5)
      refl delay_one (pos 7) (omega arith) refl

update_delayed_processes_lem_example :
    Ticks sample sample_lists sample_entries [] (7 ∷ []) (update_delayed_processes sample)
update_delayed_processes_lem_example =
    update_delayed_processes_lem sample sample_lists sample_entries (7 ∷ []) sample-Inv refl
      ((late_pcb, refl, refl, omega arith), tt)

find_zombie_child_lem_example : find_zombie_child 2 sample ≡ some (8, sample)
find_zombie_child_lem_example =
    find_zombie_child_lem sample 2 (8 ∷ []) (omega arith)
      (single_one 10 33 (omega arith) (omega arith) (omega arith) refl refl refl) (refl, tt)
