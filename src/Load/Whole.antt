-- ===== src/Load/Whole.antt =====
-- load_program.c: the whole load, from the checks to the process that can run.
use sasha_jakob.Base.{ℕ, ◌+◌, ◌≡◌, some, List, ◌⊎◌, ℤ, success, error}
use sasha_jakob.Frames.Alloc.{InUse}
use sasha_jakob.Kernel.{Kernel, Pcb, Pte}
use sasha_jakob.Process.Exit.Freed.{Frees}
use sasha_jakob.Memory.{page_address}
use sasha_jakob.Load.{Loader, Program, region1_page, data_npg, stack_top}
use sasha_jakob.Load.Space.{Given}
use sasha_jakob.Load.Stores.{Stores}
use sasha_jakob.Load.Protect.{Protected}
use sasha_jakob.Load.Built.{InSpace}
use sasha_jakob.Load.Filled.{Own}

-- The process with its new stack pointer, and with its new table and break.
abbrev pub with_sp : Loader → List (List ℕ) → Pcb → Pcb
with_sp l args v = record v { user_context = record (v.user_context) { sp = stack_top l args } }

abbrev pub with_space : Loader → Program → List (List ℕ) → List Pte → Pcb → Pcb
with_space l li args t v = record (with_sp l args v) {
  region1_pt = t;
  brk = page_address l.hw (region1_page l.hw li.id_vaddr + data_npg li);
}

-- The pages are there and the text among them is protected; or the pages are there and the file could not
-- be read; or no frame is left. `freed` is the kernel when the frames of the old pages have been given back.
abbrev pub Loaded : Loader → Program → List (List ℕ) → Kernel → (p : ℕ) → Pcb → ℤ → Kernel → Type 0
Loaded l li args k p v rc k' =
    Own k p k'
    × (freed : Kernel) × Frees l.hw k v l.hw.max_pt_len 0 freed
    × (((rc ≡ success)
          × (t t' : List Pte) × Given l.hw freed.frame_bitmap v.region1_pt k'.frame_bitmap t
              (InSpace l li args)
          × Protected l.hw (region1_page l.hw li.t_vaddr) li.t_npg t t'
          × (k'.pcbs p
              ≡ some (record (with_space l li args t' v) {
                user_context = record (v.user_context) { sp = stack_top l args; pc = li.entry };
              })))
        ⊎ ((rc ≡ l.kill)
            × (t : List Pte) × Given l.hw freed.frame_bitmap v.region1_pt k'.frame_bitmap t
                (InSpace l li args)
            × (k'.pcbs p ≡ some (with_space l li args t v)))
        ⊎ ((rc ≡ error) × InUse k'.frame_bitmap 0 l.hw.num_vpn))
