-- ===== src/Tests/Paging.antt =====
-- memory.c, context_switch.c and SysBrk on the sample kernel.
use mathlib.Core.Option.{some-injective}
use sasha_jakob.Base.{
  ℕ, zero, suc, ◌*◌, ◌<◌, ◌≤◌, ◌≡◌, ◌≢◌, refl, sym, ap, ◌∙◌, some, List, arith, replicate,
  get_elem?, pos, success, error, Ends, ◌⊎◌,
}
use sasha_jakob.Switch.Copy.{Copied, Ready, copy_page_table_lem}
use sasha_jakob.Base.{◌∷◌}
use sasha_jakob.Kernel.{Kernel, Machine, process_ready}
use sasha_jakob.Kernel.{Pte, UserContext, process_running}
use sasha_jakob.Memory.{unmapped, page_number, set_kernel_brk}
use sasha_jakob.Memory.Owned.{Owns}
use sasha_jakob.Memory.Break.{Moved, Refused, set_kernel_brk_lem}
use sasha_jakob.Switch.{map_kernel_stack, copy_page_table}
use sasha_jakob.Switch.Stack.{Maps, map_kernel_stack_lem}
use sasha_jakob.Tests.Sample.{sample, sample_table, pcb_in, hardware, machine_on, machine_on-Copies}

no_valid : (n i : ℕ) (e : Pte) → get_elem? (replicate n unmapped) i ≡ some e → e.valid ≡ 0
no_valid zero i e at = cc
no_valid (suc n) zero e at = sym (ap (λ x. x.valid) (some-injective _ _ at))
no_valid (suc n) (suc i) e at = no_valid n i e at

-- A table with one valid entry, whose frame is marked.
sample-Owns : (bits : List ℕ) (f : ℕ) → get_elem? bits f ≡ some 1 → Owns bits (sample_table f)
sample-Owns bits f one = record { marked = marked; apart = apart }
  where
    marked :
        (i : ℕ) (e : Pte)
        → get_elem? (sample_table f) i ≡ some e
        → e.valid ≢ 0
        → get_elem? bits e.pfn ≡ some 1
    marked zero e at on = ap (λ x. get_elem? bits x.pfn) (sym (some-injective _ _ at)) ∙ one
    marked (suc i) e at on = absurd (on (no_valid 7 i e at))

    apart :
        (i j : ℕ) (e e' : Pte)
        → i ≢ j
        → get_elem? (sample_table f) i ≡ some e
        → get_elem? (sample_table f) j ≡ some e'
        → e.valid ≢ 0
        → e'.valid ≢ 0
        → e.pfn ≢ e'.pfn
    apart zero zero e e' ne at at' on on' = absurd (ne refl)
    apart zero (suc j) e e' ne at at' on on' = absurd (on' (no_valid 7 j e' at'))
    apart (suc i) j e e' ne at at' on on' = absurd (on (no_valid 7 i e at))

map_kernel_stack_lem_example :
    (new : List Pte) × (map_kernel_stack hardware ((pcb_in process_running 2).kernel_stack) sample
      ≡ some (success, record sample { region0_pt = new }))
    × Maps (sample_table 0) ((pcb_in process_running 2).kernel_stack) new 2 0 6
map_kernel_stack_lem_example =
    map_kernel_stack_lem hardware sample ((pcb_in process_running 2).kernel_stack) (omega arith)
      (omega arith)

-- The break goes up by two pages.
set_kernel_brk_lem_example : Ends (set_kernel_brk hardware 8192 (3 * 8192) sample) λ rc k'.
    Owns k'.frame_bitmap k'.region0_pt
    × (((rc ≡ success)
          × (page_number hardware 8192 ≤ page_number hardware (3 * 8192))
          × (page_number hardware (3 * 8192) < 6)
          × Moved hardware sample (3 * 8192) k')
        ⊎ ((rc ≡ error)
            × (k'.kernel_brk ≡ sample.kernel_brk)
            × Refused hardware sample 8192 (3 * 8192) k'))
set_kernel_brk_lem_example =
    set_kernel_brk_lem hardware sample (3 * 8192) (omega arith) (omega arith) (omega arith)
      (sample-Owns sample.frame_bitmap 0 refl) 8192 refl

-- A call for a break three pages above the start of region 1.
abbrev brk_context : UserContext
brk_context = record { code = pos 0; addr = 0; pc = 0; sp = 65536; regs = λ _. pos (7 * 8192) }

-- A machine with nine frames, the page below the kernel stack in the reach of region 0, and the sample
-- kernel with all but two frames free.
abbrev wide : Machine
wide = machine_on (record hardware { num_vpn = 9; region1_pages = 6 })

abbrev roomy : Kernel
roomy = record sample { frame_bitmap = 1 ∷ 0 ∷ 1 ∷ replicate 6 0 }

roomy-Ready : Ready wide roomy 2 3 (pcb_in process_running 2) (pcb_in process_ready 3) 6 0
roomy-Ready = record {
  copying = record {
    law = machine_on-Copies (record hardware { num_vpn = 9; region1_pages = 6 });
    runs = refl;
    here = refl;
    there = refl;
    apart = omega arith;
    low = omega arith;
    fits = omega arith;
    bits = omega arith;
  };
  room = omega arith;
  parent_fits = omega arith;
  child_fits = omega arith;
  parent_owns = sample-Owns roomy.frame_bitmap 2 refl;
  child_owns = sample-Owns roomy.frame_bitmap 2 refl;
}

copy_page_table_lem_example :
    Ends
      (copy_page_table wide 256 2 3 roomy)
      λ _ k'. Copied roomy 2 3 (pcb_in process_running 2) (pcb_in process_ready 3) 6 0 k'
copy_page_table_lem_example =
    copy_page_table_lem wide 256 roomy 2 3 (pcb_in process_running 2) (pcb_in process_ready 3)
      roomy-Ready
