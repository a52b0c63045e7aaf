-- ===== src/Switch/Enter.antt =====
-- context_switch.c: what KCSwitch does to the kernel.
use sasha_jakob.Base.{ℕ, ◌+◌, ◌≤◌, ◌≡◌, ◌≢◌, refl, some, List, ◌∷◌, length, ==-refl, ==-ne}
use sasha_jakob.Links.{null, put}
use sasha_jakob.Kernel.{Kernel, Hardware, Pcb, Pte, process_running, reg_ptbr1, reg_tlb_flush}
use sasha_jakob.Switch.{switch_in, kc_switch}
use sasha_jakob.Switch.Stack.{Maps, map_kernel_stack_lem}

-- Process `q` with the PCB `u` runs, in its own address space and on its own stack.
abbrev pub running : Hardware → Kernel → List Pte → (q : ℕ) → Pcb → Kernel
running hw k table q u = record k {
  current_process = q;
  pcbs = put k.pcbs q (record u { state = process_running });
  region0_pt = table;
  register_writes = (reg_tlb_flush, hw.tlb_flush_all) ∷ (reg_ptbr1, q) ∷ k.register_writes;
}

module _ (hw : Hardware) (k : Kernel) (q : ℕ) (u : Pcb) (there : k.pcbs q ≡ some u)
    (stacked : hw.kernel_stack_pages ≤ length u.kernel_stack)
    (fits : hw.kernel_stack_page + hw.kernel_stack_pages ≤ length k.region0_pt) where
  pub switch_in-run :
      (table : List Pte) × (switch_in hw q k ≡ some (u.kernel_context, running hw k table q u))
      × Maps k.region0_pt u.kernel_stack table hw.kernel_stack_pages 0 hw.kernel_stack_page
  unfolding switch_in
  switch_in-run =
      let (table, run, maps) =
        map_kernel_stack_lem hw
          (record k {
            current_process = q;
            pcbs = put k.pcbs q (record u { state = process_running });
          })
          u.kernel_stack stacked fits in
      (table, rw (there, ==-refl q, run, ==-refl q) refl, maps)

-- KCSwitch from a process that runs: its context is saved, and `q` runs.
pub kc_switch-run :
    (hw : Hardware) (k : Kernel) (q : ℕ) (u : Pcb) (p kc : ℕ) (v : Pcb)
    → k.pcbs q ≡ some u
    → hw.kernel_stack_pages ≤ length u.kernel_stack
    → hw.kernel_stack_page + hw.kernel_stack_pages ≤ length k.region0_pt
    → p ≢ null
    → k.pcbs p ≡ some v
    → q ≢ p
    → (table : List Pte) × (kc_switch hw p q kc k
        ≡ some (
          u.kernel_context,
          running hw
              (record k { pcbs = put k.pcbs p (record v { kernel_context = kc }) })
              table
              q
              u,
        ))
      × Maps k.region0_pt u.kernel_stack table hw.kernel_stack_pages 0 hw.kernel_stack_page
unfolding kc_switch
kc_switch-run hw k q u p kc v there stacked fits real here ne =
    let k1 = record k { pcbs = put k.pcbs p (record v { kernel_context = kc }) } in
    let (table, run, maps) = switch_in-run hw k1 q u (rw (==-ne q p ne) there) stacked fits in
    (table, rw (==-ne p null real, here) run, maps)
