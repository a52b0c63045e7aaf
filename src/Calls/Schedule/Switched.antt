-- ===== src/Calls/Schedule/Switched.antt =====
-- syscalls.c: schedule. The kernel when another process has come in.
use sasha_jakob.Base.{
  ℕ, ◌+◌, ◌≤◌, ◌≡◌, ◌≢◌, refl, sym, ◌∙◌, some, true, List, ◌∷◌, arith, length, pos, ==-refl, ==-ne,
}
use sasha_jakob.Links.{Links, null, put}
use sasha_jakob.Kernel.{
  Kernel, Machine, Switches, Pcb, Pte, UserContext, process_running, reg_ptbr1, reg_tlb_flush,
}
use sasha_jakob.Switch.{kc_switch}
use sasha_jakob.Switch.Stack.{Maps}
use sasha_jakob.Switch.Enter.{running, kc_switch-run}
use sasha_jakob.Calls.Schedule.{choose, deschedule, resume, schedule}

-- The PCBs of the two processes.
abbrev pub left_pcb : Pcb → UserContext → ℕ → Pcb
left_pcb v uctxt kc = record v { user_context = uctxt; kernel_context = kc }

abbrev pub entered_pcb : Pcb → Pcb
entered_pcb u = record u { run_time = pos 0; state = process_running }

-- The kernel when process `q` with the PCB `u` has come in for process `p` with the PCB `v`.
abbrev pub switched :
    Machine → Kernel → Links → List Pte → (p q : ℕ) → (v u : Pcb) → UserContext → ℕ → Kernel
switched m k s table p q v u uctxt kc = record k {
  links = s;
  pcbs = put (put k.pcbs p (left_pcb v uctxt kc)) q (entered_pcb u);
  current_process = q;
  region0_pt = table;
  register_writes =
      (reg_tlb_flush, m.hw.tlb_flush_1)
      ∷ (reg_ptbr1, q)
      ∷ (reg_tlb_flush, m.hw.tlb_flush_all)
      ∷ (reg_ptbr1, q)
      ∷ k.register_writes;
}

-- Before the switch.
abbrev leaving : Kernel → Links → (p q : ℕ) → (v u : Pcb) → UserContext → Kernel
leaving k s p q v u uctxt = record k {
  links = s;
  pcbs = put (put k.pcbs p (record v { user_context = uctxt })) q (record u { run_time = pos 0 });
}

module _ (m : Machine) (law : Switches m) (k : Kernel) (s : Links) (q : ℕ) (v u : Pcb)
    (uctxt : UserContext) (real : k.current_process ≢ null)
    (here : k.pcbs k.current_process ≡ some v) (there : k.pcbs q ≡ some u)
    (other : q ≢ k.current_process) (chosen : choose k ≡ some (q, record k { links = s }))
    (stacked : m.hw.kernel_stack_pages ≤ length u.kernel_stack)
    (fits : m.hw.kernel_stack_page + m.hw.kernel_stack_pages ≤ length k.region0_pt) where
  -- The current process is written, then `q`, then the current process and `q` once more.
  pcbs-switched :
      (v' : Pcb) (u' v'' : Pcb) (x : ℕ)
      → put
          (put (put (put k.pcbs k.current_process v') q u') k.current_process v'')
          q
          (entered_pcb u)
          x
        ≡ put (put k.pcbs k.current_process v'') q (entered_pcb u) x
  pcbs-switched v' u' v'' x = ground arith

  left :
      deschedule m uctxt k
      ≡ m.context_switch
          (kc_switch m.hw k.current_process q)
          (leaving k s k.current_process q v u uctxt)
  unfolding deschedule
  left = rw (here, chosen, here, ==-ne q k.current_process other, there) refl

  -- schedule succeeds, and process `q` has come in: `*uctxt` holds its saved context.
  pub schedule-switched :
      (kc : ℕ) × (table : List Pte) × (schedule m uctxt k
        ≡ some ((true, u.user_context), switched m k s table k.current_process q v u uctxt kc))
      × Maps k.region0_pt u.kernel_stack table m.hw.kernel_stack_pages 0 m.hw.kernel_stack_page
  unfolding schedule resume
  schedule-switched =
      let k0 = leaving k s k.current_process q v u uctxt in
      let u' : Pcb = record u { run_time = pos 0 } in
      let v' : Pcb = record v { user_context = uctxt } in
      let kc = m.kernel_context k0 in
      let (table, run, maps) =
        kc_switch-run m.hw k0 q u' k.current_process kc v' (rw (==-refl q) refl) stacked fits real
          (rw (==-ne k.current_process q (λ e. other (sym e)), ==-refl k.current_process) refl)
          other in
      let k1 =
        running m.hw (record k0 { pcbs = put k0.pcbs k.current_process (left_pcb v uctxt kc) })
          table q u' in
      let entered =
        left ∙ law.enters (kc_switch m.hw k.current_process q) k0 k1 u.kernel_context run in
      (
        kc,
        table,
        rw (entered, ==-refl q)
            (λ i. some (
              (true, u.user_context),
              record (switched m k s table k.current_process q v u uctxt kc) {
                pcbs = λ x. pcbs-switched v' u' (left_pcb v uctxt kc) x i;
              },
            )),
        maps,
      )
