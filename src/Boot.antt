-- ===== src/Boot.antt =====
-- kernel.c: the start of the kernel. `Halt` is a fault.
use sasha_jakob.Base.{
  ℕ, ◌-◌, Bool, true, not, Option, List, ◌==◌, if◌then◌else◌, ℤ, pos, pos_part, eq_ℤ, error, pure,
  fault, ◌>>=◌, ◌>>◌,
}
use sasha_jakob.Links.{null}
use sasha_jakob.Frames.{allocate_frame}
use sasha_jakob.Kernel.{
  K, Hardware, Machine, Pcb, Pte, UserContext, process_running, reg_ptbr1, reg_ptlr1, reg_tlb_flush,
  load_pcb, modify_pcb, on_frames, write_register,
}
use sasha_jakob.Memory.{
  read_write, map_page, init_region0_page_table, enable_virtual_memory, initialize_kernel_stack,
}
use sasha_jakob.Switch.{kc_copy}
use sasha_jakob.Process.Queue.{init_pcb_system, add_to_ready_queue}
use sasha_jakob.Process.Family.{create_pcb}
use sasha_jakob.Traps.{trap_init}

-- What the allocations for a process return, as in module Calls.Family.
pub record NewProcess : Type 0 where
  pub fresh : ℕ
  pub old : Pcb
  pub got_table : Bool
  pub pid : ℤ
  pub stack_memory : Option (List Pte)

-- What the kernel is started with: the linker's pages, the size of the memory, what the allocations
-- return, the address of DoIdle, LoadProgram, and the name and the arguments of the first program.
pub record Start : Type 0 where
  pub machine : Machine
  pub text_page : ℕ
  pub data_page : ℕ
  pub brk_page : ℕ
  pub pmem_size : ℕ
  pub got_bitmap : Bool
  pub ready_memory : ℕ
  pub delay_memory : ℕ
  pub blocked_memory : ℕ
  pub zombie_memory : ℕ
  pub idle : NewProcess
  pub init : NewProcess
  pub do_idle : ℕ
  pub load_program : (name args process : ℕ) → K ℤ
  pub name : ℕ
  pub args : ℕ

unfoldable pub create_process : Hardware → NewProcess → K ℕ
unfolding create_pcb
create_process hw new = create_pcb hw new.fresh new.old new.got_table new.pid

unfoldable pub set_current_process : ℕ → K (Unit {0})
set_current_process process = do
  (λ k. pure tt (record k { current_process = process }))
  modify_pcb process (λ v. record v { state = process_running })

-- The kernel stack and the context of a new process.
abbrev equip : Hardware → NewProcess → (process : ℕ) → UserContext → K (Unit {0})
equip hw new process uctxt = do
  stack ← initialize_kernel_stack hw new.stack_memory
  modify_pcb process (λ v. record v { kernel_stack = stack })
  modify_pcb process (λ v. record v { user_context = uctxt })

-- The idle process, up to its program counter and its stack pointer.
make_idle : Start → UserContext → K ℕ
unfolding create_process map_page initialize_kernel_stack
make_idle b uctxt = do
  idle ← create_process b.machine.hw b.idle
  (λ k. pure tt (record k { idle_process = idle }))
  modify_pcb idle (λ v. record v { time_slice = pos 1 })
  if idle == null then fault else do
    pfn ← on_frames (allocate_frame b.machine.hw.num_vpn)
    if eq_ℤ pfn error then fault else do
      v ← load_pcb idle
      table ←
          map_page v.region1_pt (b.machine.hw.max_pt_len - 1) (pos_part pfn)
            (read_write b.machine.hw)
      modify_pcb idle (λ w. record w { region1_pt = table })
      write_register reg_ptbr1 idle
      write_register reg_ptlr1 b.machine.hw.max_pt_len
      equip b.machine.hw b.idle idle uctxt
      modify_pcb idle (λ w. record w {
        user_context = record (w.user_context) {
          pc = b.do_idle;
          sp = b.machine.hw.vmem_1_limit - 5;
        };
      })
      pure idle

-- The init process and its program; that the program could not be loaded is only traced.
make_init : Start → UserContext → K ℕ
unfolding create_process initialize_kernel_stack
make_init b uctxt = do
  init ← create_process b.machine.hw b.init
  if init == null then fault else do
    equip b.machine.hw b.init init uctxt
    write_register reg_ptbr1 init
    write_register reg_tlb_flush b.machine.hw.tlb_flush_1
    b.load_program b.name b.args init
    pure init

-- KernelStart up to the clone of its context. Both processes go on behind it, with `start_tail`.
unfoldable pub kernel_start : Start → UserContext → K (ℕ × ℕ)
unfolding make_idle make_init init_pcb_system init_region0_page_table enable_virtual_memory kc_copy
    trap_init
kernel_start b uctxt = do
  trap_init b.machine
  rc ← init_pcb_system b.ready_memory b.delay_memory b.blocked_memory b.zombie_memory
  if not (eq_ℤ rc (pos 0)) then fault else do
    init_region0_page_table b.machine b.text_page b.data_page b.brk_page b.pmem_size b.got_bitmap
    idle ← make_idle b uctxt
    enable_virtual_memory
    init ← make_init b uctxt
    write_register reg_ptbr1 idle
    write_register reg_tlb_flush b.machine.hw.tlb_flush_1
    b.machine.context_switch (kc_copy b.machine init)
    pure (idle, init)

-- The end of KernelStart. `switch_flag` is its static variable, passed and returned with `*uctxt`.
unfoldable pub start_tail :
    Hardware → (switch_flag : Bool) → (idle init : ℕ) → K (Bool × UserContext)
unfolding add_to_ready_queue set_current_process
start_tail hw switch_flag idle init = do
  write_register reg_tlb_flush hw.tlb_flush_all
  if not switch_flag
      then (do
        add_to_ready_queue init
        v ← load_pcb idle
        set_current_process idle
        pure (true, v.user_context))
      else do
        write_register reg_ptbr1 init
        write_register reg_tlb_flush hw.tlb_flush_1
        v ← load_pcb init
        set_current_process init
        pure (true, v.user_context)
