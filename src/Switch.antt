-- ===== src/Switch.antt =====
-- context_switch.c: what KernelContextSwitch runs, and the copying of a process's pages.
pub mod Stack
pub mod Enter
pub mod CopyOne
pub mod Copy
use sasha_jakob.Base.{
  ℕ, zero, suc, ◌+◌, ◌-◌, List, ◌==◌, if◌then◌else◌, set, ℤ, pos, pos_part, neg_part, success, pure,
  ◌>>=◌, ◌>>◌,
}
use sasha_jakob.Frames.{allocate_frame}
use sasha_jakob.Links.{null}
use sasha_jakob.Kernel.{
  K, Hardware, Machine, Pte, process_running, reg_ptbr1, reg_tlb_flush, get, load_pcb, modify_pcb,
  on_frames, entry_of, modify_region0, modify_region1, write_register,
}
use sasha_jakob.Memory.{read_write, page_address}

-- `TEMP_MAPPING_VADDR >> PAGESHIFT`: the page below the kernel stack.
abbrev pub temp_page : Hardware → ℕ
temp_page hw = hw.kernel_stack_page - 1

unfoldable pub setup_temp_mapping : Hardware → ℕ → K (Unit {0})
setup_temp_mapping hw pfn = do
  modify_region0 (temp_page hw) (λ e. record e { valid = 1; pfn = pfn; prot = read_write hw })
  write_register reg_tlb_flush (page_address hw (temp_page hw))

unfoldable pub remove_temp_mapping : Hardware → K (Unit {0})
remove_temp_mapping hw = modify_region0 (temp_page hw) (λ e. record e { valid = 0 })

-- The entries of the copy that are left, and the next one, in the stack's table and in region 0.
unfoldable pub stack_copy : List Pte → (left j page : ℕ) → K (Unit {0})
stack_copy table zero j page = pure tt
stack_copy table (suc left) j page = do
  entry ← entry_of table j
  modify_region0 page (λ _. entry)
  stack_copy table left (j + 1) (page + 1)

unfoldable pub map_kernel_stack : Hardware → List Pte → K ℤ
unfolding stack_copy
map_kernel_stack hw table = do
  stack_copy table hw.kernel_stack_pages 0 hw.kernel_stack_page
  pure success

-- What both branches of KCSwitch do for the process that comes in; the saved context of that process is
-- returned. `current_process` is set before the stack is mapped.
unfoldable pub switch_in : Hardware → (next : ℕ) → K ℕ
switch_in hw next = do
  (λ k. pure tt (record k { current_process = next }))
  modify_pcb next (λ v. record v { state = process_running })
  v ← load_pcb next
  map_kernel_stack hw v.kernel_stack
  write_register reg_ptbr1 next
  write_register reg_tlb_flush hw.tlb_flush_all
  w ← load_pcb next
  pure w.kernel_context

unfoldable pub kc_switch : Hardware → (curr next kc_in : ℕ) → K ℕ
unfolding switch_in map_kernel_stack
kc_switch hw curr next kc_in =
    if curr == null
    then switch_in hw next
    else do modify_pcb curr (λ v. record v { kernel_context = kc_in }); switch_in hw next

abbrev modify_stack : (process i : ℕ) → (Pte → Pte) → K (Unit {0})
modify_stack p i f = do
  v ← load_pcb p
  entry ← entry_of v.kernel_stack i
  modify_pcb p (λ w. record w { kernel_stack = set w.kernel_stack i (f entry) })

-- The pages of the kernel stack that are left to copy, and the next one.
kstack_loop : Machine → (process left i : ℕ) → K (Unit {0})
unfolding setup_temp_mapping remove_temp_mapping
kstack_loop m process zero i = pure tt
kstack_loop m process (suc left) i = do
  v ← load_pcb process
  entry ← entry_of v.kernel_stack i
  setup_temp_mapping m.hw entry.pfn
  m.copy_page (temp_page m.hw) (m.hw.kernel_stack_page + i)
  remove_temp_mapping m.hw
  modify_stack process i (λ e. record e { valid = 1; prot = read_write m.hw })
  kstack_loop m process left (i + 1)

unfoldable pub kc_copy : Machine → (process kc_in : ℕ) → K ℕ
unfolding kstack_loop
kc_copy m process kc_in = do
  modify_pcb process (λ v. record v { kernel_context = kc_in })
  kstack_loop m process m.hw.kernel_stack_pages 0
  write_register reg_tlb_flush m.hw.tlb_flush_kstack
  pure kc_in

-- `allocate_frame` returns -1 where no frame is left; nothing tests that, and the field for a frame
-- holds the number modulo its width, which the machine's `pte_t` gives.
abbrev pub frame_field : (width : ℕ) → ℤ → ℕ
frame_field width z = if neg_part z == 0 then pos_part z else width - neg_part z

-- One page of the parent, copied to a frame of the child's own.
unfoldable pub copy_one : Machine → (width parent child i : ℕ) → K (Unit {0})
unfolding setup_temp_mapping remove_temp_mapping
copy_one m width parent child i = do
  u ← load_pcb parent
  entry ← entry_of u.region1_pt i
  if entry.valid == 1
      then (do
        frame ← on_frames (allocate_frame m.hw.num_vpn)
        modify_region1 child i (λ e. record e { pfn = frame_field width frame })
        setup_temp_mapping m.hw (frame_field width frame)
        m.copy_page (temp_page m.hw) (i + m.hw.region1_pages)
        remove_temp_mapping m.hw
        modify_region1 child i (λ e. record e { prot = entry.prot; valid = 1 }))
      else pure tt

-- The pages that are left, and the next one.
unfoldable pub copy_loop : Machine → (width parent child left i : ℕ) → K (Unit {0})
copy_loop m width parent child zero i = pure tt
copy_loop m width parent child (suc left) i = do
  copy_one m width parent child i
  copy_loop m width parent child left (i + 1)

unfoldable pub copy_page_table : Machine → (width parent child : ℕ) → K (Unit {0})
copy_page_table m width parent child = copy_loop m width parent child m.hw.region1_pages 0
