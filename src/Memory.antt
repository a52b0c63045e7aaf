-- ===== src/Memory.antt =====
-- memory.c: the page tables of the kernel and its break. A page table is a list of entries, and an
-- access outside of it is a fault. `Halt` stops the machine, which is a fault too.
pub mod Owned
pub mod Shrink
pub mod Grow
pub mod Break
use Prim.Native.Nat.{bit_or}
use sasha_jakob.Base.{
  ℕ, zero, suc, ◌+◌, ◌-◌, ◌*◌, ◌/◌, Bool, true, Option, none, some, List, ◌==◌, if◌then◌else◌, not,
  leb, ltb, replicate, set, ℤ, pos, pos_part, eq_ℤ, error, success, when, pure, fault, ◌>>=◌, ◌>>◌,
}
use sasha_jakob.Frames.{allocate_frame, free_frame}
use sasha_jakob.Kernel.{
  Kernel, K, Hardware, Machine, Pte, UserContext, reg_ptbr0, reg_ptlr0, reg_tlb_flush,
  reg_vm_enable, get, on_frames, entry_of, modify_region0, mark_frame, write_register,
}

-- `PROT_READ | PROT_WRITE`, and `PROT_READ | PROT_EXEC`.
abbrev pub read_write : Hardware → ℕ
read_write hw = bit_or hw.prot_read hw.prot_write

abbrev pub read_exec : Hardware → ℕ
read_exec hw = bit_or hw.prot_read hw.prot_exec

abbrev pub mapped : (pfn prot : ℕ) → Pte
mapped pfn prot = record { valid = 1; prot = prot; pfn = pfn }

abbrev pub unmapped : Pte
unmapped = record { valid = 0; prot = 0; pfn = 0 }

-- The page table is passed and returned.
unfoldable pub map_page : List Pte → (vpn pfn prot : ℕ) → K (List Pte)
map_page table vpn pfn prot = do
  entry_of table vpn
  mark_frame pfn 1
  pure (set table vpn (mapped pfn prot))

unfoldable pub unmap_page : Hardware → List Pte → ℕ → K (List Pte)
unmap_page hw table vpn = do
  entry ← entry_of table vpn
  on_frames (free_frame hw.num_vpn (pos entry.pfn))
  pure (set table vpn unmapped)

abbrev store_region0 : List Pte → K (Unit {0})
store_region0 table k = pure tt (record k { region0_pt = table })

abbrev store_brk : ℕ → K (Unit {0})
store_brk addr k = pure tt (record k { kernel_brk = addr })

-- `ADDR_TO_PAGE_NUM` and `PAGE_NUM_TO_ADDR`.
abbrev pub page_number : Hardware → ℕ → ℕ
page_number hw addr = addr / hw.page_size

abbrev pub page_address : Hardware → ℕ → ℕ
page_address hw page = page * hw.page_size

-- The pages that are left to give back, and the next one.
unfoldable pub shrink_loop : Hardware → (left i : ℕ) → K (Unit {0})
shrink_loop hw zero i = pure tt
shrink_loop hw (suc left) i = do
  table ← get (λ k. k.region0_pt)
  entry ← entry_of table i
  when (not (entry.valid == 0)) (do
    on_frames (free_frame hw.num_vpn (pos entry.pfn))
    mark_frame entry.pfn 0
    modify_region0 i (λ _. unmapped))
  write_register reg_tlb_flush (page_address hw i)
  shrink_loop hw left (i + 1)

-- The pages that are left to map, and the next one; `heap_max` is the first page of the stack.
unfoldable pub grow_loop : Hardware → (heap_max left i : ℕ) → K ℤ
grow_loop hw heap_max zero i = pure success
grow_loop hw heap_max (suc left) i = if leb heap_max i then pure error else do
  pfn ← on_frames (allocate_frame hw.num_vpn)
  if eq_ℤ pfn error then pure error else do
    mark_frame (pos_part pfn) 1
    modify_region0 i (λ _. mapped (pos_part pfn) (read_write hw))
    write_register reg_tlb_flush (page_address hw i)
    grow_loop hw heap_max left (i + 1)

-- The break is moved once virtual memory is on.
move_brk : Hardware → (addr new_page current_page : ℕ) → K ℤ
move_brk hw addr new current =
    if ltb new current
    then (do shrink_loop hw (current - new) new; store_brk addr; pure success)
    else if ltb current new
    then (do
      rc ← grow_loop hw hw.kernel_stack_page (new - current) current
      if eq_ℤ rc error then pure error else do store_brk addr; pure success)
    else do store_brk addr; pure success

-- Before that, the break only grows.
early_brk : (addr brk : ℕ) → K ℤ
early_brk addr brk = if ltb addr brk then pure error else do store_brk addr; pure success

-- `data_page` is the value of the linker's `_first_kernel_data_page`.
unfoldable pub set_kernel_brk : Hardware → (data_page addr : ℕ) → K ℤ
unfolding move_brk early_brk
set_kernel_brk hw data_page addr = do
  brk ← get (λ k. k.kernel_brk)
  enabled ← get (λ k. k.vm_enabled)
  if ltb (page_number hw addr) (page_number hw data_page)
      then pure error
      else if leb hw.kernel_stack_page (page_number hw addr)
      then pure error
      else if enabled
      then move_brk hw addr (page_number hw addr) (page_number hw brk)
      else early_brk addr brk

-- Both identity mappings of the boot: up to the end of the table and of the memory, a page each.
region0_loop : Hardware → (frames : ℕ) → (prot : ℕ → ℕ) → (left vpn : ℕ) → K (Unit {0})
region0_loop hw frames prot zero vpn = pure tt
region0_loop hw frames prot (suc left) vpn =
    if leb hw.max_pt_len vpn then pure tt else if leb frames vpn then pure tt else do
      table ← get (λ k. k.region0_pt)
      table' ← map_page table vpn vpn (prot vpn)
      store_region0 table'
      region0_loop hw frames prot left (vpn + 1)

-- `got_bitmap` tells whether `calloc` gave the bitmap; without it the first store is a fault.
unfoldable pub init_region0_page_table :
    Machine → (text_start data_start brk_start pmem_size : ℕ) → (got_bitmap : Bool) → K (Unit {0})
unfolding region0_loop map_page
init_region0_page_table m text_start data_start brk_start pmem_size got_bitmap =
    let hw = m.hw in
    let frames = pmem_size / hw.page_size in
    if not got_bitmap then fault else do
      (λ k. pure tt (record k { frame_bitmap = replicate frames 0 }))
      mark_frame 0 1
      region0_loop hw frames (λ vpn. if ltb vpn data_start then read_exec hw else read_write hw)
          (brk_start - text_start) text_start
      region0_loop hw frames (λ _. read_write hw) (hw.kernel_stack_limit - hw.kernel_stack_page)
          hw.kernel_stack_page
      write_register reg_ptbr0 m.region0_address
      write_register reg_ptlr0 (hw.vmem_0_limit / hw.page_size)

unfoldable pub enable_virtual_memory : K (Unit {0})
enable_virtual_memory = do
  write_register reg_vm_enable 1
  (λ k. pure tt (record k { vm_enabled = true }))

-- The two loops of InitializeKernelStack over its table, before and after virtual memory is on.
unfoldable pub physical_stack_loop : Hardware → List Pte → (left j : ℕ) → K (List Pte)
unfolding map_page
physical_stack_loop hw table zero j = pure table
physical_stack_loop hw table (suc left) j = do
  table' ← map_page table j (hw.kernel_stack_page + j) (read_write hw)
  physical_stack_loop hw table' left (j + 1)

unfoldable pub fresh_stack_loop : Hardware → List Pte → (left vpn : ℕ) → K (List Pte)
unfolding map_page
fresh_stack_loop hw table zero vpn = pure table
fresh_stack_loop hw table (suc left) vpn = do
  pfn ← on_frames (allocate_frame hw.num_vpn)
  if eq_ℤ pfn error then fault else do
    table' ← map_page table vpn (pos_part pfn) (read_write hw)
    fresh_stack_loop hw table' left (vpn + 1)

-- `memory` is what `malloc` returns, with what that memory held.
unfoldable pub initialize_kernel_stack : Hardware → (memory : Option (List Pte)) → K (List Pte)
unfolding physical_stack_loop fresh_stack_loop
initialize_kernel_stack hw none = fault
initialize_kernel_stack hw (some table) = do
  enabled ← get (λ k. k.vm_enabled)
  if enabled
      then fresh_stack_loop hw table hw.kernel_stack_pages 0
      else physical_stack_loop hw table hw.kernel_stack_pages 0
