-- ===== src/Calls/Brk.antt =====
-- syscalls.c: SysBrk. The page numbers are `unsigned int`, so they are taken modulo 2 ^ 32.
pub mod Grow
pub mod Moves
use sasha_jakob.Base.{
  ℕ, zero, suc, ◌+◌, ◌-◌, ◌/◌, ◌%◌, ◌^◌, ◌==◌, if◌then◌else◌, ltb, leb, ℤ, pos, pos_part, eq_ℤ,
  error, when, pure, fault, get_elem?, and_then, some, ◌>>=◌, ◌>>◌,
}
use sasha_jakob.Frames.{allocate_frame, free_frame}
use sasha_jakob.Kernel.{
  K, Hardware, Pte, UserContext, reg_tlb_flush, get, load_pcb, on_frames, modify_region1, entry_of,
  write_register,
}
use sasha_jakob.Process.Exit.{set_reg0, address}
use sasha_jakob.Memory.{read_write, mapped, unmapped, page_number, page_address}

-- The page of the new break, `addr` rounded up, counted from the start of region 1.
abbrev pub new_break : Hardware → ℕ → ℕ
new_break hw addr = (hw.up_to_page addr / hw.page_size + 2 ^ 32 - hw.max_pt_len) % 2 ^ 32

-- An entry of a process's region 1 page table.
abbrev pub user_entry : (process i : ℕ) → K Pte
user_entry p i = do v ← load_pcb p; entry_of v.region1_pt i

-- The pages that are left to map, and the next one.
unfoldable pub brk_grow : Hardware → (left i : ℕ) → K ℤ
brk_grow hw zero i = pure (pos 0)
brk_grow hw (suc left) i = do
  current ← get (λ k. k.current_process)
  entry ← user_entry current i
  if entry.valid == 0
      then (do
        nf ← on_frames (allocate_frame hw.num_vpn)
        if eq_ℤ nf error then pure error else do
          modify_region1 current i (λ _. mapped (pos_part nf) (read_write hw))
          brk_grow hw left (i + 1))
      else brk_grow hw left (i + 1)

-- `for (i = …; i < nbrk; i--)`, with fuel.
unfoldable pub brk_shrink : Hardware → (fuel nbrk i : ℕ) → K (Unit {0})
brk_shrink hw zero nbrk i = fault
brk_shrink hw (suc fuel) nbrk i = if leb nbrk i then pure tt else do
  current ← get (λ k. k.current_process)
  entry ← user_entry current i
  when (entry.valid == 1) (do
    on_frames (free_frame hw.num_vpn (pos entry.pfn))
    write_register reg_tlb_flush (page_address hw i)
    modify_region1 current i (λ _. unmapped))
  brk_shrink hw fuel nbrk ((i + 2 ^ 32 - 1) % 2 ^ 32)

-- The break is at page `cbrk`, and is to be at page `nbrk`.
unfoldable pub brk_to : Hardware → (nbrk cbrk : ℕ) → UserContext → K UserContext
unfolding brk_grow brk_shrink
brk_to hw nbrk cbrk uctxt =
    if nbrk == cbrk
    then pure (set_reg0 (pos 0) uctxt)
    else if ltb cbrk nbrk
    then (do rc ← brk_grow hw (nbrk - cbrk) cbrk; pure (set_reg0 rc uctxt))
    else do brk_shrink hw (suc cbrk) nbrk (cbrk - 1); pure (set_reg0 (pos 0) uctxt)

unfoldable pub sys_brk : Hardware → UserContext → K UserContext
unfolding brk_to
sys_brk hw uctxt = do
  curr ← get (λ k. k.current_process)
  v ← load_pcb curr
  if leb (page_number hw (hw.down_to_page v.user_context.sp))
        (new_break hw (address (uctxt.regs 0)))
      then pure (set_reg0 error uctxt)
      else brk_to hw (new_break hw (address (uctxt.regs 0))) (page_number hw v.brk) uctxt
