-- ===== src/Calls/Brk/Moves.antt =====
-- syscalls.c: what SysBrk does, by the place of the new break.
use sasha_jakob.Base.{ℕ, ◌-◌, ◌<◌, ◌≤◌, ◌≡◌, ◌⊎◌, ℤ, pos, error}
use sasha_jakob.Kernel.{Kernel, Hardware, Pcb, UserContext}
use sasha_jakob.Process.Exit.{set_reg0}
use sasha_jakob.Memory.{page_number}
use sasha_jakob.Calls.Brk.Grow.{Grows}

-- The outcome of a call whose new break is page `new`: the break is refused, or it is not above the old one and nothing changes but the
-- register, or pages are mapped.
abbrev pub Brks : Hardware → UserContext → Kernel → Pcb → (new : ℕ) → UserContext → Kernel → Type 0
Brks hw uctxt k v new back k' =
    ((page_number hw (hw.down_to_page v.user_context.sp) ≤ new)
      × (back ≡ set_reg0 error uctxt)
      × (k' ≡ k))
    ⊎ (new < page_number hw (hw.down_to_page v.user_context.sp))
      × (((new ≤ page_number hw v.brk) × (back ≡ set_reg0 (pos 0) uctxt) × (k' ≡ k))
          ⊎ ((page_number hw v.brk < new)
              × ((rc : ℤ) × (back ≡ set_reg0 rc uctxt)
                  × Grows hw k v (new - page_number hw v.brk) (page_number hw v.brk) rc k')))
