-- ===== src/Memory/Break.antt =====
-- memory.c: SetKernelBrk once virtual memory is on.
use sasha_jakob.Base.{
  ℕ, ◌-◌, ◌<◌, ◌≤◌, ◌≡◌, refl, ap, if◌then◌else◌, ◌∙◌, arith, length, ◌⊎◌, inl, inr, ℤ, error,
  success, Ends, Bool-cases, leb, ltb, ltb→lt, true,
}
use sasha_jakob.Kernel.{Kernel, Hardware}
use sasha_jakob.Memory.{page_number, set_kernel_brk, move_brk, early_brk}
use sasha_jakob.Frames.Alloc.{InUse}
use sasha_jakob.Memory.Owned.{Owns}
use sasha_jakob.Memory.Shrink.{InvalidAt, shrink_loop-Shrinks}
use sasha_jakob.Memory.Grow.{MappedAt, grow_loop-Maps}

-- The break is at `addr`, and the pages between the old and the new one are mapped or given back.
abbrev pub Moved : Hardware → Kernel → (addr : ℕ) → Kernel → Type 0
Moved hw k addr k' =
    (k'.kernel_brk ≡ addr)
    × ((j : ℕ)
        → page_number hw k.kernel_brk ≤ j
        → j < page_number hw addr
        → MappedAt k'.region0_pt j)
    × ((j : ℕ)
        → page_number hw addr ≤ j
        → j < page_number hw k.kernel_brk
        → InvalidAt k'.region0_pt j)

-- The reasons for ERROR: the break's page is below the page of the address `data_page`, it reaches the kernel
-- stack, or the break goes up and no frame is left.
abbrev pub Refused : Hardware → Kernel → (data_page addr : ℕ) → Kernel → Type 0
Refused hw k data_page addr k' =
    (page_number hw addr < page_number hw data_page)
    ⊎ (hw.kernel_stack_page ≤ page_number hw addr)
    ⊎ ((page_number hw k.kernel_brk < page_number hw addr) × InUse k'.frame_bitmap 0 hw.num_vpn)

module _ (hw : Hardware) (k : Kernel) (addr : ℕ) (bits : hw.num_vpn ≤ length k.frame_bitmap)
    (fits : hw.kernel_stack_page ≤ length k.region0_pt)
    (below : page_number hw k.kernel_brk ≤ hw.kernel_stack_page)
    (owns : Owns k.frame_bitmap k.region0_pt) where
  move_brk-Moved :
      Ends (move_brk hw addr (page_number hw addr) (page_number hw k.kernel_brk) k) λ rc k'.
        Owns k'.frame_bitmap k'.region0_pt
        × (((rc ≡ success) × Moved hw k addr k')
            ⊎ ((rc ≡ error)
                × (k'.kernel_brk ≡ k.kernel_brk)
                × (page_number hw k.kernel_brk < page_number hw addr)
                × ((hw.kernel_stack_page < page_number hw addr)
                    ⊎ InUse k'.frame_bitmap 0 hw.num_vpn)))
  unfolding move_brk
  move_brk-Moved =
      let new = page_number hw addr in
      let old = page_number hw k.kernel_brk in
      elim (Bool-cases (ltb new old)) [
        | inl down ↦
            let (_, k', run, ((owns', _, _, _, gone), _)) =
              shrink_loop-Shrinks hw k (old - new) new bits
                (omega (arith, fits, below, ltb→lt new old down)) owns in
            (
              success,
              record k' { kernel_brk = addr },
              rw (down, run) refl,
              (
                owns',
                inl (
                  refl,
                  (
                    refl,
                    (λ j low high. absurd (omega (arith, low, high, ltb→lt new old down))),
                    λ j low high. gone j low (omega (arith, low, high, ltb→lt new old down)),
                  ),
                ),
              ),
            )
        | inr not_down ↦ elim (Bool-cases (ltb old new)) [
          | inl up ↦
              let (rc, k', run, ((owns', _, _, _, outcome), same)) =
                grow_loop-Maps hw k hw.kernel_stack_page (new - old) old bits fits owns in
              elim outcome [
                | inr (failed, why) ↦ (
                  error,
                  k',
                  rw (not_down, up, run, failed) refl,
                  (
                    owns',
                    inr (
                      refl,
                      same,
                      ltb→lt old new up,
                      elim why [
                        | inl high ↦ inl (omega (arith, high, ltb→lt old new up))
                        | inr full ↦ inr full
                      ],
                    ),
                  ),
                )
                | inl (good, there) ↦ (
                  success,
                  record k' { kernel_brk = addr },
                  rw (not_down, up, run, good) refl,
                  (
                    owns',
                    inl (
                      refl,
                      (
                        refl,
                        (λ j low high. there j low (omega (arith, low, high, ltb→lt old new up))),
                        λ j low high. absurd (omega (arith, low, high, ltb→lt old new up)),
                      ),
                    ),
                  ),
                )
              ]
          | inr not_up ↦
              let same : new ≡ old = ground (arith, not_down, not_up) in
              (
                success,
                record k { kernel_brk = addr },
                rw (not_down, not_up) refl,
                (
                  owns,
                  inl (
                    refl,
                    (
                      refl,
                      (λ j low high. absurd (omega (arith, low, high, same))),
                      λ j low high. absurd (omega (arith, low, high, same)),
                    ),
                  ),
                ),
              )
        ]
      ]

  -- With virtual memory on, SetKernelBrk ends, and the frames of the valid entries of region 0 stay
  -- marked and different from each other. Either it succeeds: then the page of the new break is not below
  -- the page of the address `data_page` and is below the kernel stack, `addr` is the break, and the pages
  -- between the old and the new one are mapped, or not valid any more. Or it returns ERROR, and the break
  -- stays: its page is out of these bounds, or the break was to go up and no frame is left.
  pub set_kernel_brk_lem :
      (data_page : ℕ)
      → k.vm_enabled ≡ true
      → Ends (set_kernel_brk hw data_page addr k) λ rc k'.
        Owns k'.frame_bitmap k'.region0_pt
        × (((rc ≡ success)
              × (page_number hw data_page ≤ page_number hw addr)
              × (page_number hw addr < hw.kernel_stack_page)
              × Moved hw k addr k')
            ⊎ ((rc ≡ error) × (k'.kernel_brk ≡ k.kernel_brk) × Refused hw k data_page addr k'))
  unfolding set_kernel_brk
  set_kernel_brk_lem data_page on =
      let new = page_number hw addr in
      elim (Bool-cases (ltb new (page_number hw data_page))) [
        | inl low ↦ (error, k, rw low refl, (owns, inr (refl, refl, inl (ground (arith, low)))))
        | inr low ↦ elim (Bool-cases (leb hw.kernel_stack_page new)) [
          | inl high ↦ (
            error,
            k,
            rw (low, high) refl,
            (owns, inr (refl, refl, inr (inl (ground (arith, high))))),
          )
          | inr high ↦
              let (rc, k', run, (owns', outcome)) = move_brk-Moved in
              (
                rc,
                k',
                rw (low, high)
                    (ap
                        (λ b.
                          (if b
                              then move_brk hw addr new (page_number hw k.kernel_brk)
                              else early_brk addr k.kernel_brk)
                            k)
                        on
                      ∙ run),
                (owns', in_bounds rc k' outcome (ground (arith, low)) (ground (arith, high))),
              )
        ]
      ]
    where
      in_bounds :
          (rc : ℤ) (k' : Kernel)
          → ((rc ≡ success) × Moved hw k addr k')
            ⊎ ((rc ≡ error)
                × (k'.kernel_brk ≡ k.kernel_brk)
                × (page_number hw k.kernel_brk < page_number hw addr)
                × ((hw.kernel_stack_page < page_number hw addr)
                    ⊎ InUse k'.frame_bitmap 0 hw.num_vpn))
          → page_number hw data_page ≤ page_number hw addr
          → page_number hw addr < hw.kernel_stack_page
          → ((rc ≡ success)
              × (page_number hw data_page ≤ page_number hw addr)
              × (page_number hw addr < hw.kernel_stack_page)
              × Moved hw k addr k')
            ⊎ ((rc ≡ error) × (k'.kernel_brk ≡ k.kernel_brk) × Refused hw k data_page addr k')
      in_bounds rc k' (inl (good, moved)) low high = inl (good, low, high, moved)
      in_bounds rc k' (inr (failed, same, up, inl reached)) low high =
          absurd (omega (arith, reached, high))
      in_bounds rc k' (inr (failed, same, up, inr full)) low high =
          inr (failed, same, inr (inr (up, full)))
