-- ===== src/Process/Exit/Freed.antt =====
-- pcb.c: the frames that free_userspace gives back.
use mathlib.Core.Option.{some-injective}
use sasha_jakob.Base.{
  ℕ, zero, suc, ◌+◌, ◌<◌, ◌≤◌, ◌≡◌, ◌≢◌, refl, sym, ap, ◌∙◌, some, List, arith, get_elem?,
  get_elem?-some, get_elem?-set_self, get_elem?-set_ne, get_elem?-lt, length, length-set, set, Ends,
  ◌==◌, ==-ne, ℕ_discrete, ltb, if◌then◌else◌,
}
use sasha_jakob.Links.{null}
use sasha_jakob.Frames.Alloc.{free_frame_lem}
use sasha_jakob.Kernel.{Kernel, Hardware, Pcb, Pte}
use sasha_jakob.Process.Exit.{userspace_loop, free_userspace}

-- A valid entry among the `left` ones from `i`.
abbrev pub ValidIn : Pcb → (left i j : ℕ) → Pte → Type 0
ValidIn v left i j e =
    (i ≤ j) × (j < i + left) × (get_elem? v.region1_pt j ≡ some e) × (e.valid ≢ 0)

-- The frame of every valid entry is free, every other frame is as it was, and nothing else has changed:
-- the entries are still valid.
abbrev pub Frees : Hardware → Kernel → Pcb → (left i : ℕ) → Kernel → Type 0
Frees hw k v left i k' =
    (k' ≡ record k { frame_bitmap = k'.frame_bitmap })
    × (length k'.frame_bitmap ≡ length k.frame_bitmap)
    × ((j : ℕ) (e : Pte)
        → ValidIn v left i j e
        → e.pfn < hw.num_vpn
        → get_elem? k'.frame_bitmap e.pfn ≡ some 0)
    × ((g : ℕ)
        → ((j : ℕ) (e : Pte) → ValidIn v left i j e → e.pfn ≢ g)
        → get_elem? k'.frame_bitmap g ≡ get_elem? k.frame_bitmap g)
    × ((g : ℕ) → get_elem? k.frame_bitmap g ≡ some 0 → get_elem? k'.frame_bitmap g ≡ some 0)

-- The bitmap when the frame of an entry has been given back, if it is valid.
abbrev without : Hardware → List ℕ → Pte → List ℕ
without hw bits e =
    if e.valid == 0 then bits else if ltb e.pfn hw.num_vpn then set bits e.pfn 0 else bits

module _ (hw : Hardware) (bits : List ℕ) (e : Pte) (room : hw.num_vpn ≤ length bits) where
  length-without : length (without hw bits e) ≡ length bits
  length-without = ground (arith, length-set bits e.pfn 0)

  without-free : e.valid ≢ 0 → e.pfn < hw.num_vpn → get_elem? (without hw bits e) e.pfn ≡ some 0
  without-free valid small =
      ground
        (arith, ==-ne e.valid 0 valid, get_elem?-set_self bits e.pfn 0 (omega (arith, small, room)))

  without-other :
      (g : ℕ) → (e.valid ≢ 0 → e.pfn ≢ g) → get_elem? (without hw bits e) g ≡ get_elem? bits g
  without-other g ne = elim (ℕ_discrete e.valid 0) [
    | yes z ↦ ground (arith, z)
    | no valid ↦ ground (arith, ==-ne e.valid 0 valid, get_elem?-set_ne bits e.pfn g 0 (ne valid))
  ]

  without-still : (g : ℕ) → get_elem? bits g ≡ some 0 → get_elem? (without hw bits e) g ≡ some 0
  without-still g free = elim (ℕ_discrete e.pfn g) [
    | yes eq ↦
        let here : get_elem? bits e.pfn ≡ some 0 = ap (get_elem? bits) eq ∙ free in
        ground (arith, eq, free, get_elem?-set_self bits e.pfn 0 (get_elem?-lt bits e.pfn 0 here))
    | no ne ↦ without-other g (λ _. ne) ∙ free
  ]

-- The kernel when entry `e` has been gone through.
abbrev gone_through : Hardware → Kernel → Pte → Kernel
gone_through hw k e = record k { frame_bitmap = without hw k.frame_bitmap e }

entry_step :
    (hw : Hardware) (k : Kernel) (p left i : ℕ) (v : Pcb) (e : Pte)
    → k.pcbs p ≡ some v
    → hw.num_vpn ≤ length k.frame_bitmap
    → get_elem? v.region1_pt i ≡ some e
    → userspace_loop hw p (suc left) i k ≡ userspace_loop hw p left (i + 1) (gone_through hw k e)
unfolding userspace_loop
entry_step hw k p left i v e here bits at = elim (ℕ_discrete e.valid 0) [
  | yes z ↦ rw (here, at, z) refl
  | no valid ↦
      rw (here, at, ==-ne e.valid 0 valid, free_frame_lem hw.num_vpn k.frame_bitmap bits e.pfn) refl
]

module _ (hw : Hardware) (k k' : Kernel) (v : Pcb) (left i : ℕ) (e : Pte)
    (at : get_elem? v.region1_pt i ≡ some e) (bits : hw.num_vpn ≤ length k.frame_bitmap) where
  Frees-step : Frees hw (gone_through hw k e) v left (i + 1) k' → Frees hw k v (suc left) i k'
  Frees-step (same, len, freed, others, still) = (
    same,
    len ∙ length-without hw k.frame_bitmap e bits,
    (λ j e' (low, high, here, valid) small. elim (ℕ_discrete i j) [
      | yes eq ↦
          let is : e ≡ e' = some-injective _ _ (sym at ∙ ap (get_elem? v.region1_pt) eq ∙ here) in
          still e'.pfn (
            ap (get_elem? (without hw k.frame_bitmap e)) (ap (λ x. x.pfn) (sym is))
            ∙ without-free hw k.frame_bitmap e bits (λ z. valid (ap (λ x. x.valid) (sym is) ∙ z))
                (rw (is) small))
      | no ne ↦ freed j e' (omega (arith, low, ne), omega (arith, high), here, valid) small
    ]),
    (λ g none.
        others g (λ j e' (low, high, here, valid).
          none j e' (omega (arith, low), omega (arith, high), here, valid))
        ∙ without-other hw k.frame_bitmap e bits g
            (λ valid. none i e (omega arith, omega arith, at, valid))),
    (λ g free. still g (without-still hw k.frame_bitmap e bits g free)),
  )

userspace_loop-Frees :
    (hw : Hardware) (k : Kernel) (p left i : ℕ) (v : Pcb)
    → k.pcbs p ≡ some v
    → hw.num_vpn ≤ length k.frame_bitmap
    → i + left ≤ length v.region1_pt
    → Ends (userspace_loop hw p left i k) λ _ k'. Frees hw k v left i k'
unfolding userspace_loop
userspace_loop-Frees hw k p zero i v here bits fits = (
  tt,
  k,
  refl,
  (
    refl,
    refl,
    (λ j e (low, high, _, _) small. absurd (omega (arith, low, high))),
    (λ g none. refl),
    (λ g free. free),
  ),
)
userspace_loop-Frees hw k p (suc left) i v here bits fits =
    let (e, at) = get_elem?-some v.region1_pt i (omega (arith, fits)) in
    let (r, k', run, rest) =
      userspace_loop-Frees hw (gone_through hw k e) p left (i + 1) v here
        (rw (length-without hw k.frame_bitmap e bits) bits) (omega (arith, fits)) in
    (
      r,
      k',
      entry_step hw k p left i v e here bits at ∙ run,
      Frees-step hw k k' v left i e at bits rest,
    )

-- Where the process has a table of at least MAX_PT_LEN entries, free_userspace ends. The frame of every
-- valid entry below MAX_PT_LEN is free then, if there is such a frame. Every other frame is as it was, and
-- nothing but the frames' bitmap has changed: the entries are still valid.
pub free_userspace_lem :
    (hw : Hardware) (k : Kernel) (p : ℕ) (v : Pcb)
    → p ≢ null
    → k.pcbs p ≡ some v
    → hw.num_vpn ≤ length k.frame_bitmap
    → hw.max_pt_len ≤ length v.region1_pt
    → Ends (free_userspace hw p k) λ _ k'. Frees hw k v hw.max_pt_len 0 k' × (k'.pcbs p ≡ some v)
unfolding free_userspace
free_userspace_lem hw k p v there here bits fits =
    let (r, k', run, frees) =
      userspace_loop-Frees hw k p hw.max_pt_len 0 v here bits (omega (arith, fits)) in
    let (same, _, _, _, _) = frees in
    (r, k', rw (==-ne p null there) run, (frees, ap (λ (x : Kernel). x.pcbs p) same ∙ here))
