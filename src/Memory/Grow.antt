-- ===== src/Memory/Grow.antt =====
-- memory.c: SetKernelBrk maps pages for the kernel's heap.
use sasha_jakob.Base.{
  ℕ, zero, suc, ◌+◌, ◌<◌, ◌≤◌, ◌≡◌, ◌≢◌, refl, sym, ap, ◌∙◌, some, List, ◌∷◌, arith, get_elem?,
  get_elem?-some, get_elem?-set_self, get_elem?-set_ne, get_elem?-lt, set-same, length, length-set,
  set, ◌⊎◌, inl, inr, ℤ, error, success, Ends, ℕ_discrete, leb, Bool-cases,
}
use sasha_jakob.Frames.Alloc.{InUse, allocate_frame_lem}
use sasha_jakob.Kernel.{Kernel, Hardware, Pte, reg_tlb_flush}
use sasha_jakob.Memory.{mapped, read_write, page_address, grow_loop}
use sasha_jakob.Memory.Owned.{Owns, Owns-map}

-- The entry is there and valid.
abbrev pub MappedAt : List Pte → ℕ → Type 0
MappedAt table j = (e : Pte) × (get_elem? table j ≡ some e) × (e.valid ≡ 1)

-- The pages from `i` on are mapped, or the loop stops with ERROR, since it comes to `top` or no frame is
-- left; the others are what they were, and the
-- frames stay owned.
abbrev pub Maps : Hardware → (top : ℕ) → Kernel → (left i : ℕ) → ℤ → Kernel → Type 0
Maps hw top k left i rc k' =
    Owns k'.frame_bitmap k'.region0_pt
    × (length k'.region0_pt ≡ length k.region0_pt)
    × (length k'.frame_bitmap ≡ length k.frame_bitmap)
    × ((j : ℕ) → (j < i) ⊎ (i + left ≤ j) → get_elem? k'.region0_pt j ≡ get_elem? k.region0_pt j)
    × (((rc ≡ success) × ((j : ℕ) → i ≤ j → j < i + left → MappedAt k'.region0_pt j))
        ⊎ ((rc ≡ error) × ((top < i + left) ⊎ InUse k'.frame_bitmap 0 hw.num_vpn)))

-- Page `i` has the frame `f`.
abbrev page_mapped : Hardware → Kernel → (i f : ℕ) → Kernel
page_mapped hw k i f = record k {
  frame_bitmap = set k.frame_bitmap f 1;
  region0_pt = set k.region0_pt i (mapped f (read_write hw));
  register_writes = (reg_tlb_flush, page_address hw i) ∷ k.register_writes;
}

Maps-step :
    (hw : Hardware) (top : ℕ) (k k' : Kernel) (left i f : ℕ) (rc : ℤ)
    → i < length k.region0_pt
    → Maps hw top (page_mapped hw k i f) left (i + 1) rc k'
    → Maps hw top k (suc left) i rc k'
Maps-step hw top k k' left i f rc fits (owns, len, bits, outside, outcome) = (
  owns,
  len ∙ length-set k.region0_pt i w,
  bits ∙ length-set k.frame_bitmap f 1,
  (λ j away. outside j (further j away) ∙ get_elem?-set_ne k.region0_pt i j w (apart j away)),
  all outcome,
)
  where
    w : Pte
    w = mapped f (read_write hw)

    further : (j : ℕ) → (j < i) ⊎ (i + suc left ≤ j) → (j < i + 1) ⊎ (i + 1 + left ≤ j)
    further j (inl h) = inl (omega (arith, h))
    further j (inr h) = inr (omega (arith, h))

    apart : (j : ℕ) → (j < i) ⊎ (i + suc left ≤ j) → i ≢ j
    apart j away = λ eq. omega (arith, away, eq)

    all :
        ((rc ≡ success) × ((j : ℕ) → i + 1 ≤ j → j < i + 1 + left → MappedAt k'.region0_pt j))
          ⊎ ((rc ≡ error) × ((top < i + 1 + left) ⊎ InUse k'.frame_bitmap 0 hw.num_vpn))
        → ((rc ≡ success) × ((j : ℕ) → i ≤ j → j < i + suc left → MappedAt k'.region0_pt j))
          ⊎ ((rc ≡ error) × ((top < i + suc left) ⊎ InUse k'.frame_bitmap 0 hw.num_vpn))
    all (inr (failed, inl high)) = inr (failed, inl (omega (arith, high)))
    all (inr (failed, inr full)) = inr (failed, inr full)
    all (inl (good, rest)) = inl (
      good,
      λ j low high. elim (ℕ_discrete i j) [
        | yes eq ↦ (
          w,
          ap (get_elem? k'.region0_pt) (sym eq)
              ∙ outside i (inl (omega arith))
              ∙ get_elem?-set_self k.region0_pt i w fits,
          refl,
        )
        | no ne ↦ rest j (omega (arith, low, ne)) (omega (arith, high))
      ],
    )

-- The loop stops, and nothing has changed.
stopped :
    (hw : Hardware) (top : ℕ) (k : Kernel) (left i : ℕ)
    → Owns k.frame_bitmap k.region0_pt
    → (top < i + left) ⊎ InUse k.frame_bitmap 0 hw.num_vpn
    → Maps hw top k left i error k
stopped hw top k left i owns why = (owns, refl, refl, (λ j away. refl), inr (refl, why))

-- Where the frames of the valid entries of region 0 are marked and no two are the same, the loop ends as
-- `Maps` says.
pub grow_loop-Maps :
    (hw : Hardware) (k : Kernel) (top left i : ℕ)
    → hw.num_vpn ≤ length k.frame_bitmap
    → top ≤ length k.region0_pt
    → Owns k.frame_bitmap k.region0_pt
    → Ends
        (grow_loop hw top left i k)
        λ rc k'. Maps hw top k left i rc k' × (k'.kernel_brk ≡ k.kernel_brk)
unfolding grow_loop
grow_loop-Maps hw k top zero i bits fits owns = (
  success,
  k,
  refl,
  (
    (
      owns,
      refl,
      refl,
      (λ j away. refl),
      inl (refl, λ j low high. absurd (omega (arith, low, high))),
    ),
    refl,
  ),
)
grow_loop-Maps hw k top (suc left) i bits fits owns = elim (Bool-cases (leb top i)) [
  | inl high ↦ (
    error,
    k,
    rw high refl,
    (stopped hw top k (suc left) i owns (inl (ground (arith, high))), refl),
  )
  | inr low ↦
      let here : i < length k.region0_pt = ground (arith, low, fits) in
      let (r, after, run, outcome) = allocate_frame_lem hw.num_vpn k.frame_bitmap bits in
      elim outcome [
        | inr (is, same, full) ↦ (
          error,
          k,
          rw (low, run, is, same) refl,
          (stopped hw top k (suc left) i owns (inr full), refl),
        )
        | inl (f, is, small, free, same, _) ↦
            let (e, at) = get_elem?-some k.region0_pt i here in
            let one =
              get_elem?-set_self k.frame_bitmap f 1 (get_elem?-lt k.frame_bitmap f 0 free) in
            let w = mapped f (read_write hw) in
            let (rc, k', run', (rest, kept)) =
              grow_loop-Maps hw (page_mapped hw k i f) top left (i + 1)
                (rw (length-set k.frame_bitmap f 1) bits) (rw (length-set k.region0_pt i w) fits)
                (Owns-map k.frame_bitmap k.region0_pt owns i here f (read_write hw) free) in
            (
              rc,
              k',
              rw (low, run, is, same, one, set-same (set k.frame_bitmap f 1) f 1 one, at) run',
              (Maps-step hw top k k' left i f rc here rest, kept),
            )
      ]
]
