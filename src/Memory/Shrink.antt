-- ===== src/Memory/Shrink.antt =====
-- memory.c: SetKernelBrk gives pages of the kernel's heap back.
use sasha_jakob.Base.{
  ℕ, zero, suc, ◌+◌, ◌<◌, ◌≤◌, ◌≡◌, ◌≢◌, refl, sym, ap, ◌∙◌, some, List, ◌∷◌, arith, get_elem?,
  get_elem?-some, get_elem?-set_self, get_elem?-set_ne, get_elem?-lt, set-same, length, length-set,
  set, ◌⊎◌, inl, inr, pos, Ends, ==-ne, ℕ_discrete, Bool-cases, ltb,
}
use sasha_jakob.Frames.{free_frame}
use sasha_jakob.Frames.Alloc.{free_frame_lem}
use sasha_jakob.Kernel.{Kernel, Hardware, Pte, reg_tlb_flush}
use sasha_jakob.Memory.{unmapped, page_address, shrink_loop}
use sasha_jakob.Memory.Owned.{Owns, Owns-unmap}

-- The entry is there and not valid.
abbrev pub InvalidAt : List Pte → ℕ → Type 0
InvalidAt table j = (e : Pte) × (get_elem? table j ≡ some e) × (e.valid ≡ 0)

-- The pages from `i` on are not valid any more, the others are what they were, and the frames stay owned.
abbrev pub Shrinks : Kernel → (left i : ℕ) → Kernel → Type 0
Shrinks k left i k' =
    Owns k'.frame_bitmap k'.region0_pt
    × (length k'.region0_pt ≡ length k.region0_pt)
    × (length k'.frame_bitmap ≡ length k.frame_bitmap)
    × ((j : ℕ) → (j < i) ⊎ (i + left ≤ j) → get_elem? k'.region0_pt j ≡ get_elem? k.region0_pt j)
    × ((j : ℕ) → i ≤ j → j < i + left → InvalidAt k'.region0_pt j)

-- After page `i`, the kernel is like this.
abbrev flushed : Hardware → Kernel → (i : ℕ) → Kernel
flushed hw k i = record k {
  register_writes = (reg_tlb_flush, page_address hw i) ∷ k.register_writes;
}

abbrev given_back : Kernel → (i : ℕ) → Pte → Kernel
given_back k i e = record k {
  frame_bitmap = set k.frame_bitmap e.pfn 0;
  region0_pt = set k.region0_pt i unmapped;
}

-- Page `i` is done, and the others follow.
Shrinks-step :
    (k k1 k' : Kernel) (left i : ℕ)
    → length k1.region0_pt ≡ length k.region0_pt
    → length k1.frame_bitmap ≡ length k.frame_bitmap
    → ((j : ℕ) → i ≢ j → get_elem? k1.region0_pt j ≡ get_elem? k.region0_pt j)
    → InvalidAt k1.region0_pt i
    → Shrinks k1 left (i + 1) k'
    → Shrinks k (suc left) i k'
Shrinks-step k k1 k' left i len bits others (e, at, off) (owns, len', bits', outside, inside) = (
  owns,
  len' ∙ len,
  bits' ∙ bits,
  (λ j away. outside j (further j away) ∙ others j (apart j away)),
  λ j low high. elim (ℕ_discrete i j) [
    | yes eq ↦ (e, ap (get_elem? k'.region0_pt) (sym eq) ∙ outside i (inl (omega arith)) ∙ at, off)
    | no ne ↦ inside j (omega (arith, low, ne)) (omega (arith, high))
  ],
)
  where
    further : (j : ℕ) → (j < i) ⊎ (i + suc left ≤ j) → (j < i + 1) ⊎ (i + 1 + left ≤ j)
    further j (inl h) = inl (omega (arith, h))
    further j (inr h) = inr (omega (arith, h))

    apart : (j : ℕ) → (j < i) ⊎ (i + suc left ≤ j) → i ≢ j
    apart j away = λ eq. omega (arith, away, eq)

-- The frame is marked free, and once more.
twice_free :
    (n : ℕ) (bits : List ℕ) (f : ℕ)
    → n ≤ length bits
    → get_elem? bits f ≡ some 1
    → (mid : List ℕ) × (v : ℕ) × (free_frame n (pos f) bits ≡ some (tt, mid))
      × (get_elem? mid f ≡ some v)
      × (set mid f 0 ≡ set bits f 0)
twice_free n bits f fits one = elim (Bool-cases (ltb f n)) [
  | inl small ↦
      let zero_at = get_elem?-set_self bits f 0 (get_elem?-lt bits f 1 one) in
      (
        set bits f 0,
        0,
        free_frame_lem n bits fits f ∙ rw small refl,
        zero_at,
        set-same (set bits f 0) f 0 zero_at,
      )
  | inr large ↦ (bits, 1, free_frame_lem n bits fits f ∙ rw large refl, one, refl)
]

-- Where the frames of the valid entries of region 0 are marked and no two are the same, the loop over
-- pages of the table ends as `Shrinks` says.
pub shrink_loop-Shrinks :
    (hw : Hardware) (k : Kernel) (left i : ℕ)
    → hw.num_vpn ≤ length k.frame_bitmap
    → i + left ≤ length k.region0_pt
    → Owns k.frame_bitmap k.region0_pt
    → Ends (shrink_loop hw left i k) λ _ k'. Shrinks k left i k' × (k'.kernel_brk ≡ k.kernel_brk)
unfolding shrink_loop
shrink_loop-Shrinks hw k zero i bits fits owns = (
  tt,
  k,
  refl,
  ((owns, refl, refl, (λ j away. refl), λ j low high. absurd (omega (arith, low, high))), refl),
)
shrink_loop-Shrinks hw k (suc left) i bits fits owns =
    let (e, at) = get_elem?-some k.region0_pt i (omega (arith, fits)) in
    elim (ℕ_discrete e.valid 0) [
      | yes off ↦
          let (_, k', run, (rest, same)) =
            shrink_loop-Shrinks hw (flushed hw k i) left (i + 1) bits (omega (arith, fits)) owns in
          (
            tt,
            k',
            rw (at, off) run,
            (
              Shrinks-step k (flushed hw k i) k' left i refl refl (λ j ne. refl) (e, at, off) rest,
              same,
            ),
          )
      | no on ↦
          let k1 = flushed hw (given_back k i e) i in
          let (mid, v, freed, there, twice) =
            twice_free hw.num_vpn k.frame_bitmap e.pfn bits (owns.marked i e at on) in
          let (_, k', run, (rest, same)) =
            shrink_loop-Shrinks hw k1 left (i + 1) (rw (length-set k.frame_bitmap e.pfn 0) bits)
              (rw (length-set k.region0_pt i unmapped) (omega (arith, fits)))
              (Owns-unmap k.frame_bitmap k.region0_pt owns i (omega (arith, fits)) e at on) in
          (
            tt,
            k',
            rw (at, ==-ne e.valid 0 on, freed, there, at, twice) run,
            (
              Shrinks-step k k1 k' left i (length-set k.region0_pt i unmapped)
                  (length-set k.frame_bitmap e.pfn 0)
                  (λ j ne. get_elem?-set_ne k.region0_pt i j unmapped ne)
                  (unmapped, get_elem?-set_self k.region0_pt i unmapped (omega (arith, fits)), refl)
                  rest,
              same,
            ),
          )
    ]
