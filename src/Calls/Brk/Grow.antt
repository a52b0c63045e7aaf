-- ===== src/Calls/Brk/Grow.antt =====
-- syscalls.c: SysBrk maps the pages up to the new break.
use mathlib.Core.Option.{some-injective}
use sasha_jakob.Base.{
  ℕ, zero, suc, ◌+◌, ◌<◌, ◌≤◌, ◌≡◌, ◌≢◌, refl, sym, ap, ◌∙◌, some, List, arith, get_elem?,
  get_elem?-some, get_elem?-set_self, get_elem?-set_ne, length, length-set, set, ◌⊎◌, inl, inr, ℤ,
  pos, error, Ends, ==-refl, ==-ne, ℕ_discrete,
}
use sasha_jakob.Links.{put}
use sasha_jakob.Frames.Alloc.{InUse, allocate_frame_lem}
use sasha_jakob.Kernel.{Kernel, Hardware, Pcb, Pte}
use sasha_jakob.Memory.{mapped, read_write}
use sasha_jakob.Memory.Owned.{Owns, Owns-map}
use sasha_jakob.Calls.Brk.{brk_grow}

-- The entry is there and valid.
abbrev pub ValidAt : List Pte → ℕ → Type 0
ValidAt table j = (e : Pte) × (get_elem? table j ≡ some e) × (e.valid ≢ 0)

-- The outcome of mapping the pages from `i`: every one of them is valid, or no frame is left and the result is ERROR. No page
-- outside changes, valid pages and other processes stay, and the frames stay owned.
abbrev pub Grows : Hardware → Kernel → Pcb → (left i : ℕ) → ℤ → Kernel → Type 0
Grows hw k v left i rc k' =
    (t : List Pte) × (k'.pcbs k.current_process ≡ some (record v { region1_pt = t }))
    × ((x : ℕ) → x ≢ k.current_process → k'.pcbs x ≡ k.pcbs x)
    × (k'.current_process ≡ k.current_process)
    × (length t ≡ length v.region1_pt)
    × Owns k'.frame_bitmap t
    × ((j : ℕ) → (j < i) ⊎ (i + left ≤ j) → get_elem? t j ≡ get_elem? v.region1_pt j)
    × ((j : ℕ) (e : Pte) → get_elem? v.region1_pt j ≡ some e → e.valid ≢ 0 → get_elem? t j ≡ some e)
    × (((rc ≡ pos 0) × ((j : ℕ) → i ≤ j → j < i + left → ValidAt t j))
        ⊎ ((rc ≡ error) × InUse k'.frame_bitmap 0 hw.num_vpn))

module _ (hw : Hardware) (k : Kernel) (v : Pcb) (left i : ℕ) (e : Pte)
    (here : get_elem? v.region1_pt i ≡ some e) where
  -- A page that is valid already.
  skip-Grows :
      (rc : ℤ) (k' : Kernel)
      → e.valid ≢ 0
      → Grows hw k v left (i + 1) rc k'
      → Grows hw k v (suc left) i rc k'
  skip-Grows rc k' valid (t, mine, others, current, len, owns, outside, kept, outcome) = (
    t,
    mine,
    others,
    current,
    len,
    owns,
    (λ j away. outside j (further j away)),
    kept,
    all outcome,
  )
    where
      further : (j : ℕ) → (j < i) ⊎ (i + suc left ≤ j) → (j < i + 1) ⊎ (i + 1 + left ≤ j)
      further j (inl h) = inl (omega (arith, h))
      further j (inr h) = inr (omega (arith, h))

      all :
          ((rc ≡ pos 0) × ((j : ℕ) → i + 1 ≤ j → j < i + 1 + left → ValidAt t j))
            ⊎ ((rc ≡ error) × InUse k'.frame_bitmap 0 hw.num_vpn)
          → ((rc ≡ pos 0) × ((j : ℕ) → i ≤ j → j < i + suc left → ValidAt t j))
            ⊎ ((rc ≡ error) × InUse k'.frame_bitmap 0 hw.num_vpn)
      all (inr failed) = inr failed
      all (inl (zero_rc, rest)) = inl (
        zero_rc,
        λ j low high. elim (ℕ_discrete j i) [
          | yes eq ↦ (e, ap (get_elem? t) eq ∙ kept i e here valid, valid)
          | no ne ↦ rest j (omega (arith, low, ne)) (omega (arith, high))
        ],
      )

-- The kernel when page `i` has the frame `f`.
abbrev one_more : Hardware → Kernel → Pcb → (i f : ℕ) → Kernel
one_more hw k v i f = record k {
  frame_bitmap = set k.frame_bitmap f 1;
  pcbs =
      put k.pcbs k.current_process
        (record v { region1_pt = set v.region1_pt i (mapped f (read_write hw)) });
}

abbrev with_entry : Pcb → ℕ → Pte → Pcb
with_entry v i e = record v { region1_pt = set v.region1_pt i e }

module _ (hw : Hardware) (k : Kernel) (v : Pcb) (left i f : ℕ) (e : Pte)
    (here : get_elem? v.region1_pt i ≡ some e) (fits : i < length v.region1_pt)
    (invalid : e.valid ≡ 0) where
  -- A page that is mapped now.
  map-Grows :
      (rc : ℤ) (k' : Kernel)
      → Grows hw
          (one_more hw k v i f)
          (with_entry v i (mapped f (read_write hw)))
          left
          (i + 1)
          rc
          k'
      → Grows hw k v (suc left) i rc k'
  map-Grows rc k' (t, mine, others, current, len, owns, outside, kept, outcome) = (
    t,
    mine,
    (λ x ne. others x ne ∙ rw (==-ne x k.current_process ne) refl),
    current,
    len ∙ length-set v.region1_pt i (mapped f (read_write hw)),
    owns,
    (λ j away.
        outside j (further j away)
        ∙ get_elem?-set_ne v.region1_pt i j (mapped f (read_write hw)) (apart j away)),
    (λ j e' at valid.
        let ne : i ≢ j = other j e' at valid in
        kept j e' (get_elem?-set_ne v.region1_pt i j (mapped f (read_write hw)) ne ∙ at) valid),
    all outcome,
  )
    where
      further : (j : ℕ) → (j < i) ⊎ (i + suc left ≤ j) → (j < i + 1) ⊎ (i + 1 + left ≤ j)
      further j (inl h) = inl (omega (arith, h))
      further j (inr h) = inr (omega (arith, h))

      apart : (j : ℕ) → (j < i) ⊎ (i + suc left ≤ j) → i ≢ j
      apart j away = λ eq. omega (arith, away, eq)

      other : (j : ℕ) (e' : Pte) → get_elem? v.region1_pt j ≡ some e' → e'.valid ≢ 0 → i ≢ j
      other j e' at valid eq =
          let same : some e ≡ some e' = sym here ∙ ap (get_elem? v.region1_pt) eq ∙ at in
          let both : e.valid ≡ e'.valid = ap (λ x. x.valid) (some-injective _ _ same) in
          valid (sym both ∙ invalid)

      now : ValidAt t i
      now = (
        mapped f (read_write hw),
        outside i (inl (omega arith))
            ∙ get_elem?-set_self v.region1_pt i (mapped f (read_write hw)) fits,
        omega arith,
      )

      all :
          ((rc ≡ pos 0) × ((j : ℕ) → i + 1 ≤ j → j < i + 1 + left → ValidAt t j))
            ⊎ ((rc ≡ error) × InUse k'.frame_bitmap 0 hw.num_vpn)
          → ((rc ≡ pos 0) × ((j : ℕ) → i ≤ j → j < i + suc left → ValidAt t j))
            ⊎ ((rc ≡ error) × InUse k'.frame_bitmap 0 hw.num_vpn)
      all (inr failed) = inr failed
      all (inl (zero_rc, rest)) = inl (
        zero_rc,
        λ j low high. elim (ℕ_discrete i j) [
          | yes eq ↦ (now.0, ap (get_elem? t) (sym eq) ∙ now.1, now.2)
          | no ne ↦ rest j (omega (arith, low, ne)) (omega (arith, high))
        ],
      )

-- No frame is left.
unmoved :
    (hw : Hardware) (k : Kernel) (v : Pcb) (left i : ℕ)
    → k.pcbs k.current_process ≡ some v
    → Owns k.frame_bitmap v.region1_pt
    → InUse k.frame_bitmap 0 hw.num_vpn
    → Grows hw k v left i error k
unmoved hw k v left i here owns full = (
  v.region1_pt,
  here,
  (λ x ne. refl),
  refl,
  refl,
  owns,
  (λ j away. refl),
  (λ j e at valid. at),
  inr (refl, full),
)

-- Where the frames of the table's valid entries are marked and no two of them are the same, and the
-- pages are in the table, the loop ends as `Grows` says.
pub brk_grow-Grows :
    (hw : Hardware) (k : Kernel) (v : Pcb) (left i : ℕ)
    → k.pcbs k.current_process ≡ some v
    → hw.num_vpn ≤ length k.frame_bitmap
    → i + left ≤ length v.region1_pt
    → Owns k.frame_bitmap v.region1_pt
    → Ends (brk_grow hw left i k) (Grows hw k v left i)
unfolding brk_grow
brk_grow-Grows hw k v zero i here bits fits owns = (
  pos 0,
  k,
  refl,
  (
    v.region1_pt,
    here,
    (λ x ne. refl),
    refl,
    refl,
    owns,
    (λ j away. refl),
    (λ j e at valid. at),
    inl (refl, λ j low high. absurd (omega (arith, low, high))),
  ),
)
brk_grow-Grows hw k v (suc left) i here bits fits owns =
    let (e, at) = get_elem?-some v.region1_pt i (omega (arith, fits)) in
    elim (ℕ_discrete e.valid 0) [
      | no valid ↦
          let (rc, k', run, rest) =
            brk_grow-Grows hw k v left (i + 1) here bits (omega (arith, fits)) owns in
          (
            rc,
            k',
            rw (here, at, ==-ne e.valid 0 valid) run,
            skip-Grows hw k v left i e at rc k' valid rest,
          )
      | yes invalid ↦
          let (r, after, run, outcome) = allocate_frame_lem hw.num_vpn k.frame_bitmap bits in
          elim outcome [
            | inl (f, is, small, free, same, _) ↦
                let w = mapped f (read_write hw) in
                let (rc, k', run', rest) =
                  brk_grow-Grows hw (one_more hw k v i f) (with_entry v i w) left (i + 1)
                    (rw (==-refl k.current_process) refl) (rw (length-set k.frame_bitmap f 1) bits)
                    (rw (length-set v.region1_pt i w) (omega (arith, fits)))
                    (Owns-map k.frame_bitmap v.region1_pt owns i (omega (arith, fits)) f
                      (read_write hw) free) in
                (
                  rc,
                  k',
                  rw (here, at, invalid, run, is, same, here, at) run',
                  map-Grows hw k v left i f e at (omega (arith, fits)) invalid rc k' rest,
                )
            | inr (is, same, full) ↦ (
              error,
              k,
              rw (here, at, invalid, run, is, same) refl,
              unmoved hw k v (suc left) i here owns full,
            )
          ]
    ]
