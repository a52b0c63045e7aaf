-- ===== src/Load/Sections.antt =====
-- load_program.c: the pages of a program's text, data and stack.
use mathlib.Core.Option.{some-injective}
use sasha_jakob.Base.{
  ℕ, zero, suc, ◌+◌, ◌<◌, ◌≤◌, ◌≡◌, ◌≢◌, refl, sym, ap, ◌∙◌, some, List, arith, get_elem?,
  get_elem?-some, get_elem?-set_self, get_elem?-set_ne, get_elem?-lt, length, length-set, set, ◌⊎◌,
  inl, inr, ℤ, error, success, Ends, ==-refl, ==-ne, ℕ_discrete,
}
use sasha_jakob.Links.{put}
use sasha_jakob.Frames.Alloc.{InUse, allocate_frame_lem}
use sasha_jakob.Kernel.{Kernel, Hardware, Pcb, Pte}
use sasha_jakob.Memory.{mapped, read_write}
use sasha_jakob.Load.{section_loop}

-- Page `j` can be read and written, and its frame was free and is in use now.
abbrev pub Fresh : Hardware → (before after : List ℕ) → List Pte → (j f : ℕ) → Type 0
Fresh hw before after t j f =
    (get_elem? t j ≡ some (mapped f (read_write hw)))
    × (get_elem? before f ≡ some 0)
    × (get_elem? after f ≡ some 1)

-- The `left` pages from `i` have frames of their own that were free, or the result is ERROR and no frame
-- is left. No other page of the process changes, no other process does, and no frame is given back.
abbrev pub Section : Hardware → Kernel → (process : ℕ) → Pcb → (left i : ℕ) → ℤ → Kernel → Type 0
Section hw k p v left i rc k' =
    (t : List Pte) × (k'.pcbs p ≡ some (record v { region1_pt = t }))
    × (k' ≡ record k { frame_bitmap = k'.frame_bitmap; pcbs = k'.pcbs })
    × ((x : ℕ) → x ≢ p → k'.pcbs x ≡ k.pcbs x)
    × (length t ≡ length v.region1_pt)
    × (length k'.frame_bitmap ≡ length k.frame_bitmap)
    × ((j : ℕ) → (j < i) ⊎ (i + left ≤ j) → get_elem? t j ≡ get_elem? v.region1_pt j)
    × ((g : ℕ) → get_elem? k.frame_bitmap g ≡ some 1 → get_elem? k'.frame_bitmap g ≡ some 1)
    × ((g : ℕ) → get_elem? k'.frame_bitmap g ≡ some 0 → get_elem? k.frame_bitmap g ≡ some 0)
    × (((rc ≡ success)
          × ((j : ℕ)
              → i ≤ j
              → j < i + left
              → (f : ℕ) × Fresh hw k.frame_bitmap k'.frame_bitmap t j f)
          × ((j l f : ℕ)
              → i ≤ j
              → j < l
              → l < i + left
              → get_elem? t j ≡ some (mapped f (read_write hw))
              → get_elem? t l ≢ some (mapped f (read_write hw))))
        ⊎ ((rc ≡ error) × InUse k'.frame_bitmap 0 hw.num_vpn))

-- The kernel when page `i` of process `p` has the frame `f`.
abbrev page_given : Hardware → Kernel → (p i f : ℕ) → Pcb → Kernel
page_given hw k p i f v = record k {
  frame_bitmap = set k.frame_bitmap f 1;
  pcbs = put k.pcbs p (record v { region1_pt = set v.region1_pt i (mapped f (read_write hw)) });
}

module _ (hw : Hardware) (k k' : Kernel) (p : ℕ) (v : Pcb) (left i f : ℕ)
    (free : get_elem? k.frame_bitmap f ≡ some 0) (fits : i < length v.region1_pt) where
  was_free : (g : ℕ) → get_elem? (set k.frame_bitmap f 1) g ≡ some 0 → g ≢ f
  was_free g zero_there e =
      let one : get_elem? (set k.frame_bitmap f 1) g ≡ some 1 =
        ap (get_elem? (set k.frame_bitmap f 1)) e
        ∙ get_elem?-set_self k.frame_bitmap f 1 (get_elem?-lt k.frame_bitmap f 0 free) in
      let both : 0 ≡ 1 = some-injective _ _ (sym zero_there ∙ one) in omega (arith, both)

  same_frame : (a b : ℕ) → some (mapped a (read_write hw)) ≡ some (mapped b (read_write hw)) → a ≡ b
  same_frame a b e = ap (λ x. x.pfn) (some-injective _ _ e)

  further : (j : ℕ) → (j < i) ⊎ (i + suc left ≤ j) → (j < i + 1) ⊎ (i + 1 + left ≤ j)
  further j (inl h) = inl (omega (arith, h))
  further j (inr h) = inr (omega (arith, h))

  away_from : (j : ℕ) → (j < i) ⊎ (i + suc left ≤ j) → i ≢ j
  away_from j away = λ eq. omega (arith, away, eq)

  marked_still :
      (g : ℕ) → get_elem? k.frame_bitmap g ≡ some 1 → get_elem? (set k.frame_bitmap f 1) g ≡ some 1
  marked_still g one = elim (ℕ_discrete f g) [
    | yes e ↦
        ap (get_elem? (set k.frame_bitmap f 1)) (sym e)
        ∙ get_elem?-set_self k.frame_bitmap f 1 (get_elem?-lt k.frame_bitmap f 0 free)
    | no ne ↦ get_elem?-set_ne k.frame_bitmap f g 1 ne ∙ one
  ]

  unmarked :
      (g : ℕ) → get_elem? (set k.frame_bitmap f 1) g ≡ some 0 → get_elem? k.frame_bitmap g ≡ some 0
  unmarked g none =
      sym (get_elem?-set_ne k.frame_bitmap f g 1 (λ e. was_free g none (sym e))) ∙ none

  Section-step :
      (rc : ℤ)
      → Section hw
          (page_given hw k p i f v)
          p
          (record v { region1_pt = set v.region1_pt i (mapped f (read_write hw)) })
          left
          (i + 1)
          rc
          k'
      → Section hw k p v (suc left) i rc k'
  Section-step rc (t, mine, only, others, len, bits, outside, marks, unmarks, outcome) =
      let w = mapped f (read_write hw) in
      let first : get_elem? t i ≡ some w =
        outside i (inl (omega arith)) ∙ get_elem?-set_self v.region1_pt i w fits in
      let used : get_elem? k'.frame_bitmap f ≡ some 1 =
        marks f (get_elem?-set_self k.frame_bitmap f 1 (get_elem?-lt k.frame_bitmap f 0 free)) in
      (
        t,
        mine,
        only,
        (λ x ne. others x ne ∙ rw (==-ne x p ne) refl),
        len ∙ length-set v.region1_pt i w,
        bits ∙ length-set k.frame_bitmap f 1,
        (λ j away.
            outside j (further j away) ∙ get_elem?-set_ne v.region1_pt i j w (away_from j away)),
        (λ g one. marks g (marked_still g one)),
        (λ g free. unmarked g (unmarks g free)),
        elim outcome [
          | inr failed ↦ inr failed
          | inl (good, fresh, apart) ↦ inl (
            good,
            (λ j low high. elim (ℕ_discrete j i) [
              | yes e ↦ (f, (ap (get_elem? t) e ∙ first, free, used))
              | no ne ↦
                  let (g, (at, was, is)) = fresh j (omega (arith, low, ne)) (omega (arith, high)) in
                  (
                    g,
                    (
                      at,
                      sym (get_elem?-set_ne k.frame_bitmap f g 1 (λ e. was_free g was (sym e)))
                          ∙ was,
                      is,
                    ),
                  )
            ]),
            (λ j l g low lt high at there. elim (ℕ_discrete j i) [
              | yes e ↦
                  let (g', (at', was, _)) =
                    fresh l (omega (arith, low, lt)) (omega (arith, high)) in
                  let is_f : g ≡ f = same_frame g f (sym at ∙ ap (get_elem? t) e ∙ first) in
                  let is_g : g' ≡ g = same_frame g' g (sym at' ∙ there) in
                  was_free g' was (is_g ∙ is_f)
              | no ne ↦ apart j l g (omega (arith, low, ne)) lt (omega (arith, high)) at there
            ]),
          )
        ],
      )

-- Where the process has a table with an entry for each page of a section, the loop that maps the section
-- ends. Either it succeeds, and each page of the section has a frame of its own that was free and is in
-- use now, which the process can read and write; or it returns ERROR, and no frame is left. No other page
-- of the process changes, no other process does, and every frame in use before still is.
pub section_loop_lem :
    (hw : Hardware) (k : Kernel) (p left i : ℕ) (v : Pcb)
    → k.pcbs p ≡ some v
    → hw.num_vpn ≤ length k.frame_bitmap
    → i + left ≤ length v.region1_pt
    → Ends (section_loop hw p left i k) λ rc k'. Section hw k p v left i rc k'
unfolding section_loop
section_loop_lem hw k p zero i v here bits fits = (
  success,
  k,
  refl,
  (
    v.region1_pt,
    here,
    refl,
    (λ x ne. refl),
    refl,
    refl,
    (λ j away. refl),
    (λ g one. one),
    (λ g free. free),
    inl (
      refl,
      (λ j low high. absurd (omega (arith, low, high))),
      (λ j l f low lt high at there. omega (arith, low, lt, high)),
    ),
  ),
)
section_loop_lem hw k p (suc left) i v here bits fits =
    let (r, after, run, outcome) = allocate_frame_lem hw.num_vpn k.frame_bitmap bits in
    elim outcome [
      | inr (is, same, full) ↦ (
        error,
        k,
        rw (run, is, same) refl,
        (
          v.region1_pt,
          here,
          refl,
          (λ x ne. refl),
          refl,
          refl,
          (λ j away. refl),
          (λ g one. one),
          (λ g free. free),
          inr (refl, full),
        ),
      )
      | inl (f, is, small, free, same, _) ↦
          let w = mapped f (read_write hw) in
          let (e, at) = get_elem?-some v.region1_pt i (omega (arith, fits)) in
          let (rc, k', run', rest) =
            section_loop_lem hw (page_given hw k p i f v) p left (i + 1)
              (record v { region1_pt = set v.region1_pt i w }) (rw (==-refl p) refl)
              (rw (length-set k.frame_bitmap f 1) bits)
              (rw (length-set v.region1_pt i w) (omega (arith, fits))) in
          (
            rc,
            k',
            rw (run, is, same, here, at) run',
            Section-step hw k k' p v left i f free (omega (arith, fits)) rc rest,
          )
    ]
