-- ===== src/Load/Space.antt =====
-- load_program.c: the pages that a set of sections has, and two sets of sections one after the other.
use mathlib.Core.Option.{some-injective}
use sasha_jakob.Base.{
  ℕ, ◌≡◌, ◌≢◌, ◌<◌, ◌≤◌, sym, ap, ◌∙◌, some, List, arith, get_elem?, length, ◌⊎◌, inl, inr, refl,
  ltb, Bool-cases, ◌+◌, ℤ, error, success,
}
use sasha_jakob.Frames.Alloc.{InUse}
use sasha_jakob.Kernel.{Kernel, Hardware, Pcb, Pte}
use sasha_jakob.Memory.{mapped, read_write}
use sasha_jakob.Load.Sections.{Fresh, Section}

-- From the bitmap `bits` and the table `t` to `bits'` and `t'`: each page of `In` has a frame of its own that
-- was free and is in use now. The other pages are as they were, and no frame is given back.
pub record Given (hw : Hardware) (bits : List ℕ) (t : List Pte) (bits' : List ℕ) (t' : List Pte)
    (In : ℕ → Type 0) : Type 0 where
  pub same_entries : length t' ≡ length t
  pub same_bits : length bits' ≡ length bits
  pub outside : (j : ℕ) → (In j → ⊥) → get_elem? t' j ≡ get_elem? t j
  pub marks : (g : ℕ) → get_elem? bits g ≡ some 1 → get_elem? bits' g ≡ some 1
  pub unmarks : (g : ℕ) → get_elem? bits' g ≡ some 0 → get_elem? bits g ≡ some 0
  pub fresh : (j : ℕ) → In j → (f : ℕ) × Fresh hw bits bits' t' j f
  pub apart :
      (j l f : ℕ)
      → In j
      → In l
      → j ≢ l
      → get_elem? t' j ≡ some (mapped f (read_write hw))
      → get_elem? t' l ≢ some (mapped f (read_write hw))

module _ (hw : Hardware) (b b1 b2 : List ℕ) (t t1 t2 : List Pte) (A B : ℕ → Type 0)
    (first : Given hw b t b1 t1 A) (next : Given hw b1 t1 b2 t2 B)
    (disjoint : (j : ℕ) → A j → B j → ⊥) where
  -- A page of the first set has a frame that is in use when the second set is mapped.
  taken :
      (j f : ℕ) → A j → get_elem? t2 j ≡ some (mapped f (read_write hw)) → get_elem? b1 f ≡ some 1
  taken j f a here =
      let (g, (at, _, used)) = first.fresh j a in
      let kept = next.outside j (disjoint j a) in
      let same : g ≡ f = ap (λ (e : Pte). e.pfn) (some-injective _ _ (sym at ∙ sym kept ∙ here)) in
      ap (get_elem? b1) (sym same) ∙ used

  -- A page of the second set has a frame that is still free then.
  not_taken :
      (j f : ℕ) → B j → get_elem? t2 j ≡ some (mapped f (read_write hw)) → get_elem? b1 f ≡ some 0
  not_taken j f a here =
      let (g, (at, free, _)) = next.fresh j a in
      let same : g ≡ f = ap (λ (e : Pte). e.pfn) (some-injective _ _ (sym at ∙ here)) in
      ap (get_elem? b1) (sym same) ∙ free

  differ : (f : ℕ) → get_elem? b1 f ≡ some 1 → get_elem? b1 f ≡ some 0 → ⊥
  differ f one zero_there =
      let both : 1 ≡ 0 = some-injective _ _ (sym one ∙ zero_there) in omega (arith, both)

  pub Given-join : Given hw b t b2 t2 (λ j. A j ⊎ B j)
  Given-join = record {
    same_entries = next.same_entries ∙ first.same_entries;
    same_bits = next.same_bits ∙ first.same_bits;
    outside = λ j none. next.outside j (λ x. none (inr x)) ∙ first.outside j (λ x. none (inl x));
    marks = λ g one. next.marks g (first.marks g one);
    unmarks = λ g free. first.unmarks g (next.unmarks g free);
    fresh = fresh;
    apart = apart;
  }
    where
      fresh : (j : ℕ) → A j ⊎ B j → (f : ℕ) × Fresh hw b b2 t2 j f
      fresh j (inl x) =
          let (f, (at, free, used)) = first.fresh j x in
          (f, (next.outside j (disjoint j x) ∙ at, free, next.marks f used))
      fresh j (inr x) =
          let (f, (at, free, used)) = next.fresh j x in (f, (at, first.unmarks f free, used))

      apart :
          (j l f : ℕ)
          → A j ⊎ B j
          → A l ⊎ B l
          → j ≢ l
          → get_elem? t2 j ≡ some (mapped f (read_write hw))
          → get_elem? t2 l ≢ some (mapped f (read_write hw))
      apart j l f (inl x) (inl y) ne at there =
          first.apart j l f x y ne (sym (next.outside j (disjoint j x)) ∙ at)
            (sym (next.outside l (disjoint l y)) ∙ there)
      apart j l f (inl x) (inr y) ne at there = differ f (taken j f x at) (not_taken l f y there)
      apart j l f (inr x) (inl y) ne at there = differ f (taken l f y there) (not_taken j f x at)
      apart j l f (inr x) (inr y) ne at there = next.apart j l f x y ne at there

-- No page has been given yet.
pub Given-none : (hw : Hardware) (bits : List ℕ) (t : List Pte) → Given hw bits t bits t (λ _. ⊥)
Given-none hw bits t = record {
  same_entries = refl;
  same_bits = refl;
  outside = λ j none. refl;
  marks = λ g one. one;
  unmarks = λ g free. free;
  fresh = λ j x. absurd x;
  apart = λ j l f x. absurd x;
}

-- Two ways to say which pages are given.
pub Given-same :
    (hw : Hardware) (b b' : List ℕ) (t t' : List Pte) (A B : ℕ → Type 0)
    → ((j : ℕ) → A j → B j)
    → ((j : ℕ) → B j → A j)
    → Given hw b t b' t' A
    → Given hw b t b' t' B
Given-same hw b b' t t' A B to from g = record {
  same_entries = g.same_entries;
  same_bits = g.same_bits;
  outside = λ j none. g.outside j (λ x. none (to j x));
  marks = g.marks;
  unmarks = g.unmarks;
  fresh = λ j x. g.fresh j (from j x);
  apart = λ j l f x y. g.apart j l f (from j x) (from l y);
}

-- One of the `n` pages from `i`.
abbrev pub InPages : (i n j : ℕ) → Type 0
InPages i n j = (i ≤ j) × (j < i + n)

outside_of : (i n j : ℕ) → (InPages i n j → ⊥) → (j < i) ⊎ (i + n ≤ j)
outside_of i n j none = elim (Bool-cases (ltb j i)) [
  | inl before ↦ inl (ground (arith, before))
  | inr after ↦ elim (Bool-cases (ltb j (i + n))) [
    | inl inside ↦ absurd (none (ground (arith, after), ground (arith, inside)))
    | inr beyond ↦ inr (ground (arith, beyond))
  ]
]

-- A section that has been mapped.
pub Section-Given :
    (hw : Hardware) (k k' : Kernel) (p : ℕ) (v : Pcb) (n i : ℕ) (rc : ℤ)
    → Section hw k p v n i rc k'
    → ((rc ≡ success)
        × (t : List Pte) × (k'.pcbs p ≡ some (record v { region1_pt = t }))
        × Given hw k.frame_bitmap v.region1_pt k'.frame_bitmap t (InPages i n))
      ⊎ ((rc ≡ error) × InUse k'.frame_bitmap 0 hw.num_vpn)
Section-Given hw k k' p v n i rc (t, mine, _, _, len, bits, outside, marks, unmarks, outcome) =
    elim outcome [
      | inr failed ↦ inr failed
      | inl (good, fresh, apart) ↦ inl (
        good,
        t,
        mine,
        record {
          same_entries = len;
          same_bits = bits;
          outside = λ j none. outside j (outside_of i n j none);
          marks = marks;
          unmarks = unmarks;
          fresh = λ j (low, high). fresh j low high;
          apart = λ j l f (low, high) (low', high') ne at there. elim (Bool-cases (ltb j l)) [
            | inl less ↦ apart j l f low (ground (arith, less)) high' at there
            | inr more ↦ apart l j f low' (ground (arith, more, ne)) high there at
          ];
        },
      )
    ]
