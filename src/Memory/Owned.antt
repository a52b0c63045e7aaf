-- ===== src/Memory/Owned.antt =====
-- memory.c, syscalls.c: a page table and the frames' bitmap. The frames of the valid entries are marked as
-- in use, and no two valid entries share one.
use sasha_jakob.Base.{
  ℕ, ◌<◌, ◌≡◌, ◌≢◌, sym, ap, ◌∙◌, some, List, arith, get_elem?, get_elem?-set_self,
  get_elem?-set_ne, get_elem?-lt, length, set, ℕ_discrete,
}
use mathlib.Core.Option.{some-injective}
use sasha_jakob.Kernel.{Pte}
use sasha_jakob.Memory.{mapped, unmapped}

pub record Owns (bits : List ℕ) (table : List Pte) : Type 0 where
  pub marked :
      (i : ℕ) (e : Pte) → get_elem? table i ≡ some e → e.valid ≢ 0 → get_elem? bits e.pfn ≡ some 1
  pub apart :
      (i j : ℕ) (e e' : Pte)
      → i ≢ j
      → get_elem? table i ≡ some e
      → get_elem? table j ≡ some e'
      → e.valid ≢ 0
      → e'.valid ≢ 0
      → e.pfn ≢ e'.pfn

-- An entry after a write to the table.
module _ (table : List Pte) (i : ℕ) (w : Pte) where
  written : (e : Pte) → get_elem? (set table i w) i ≡ some e → i < length table → e ≡ w
  written e at fits = some-injective _ _ (sym at ∙ get_elem?-set_self table i w fits)

  kept_entry :
      (j : ℕ) (e : Pte) → get_elem? (set table i w) j ≡ some e → i ≢ j → get_elem? table j ≡ some e
  kept_entry j e at ne = sym (get_elem?-set_ne table i j w ne) ∙ at

module _ (bits : List ℕ) (table : List Pte) (owns : Owns bits table) (i : ℕ)
    (fits : i < length table) where
  -- A frame that was free is mapped.
  module _ (f prot : ℕ) (free : get_elem? bits f ≡ some 0) where
    -- No entry had the frame.
    fresh : (j : ℕ) (e : Pte) → get_elem? table j ≡ some e → e.valid ≢ 0 → e.pfn ≢ f
    fresh j e at valid same =
        let one : some 1 ≡ some 0 =
          sym (owns.marked j e at valid) ∙ ap (get_elem? bits) same ∙ free in
        absurd (omega (arith, some-injective _ _ one))

    pub Owns-map : Owns (set bits f 1) (set table i (mapped f prot))
    Owns-map = record {
      marked = λ j e at valid. elim (ℕ_discrete i j) [
        | yes eq ↦
            let same : e ≡ mapped f prot =
              written table i (mapped f prot) e
                (ap (get_elem? (set table i (mapped f prot))) eq ∙ at) fits in
            rw same (get_elem?-set_self bits f 1 (get_elem?-lt bits f 0 free))
        | no ne ↦
            let old = kept_entry table i (mapped f prot) j e at ne in
            get_elem?-set_ne bits f e.pfn 1 (λ eq. fresh j e old valid (sym eq))
            ∙ owns.marked j e old valid
      ];
      apart = λ j l e e' ne at at' valid valid'. elim (ℕ_discrete i j) [
        | yes eq ↦
            let il : i ≢ l = λ eq'. ne (sym eq ∙ eq') in
            let same : e ≡ mapped f prot =
              written table i (mapped f prot) e
                (ap (get_elem? (set table i (mapped f prot))) eq ∙ at) fits in
            λ both.
              fresh l e' (kept_entry table i (mapped f prot) l e' at' il) valid'
                (sym both ∙ ap (λ x. x.pfn) same)
        | no ij ↦
            let old = kept_entry table i (mapped f prot) j e at ij in
            elim (ℕ_discrete i l) [
              | yes eq ↦
                  let same : e' ≡ mapped f prot =
                    written table i (mapped f prot) e'
                      (ap (get_elem? (set table i (mapped f prot))) eq ∙ at') fits in
                  λ both. fresh j e old valid (both ∙ ap (λ x. x.pfn) same)
              | no il ↦
                  owns.apart j l e e' ne old (kept_entry table i (mapped f prot) l e' at' il) valid
                    valid'
            ]
      ];
    }

  -- The frame of a valid entry is given back, and the entry cleared.
  pub Owns-unmap :
      (e : Pte)
      → get_elem? table i ≡ some e
      → e.valid ≢ 0
      → Owns (set bits e.pfn 0) (set table i unmapped)
  Owns-unmap e here valid = record {
    marked = λ j e' at valid'.
        let ne = cleared j e' at valid' in
        let old = kept_entry table i unmapped j e' at ne in
        get_elem?-set_ne bits e.pfn e'.pfn 0 (owns.apart i j e e' ne here old valid valid')
        ∙ owns.marked j e' old valid';
    apart = λ j l a b ne at at' va vb.
        owns.apart j l a b ne (kept_entry table i unmapped j a at (cleared j a at va))
          (kept_entry table i unmapped l b at' (cleared l b at' vb)) va vb;
  }
    where
      cleared :
          (j : ℕ) (e' : Pte) → get_elem? (set table i unmapped) j ≡ some e' → e'.valid ≢ 0 → i ≢ j
      cleared j e' at valid' eq =
          let same : e' ≡ unmapped =
            written table i unmapped e' (ap (get_elem? (set table i unmapped)) eq ∙ at) fits in
          valid' (ap (λ x. x.valid) same)
