-- ===== src/Load/Protect.antt =====
-- load_program.c: the text pages are protected.
use mathlib.Core.Option.{some-injective}
use sasha_jakob.Base.{
  ℕ, zero, suc, ◌∷◌, ◌+◌, ◌≡◌, ◌≢◌, ◌<◌, ◌≤◌, refl, sym, ap, ◌∙◌, some, List, arith, length,
  length-set, set, get_elem?, get_elem?-some, get_elem?-set_self, get_elem?-set_ne, Ends, ==-refl,
  ==-ne, ℕ_discrete,
}
use sasha_jakob.Links.{put}
use sasha_jakob.Kernel.{Kernel, Hardware, Pcb, Pte, reg_tlb_flush}
use sasha_jakob.Memory.{read_exec, page_address}
use sasha_jakob.Load.{protect_loop}
use sasha_jakob.Load.Space.{InPages}

-- The `n` pages from `i` can be read and executed, and not written; the others are as they were.
pub record Protected (hw : Hardware) (i n : ℕ) (t t' : List Pte) : Type 0 where
  pub same_entries : length t' ≡ length t
  pub inside :
      (j : ℕ) (e : Pte)
      → InPages i n j
      → get_elem? t j ≡ some e
      → get_elem? t' j ≡ some (record e { prot = read_exec hw })
  pub outside : (j : ℕ) → (InPages i n j → ⊥) → get_elem? t' j ≡ get_elem? t j

Protected-step :
    (hw : Hardware) (i n : ℕ) (t t' : List Pte) (e : Pte)
    → get_elem? t i ≡ some e
    → i < length t
    → Protected hw (i + 1) n (set t i (record e { prot = read_exec hw })) t'
    → Protected hw i (suc n) t t'
Protected-step hw i n t t' e at fits m = record {
  same_entries = m.same_entries ∙ length-set t i _;
  inside = inside;
  outside = λ j none.
      m.outside j (λ (low, high). none (omega (arith, low), omega (arith, high)))
      ∙ get_elem?-set_ne t i j _ (λ eq. none (omega (arith, eq), omega (arith, eq)));
}
  where
    inside :
        (j : ℕ) (x : Pte)
        → InPages i (suc n) j
        → get_elem? t j ≡ some x
        → get_elem? t' j ≡ some (record x { prot = read_exec hw })
    inside j x (low, high) here = elim (ℕ_discrete i j) [
      | yes eq ↦
          let same : some e ≡ some x = sym at ∙ ap (get_elem? t) eq ∙ here in
          ap (get_elem? t') (sym eq)
          ∙ m.outside i (λ (above, _). omega (arith, above))
          ∙ get_elem?-set_self t i _ fits
          ∙ ap (λ (y : Pte). some (record y { prot = read_exec hw })) (some-injective _ _ same)
      | no ne ↦
          m.inside j x (omega (arith, low, ne), omega (arith, high))
            (get_elem?-set_ne t i j _ ne ∙ here)
    ]

-- The loop ends: the pages are protected, and nothing but the process and the writes of registers changes.
pub protect_loop_lem :
    (hw : Hardware) (k : Kernel) (p n i : ℕ) (v : Pcb)
    → k.pcbs p ≡ some v
    → i + n ≤ length v.region1_pt
    → Ends (protect_loop hw p n i k) λ _ k'.
      (t : List Pte) × (k'.pcbs p ≡ some (record v { region1_pt = t }))
      × Protected hw i n v.region1_pt t
      × ((x : ℕ) → x ≢ p → k'.pcbs x ≡ k.pcbs x)
      × (k' ≡ record k { pcbs = k'.pcbs; register_writes = k'.register_writes })
unfolding protect_loop
protect_loop_lem hw k p zero i v here fits = (
  tt,
  k,
  refl,
  (
    v.region1_pt,
    here,
    record {
      same_entries = refl;
      inside = λ j e (low, high) _. absurd (omega (arith, low, high));
      outside = λ j none. refl;
    },
    (λ x ne. refl),
    refl,
  ),
)
protect_loop_lem hw k p (suc n) i v here fits =
    let (e, at) = get_elem?-some v.region1_pt i (omega (arith, fits)) in
    let u = record v { region1_pt = set v.region1_pt i (record e { prot = read_exec hw }) } in
    let (r, k', run, (t, there, guarded, others, only)) =
      protect_loop_lem hw
        (record k {
          pcbs = put k.pcbs p u;
          register_writes = (reg_tlb_flush, hw.vmem_1_base + page_address hw i) ∷ k.register_writes;
        })
        p n (i + 1) u (rw (==-refl p) refl)
        (rw (length-set v.region1_pt i (record e { prot = read_exec hw })) (omega (arith, fits))) in
    (
      r,
      k',
      rw (here, at) run,
      (
        t,
        there,
        Protected-step hw i n v.region1_pt t e at (omega (arith, fits)) guarded,
        (λ x ne. others x ne ∙ rw (==-ne x p ne) refl),
        only,
      ),
    )
