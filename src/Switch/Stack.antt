-- ===== src/Switch/Stack.antt =====
-- context_switch.c: the kernel stack of a process, mapped into region 0.
use sasha_jakob.Base.{
  ℕ, zero, suc, ◌+◌, ◌<◌, ◌≤◌, ◌≡◌, ◌≢◌, refl, some, List, arith, get_elem?, get_elem?-some,
  get_elem?-set_self, get_elem?-set_ne, length, length-set, set, ◌⊎◌, inl, inr, ◌∙◌, sym, success,
  ℕ_discrete, ap,
}
use sasha_jakob.Kernel.{Kernel, Hardware, Pte}
use sasha_jakob.Switch.{stack_copy, map_kernel_stack}

-- `left` entries of a table, from `j`, are in another one from `page`; its other entries are those of `old`.
pub record Maps (old table new : List Pte) (left j page : ℕ) : Type 0 where
  pub same_length : length new ≡ length old
  pub inside :
      (i i' : ℕ)
      → page ≤ i
      → i < page + left
      → i + j ≡ i' + page
      → get_elem? new i ≡ get_elem? table i'
  pub outside : (i : ℕ) → (i < page) ⊎ (page + left ≤ i) → get_elem? new i ≡ get_elem? old i

Maps-step :
    (old table new : List Pte) (e : Pte) (left j page : ℕ)
    → get_elem? table j ≡ some e
    → page < length old
    → Maps (set old page e) table new left (j + 1) (page + 1)
    → Maps old table new (suc left) j page
Maps-step old table new e left j page here fits rest = record {
  same_length = rest.same_length ∙ length-set old page e;
  inside = λ i i' low high at. elim (ℕ_discrete i page) [
    | yes eq ↦
        let eq' : i' ≡ j = omega (arith, eq, at) in
        rest.outside i (inl (omega (arith, eq)))
        ∙ ap (get_elem? (set old page e)) eq
        ∙ get_elem?-set_self old page e fits
        ∙ sym here
        ∙ ap (get_elem? table) (sym eq')
    | no ne ↦ rest.inside i i' (omega (arith, low, ne)) (omega (arith, high)) (omega (arith, at))
  ];
  outside = λ i away.
      let ne : page ≢ i = λ e'. omega (arith, away, e') in
      rest.outside i (further i away) ∙ get_elem?-set_ne old page i e ne;
}
  where
    further : (i : ℕ) → (i < page) ⊎ (page + suc left ≤ i) → (i < page + 1) ⊎ (page + 1 + left ≤ i)
    further i (inl h) = inl (omega (arith, h))
    further i (inr h) = inr (omega (arith, h))

pub stack_copy-Maps :
    (k : Kernel) (table : List Pte) (left j page : ℕ)
    → j + left ≤ length table
    → page + left ≤ length k.region0_pt
    → (new : List Pte) × (stack_copy table left j page k ≡ some (tt, record k { region0_pt = new }))
      × Maps k.region0_pt table new left j page
unfolding stack_copy
stack_copy-Maps k table zero j page room fits = (
  k.region0_pt,
  refl,
  record {
    same_length = refl;
    inside = λ i i' low high at. absurd (omega (arith, low, high));
    outside = λ i away. refl;
  },
)
stack_copy-Maps k table (suc left) j page room fits =
    let (e, here) = get_elem?-some table j (omega (arith, room)) in
    let (old, there) = get_elem?-some k.region0_pt page (omega (arith, fits)) in
    let (new, run, maps) =
      stack_copy-Maps (record k { region0_pt = set k.region0_pt page e }) table left (j + 1)
        (page + 1) (omega (arith, room))
        (rw (length-set k.region0_pt page e) (omega (arith, fits))) in
    (
      new,
      rw (here, there) run,
      Maps-step k.region0_pt table new e left j page here (omega (arith, fits)) maps,
    )

-- Where the table of a kernel stack has an entry for each page of the stack, and region 0 has room for
-- the stack, map_kernel_stack succeeds: each page of the stack has the table's entry then, every other
-- entry of region 0 is what it was, and nothing else changes.
pub map_kernel_stack_lem :
    (hw : Hardware) (k : Kernel) (table : List Pte)
    → hw.kernel_stack_pages ≤ length table
    → hw.kernel_stack_page + hw.kernel_stack_pages ≤ length k.region0_pt
    → (new : List Pte) × (map_kernel_stack hw table k
        ≡ some (success, record k { region0_pt = new }))
      × Maps k.region0_pt table new hw.kernel_stack_pages 0 hw.kernel_stack_page
unfolding map_kernel_stack
map_kernel_stack_lem hw k table room fits =
    let (new, run, maps) =
      stack_copy-Maps k table hw.kernel_stack_pages 0 hw.kernel_stack_page (omega (arith, room))
        fits in
    (new, rw run refl, maps)
