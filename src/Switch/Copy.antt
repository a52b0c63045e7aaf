-- ===== src/Switch/Copy.antt =====
-- context_switch.c: CopyPageTable gives a child its own copy of the parent's memory.
use mathlib.Core.Option.{some-injective}
use sasha_jakob.Base.{
  ℕ, zero, suc, ◌+◌, ◌<◌, ◌≤◌, ◌≡◌, ◌≢◌, refl, sym, ap, ◌∙◌, some, List, arith, get_elem?,
  get_elem?-some, get_elem?-set_self, get_elem?-set_ne, get_elem?-lt, length, length-set, set, Ends,
  ==-refl, ==-ne, ℕ_discrete,
}
use sasha_jakob.Frames.Count.{free_count, free_count-set}
use sasha_jakob.Kernel.{Kernel, Machine, Pcb, Pte}
use sasha_jakob.Memory.{mapped}
use sasha_jakob.Memory.Owned.{Owns, Owns-map}
use sasha_jakob.Switch.{copy_loop, copy_one, copy_page_table}
use sasha_jakob.Switch.CopyOne.{Copying, page_copied, copy_one-run}

-- A valid page of the parent has a copy in a frame that was free: with its protection and its contents.
abbrev pub CopyAt : Kernel → Kernel → List Pte → (i : ℕ) → Pte → Type 0
CopyAt k k' table i e =
    (f : ℕ) × (get_elem? table i ≡ some (mapped f e.prot))
    × (get_elem? k.frame_bitmap f ≡ some 0)
    × (k'.pages f ≡ k.pages e.pfn)

-- The pages from `i` on are copied: the child has the table `t`, its frames are marked and its own, and
-- the frames that were in use before hold what they held.
abbrev pub Copied : Kernel → (parent child : ℕ) → (u w : Pcb) → (left i : ℕ) → Kernel → Type 0
Copied k parent child u w left i k' =
    (t : List Pte) × (k'.pcbs child ≡ some (record w { region1_pt = t }))
    × (k'.pcbs parent ≡ some u)
    × Owns k'.frame_bitmap t
    × ((g : ℕ)
        → get_elem? k.frame_bitmap g ≡ some 1
        → (k'.pages g ≡ k.pages g) × (get_elem? k'.frame_bitmap g ≡ some 1))
    × ((j : ℕ) → j < i → get_elem? t j ≡ get_elem? w.region1_pt j)
    × ((j : ℕ) (e : Pte)
        → i ≤ j
        → j < i + left
        → get_elem? u.region1_pt j ≡ some e
        → e.valid ≡ 1
        → CopyAt k k' t j e)

-- The state between two pages.
pub record Ready (m : Machine) (k : Kernel) (parent child : ℕ) (u w : Pcb) (left i : ℕ)
    : Type 0 where
  pub copying : Copying m k parent child u w
  pub room : left ≤ free_count k.frame_bitmap m.hw.num_vpn
  pub parent_fits : i + left ≤ length u.region1_pt
  pub child_fits : i + left ≤ length w.region1_pt
  pub parent_owns : Owns k.frame_bitmap u.region1_pt
  pub child_owns : Owns k.frame_bitmap w.region1_pt

-- The PCB of the child when page `i` has the frame `f`.
abbrev with_copy : Pcb → (i f prot : ℕ) → Pcb
with_copy w i f prot = record w { region1_pt = set w.region1_pt i (mapped f prot) }

still_marked :
    (bits : List ℕ) (f g : ℕ)
    → get_elem? bits f ≡ some 0
    → get_elem? bits g ≡ some 1
    → get_elem? (set bits f 1) g ≡ some 1
still_marked bits f g free one = elim (ℕ_discrete f g) [
  | yes eq ↦
      ap (get_elem? (set bits f 1)) (sym eq)
      ∙ get_elem?-set_self bits f 1 (get_elem?-lt bits f 0 free)
  | no ne ↦ get_elem?-set_ne bits f g 1 ne ∙ one
]

differs : (bits : List ℕ) (f g : ℕ) → get_elem? bits f ≡ some 0 → get_elem? bits g ≡ some 1 → g ≢ f
differs bits f g free one eq =
    omega (arith, some-injective _ _ (sym one ∙ ap (get_elem? bits) eq ∙ free))

Owns-other :
    (bits : List ℕ) (table : List Pte) (f : ℕ)
    → get_elem? bits f ≡ some 0
    → Owns bits table
    → Owns (set bits f 1) table
Owns-other bits table f free owns = record {
  marked = λ i e at valid. still_marked bits f e.pfn free (owns.marked i e at valid);
  apart = owns.apart;
}

Copying-next :
    (m : Machine) (k : Kernel) (parent child : ℕ) (u w : Pcb) (i f g prot : ℕ) (r0 : List Pte)
    → Copying m k parent child u w
    → length r0 ≡ length k.region0_pt
    → Copying m (page_copied m k child w i f g prot r0) parent child u (with_copy w i f prot)
Copying-next m k parent child u w i f g prot r0 c len = record {
  law = c.law;
  runs = c.runs;
  here = rw (==-ne parent child (λ eq. c.apart (sym eq))) c.here;
  there = rw (==-refl child) refl;
  apart = c.apart;
  low = c.low;
  fits = rw len c.fits;
  bits = rw (length-set k.frame_bitmap f 1) c.bits;
}

-- A page that is not valid is passed over.
skip-Copied :
    (k k' : Kernel) (parent child : ℕ) (u w : Pcb) (left i : ℕ) (e : Pte)
    → get_elem? u.region1_pt i ≡ some e
    → e.valid ≢ 1
    → Copied k parent child u w left (i + 1) k'
    → Copied k parent child u w (suc left) i k'
skip-Copied k k' parent child u w left i e at off (t, mine, par, owns, frames, before, after) = (
  t,
  mine,
  par,
  owns,
  frames,
  (λ j low. before j (omega (arith, low))),
  λ j d low high there on. elim (ℕ_discrete j i) [
    | yes eq ↦
        let same : e ≡ d =
          some-injective _ _ (sym at ∙ ap (get_elem? u.region1_pt) (sym eq) ∙ there) in
        absurd (off (ap (λ x. x.valid) same ∙ on))
    | no ne ↦ after j d (omega (arith, low, ne)) (omega (arith, high)) there on
  ],
)

module _ (m : Machine) (k k' : Kernel) (parent child : ℕ) (u w : Pcb) (left i f : ℕ) (e : Pte)
    (r0 : List Pte) (at : get_elem? u.region1_pt i ≡ some e) (fits : i < length w.region1_pt)
    (free : get_elem? k.frame_bitmap f ≡ some 0) (owned : Owns k.frame_bitmap u.region1_pt) where
  abbrev k1 : Kernel
  k1 = page_copied m k child w i f e.pfn e.prot r0

  now_marked : get_elem? (set k.frame_bitmap f 1) f ≡ some 1
  now_marked = get_elem?-set_self k.frame_bitmap f 1 (get_elem?-lt k.frame_bitmap f 0 free)

  -- The copies behind page `i`, seen from the state before it.
  later :
      (t : List Pte) (j : ℕ) (d : Pte)
      → get_elem? u.region1_pt j ≡ some d
      → d.valid ≡ 1
      → CopyAt k1 k' t j d
      → CopyAt k k' t j d
  later t j d there on (f', entry, free', same) =
      let ne : f ≢ f' = λ eq. differs (set k.frame_bitmap f 1) f' f free' now_marked eq in
      let old : d.pfn ≢ f =
        differs k.frame_bitmap f d.pfn free (owned.marked j d there (λ z. omega (arith, on, z))) in
      (
        f',
        entry,
        sym (get_elem?-set_ne k.frame_bitmap f f' 1 ne) ∙ free',
        same ∙ rw (==-ne d.pfn f old) refl,
      )

  copy-Copied :
      Copied k1 parent child u (with_copy w i f e.prot) left (i + 1) k'
      → Copied k parent child u w (suc left) i k'
  copy-Copied (t, mine, par, owns, frames, before, after) = (
    t,
    mine,
    par,
    owns,
    (λ g one.
        let (same, stays) = frames g (still_marked k.frame_bitmap f g free one) in
        (same ∙ rw (==-ne g f (differs k.frame_bitmap f g free one)) refl, stays)),
    (λ j low.
        before j (omega (arith, low))
        ∙ get_elem?-set_ne w.region1_pt i j (mapped f e.prot) (λ eq. omega (arith, low, eq))),
    λ j d low high there on. elim (ℕ_discrete j i) [
      | yes eq ↦
          let same : e ≡ d =
            some-injective _ _ (sym at ∙ ap (get_elem? u.region1_pt) (sym eq) ∙ there) in
          let entry : get_elem? t i ≡ some (mapped f e.prot) =
            before i (omega arith) ∙ get_elem?-set_self w.region1_pt i (mapped f e.prot) fits in
          (
            f,
            ap (get_elem? t) eq ∙ entry ∙ ap (λ x. some (mapped f x.prot)) same,
            free,
            (frames f now_marked).0 ∙ rw (==-refl f) (ap (λ x. k.pages x.pfn) same),
          )
      | no ne ↦
          later t j d there on (after j d (omega (arith, low, ne)) (omega (arith, high)) there on)
    ],
  )

passed_over :
    (m : Machine) (width : ℕ) (k : Kernel) (parent child : ℕ) (u : Pcb) (i : ℕ) (e : Pte)
    → k.pcbs parent ≡ some u
    → get_elem? u.region1_pt i ≡ some e
    → e.valid ≢ 1
    → copy_one m width parent child i k ≡ some (tt, k)
unfolding copy_one
passed_over m width k parent child u i e here at off = rw (here, at, ==-ne e.valid 1 off) refl

copy_loop-Copied :
    (m : Machine) (width : ℕ) (k : Kernel) (parent child : ℕ) (u w : Pcb) (left i : ℕ)
    → Ready m k parent child u w left i
    → Ends (copy_loop m width parent child left i k) λ _ k'. Copied k parent child u w left i k'
unfolding copy_loop
copy_loop-Copied m width k parent child u w zero i r = (
  tt,
  k,
  refl,
  (
    w.region1_pt,
    r.copying.there,
    r.copying.here,
    r.child_owns,
    (λ g one. (refl, one)),
    (λ j low. refl),
    λ j e low high. absurd (omega (arith, low, high)),
  ),
)
copy_loop-Copied m width k parent child u w (suc left) i r =
    let (e, at) = get_elem?-some u.region1_pt i (omega (arith, r.parent_fits)) in
    let (e', at') = get_elem?-some w.region1_pt i (omega (arith, r.child_fits)) in
    elim (ℕ_discrete e.valid 1) [
      | no off ↦
          let (_, k', run, rest) =
            copy_loop-Copied m width k parent child u w left (i + 1) (record {
              copying = r.copying;
              room = omega (arith, r.room);
              parent_fits = omega (arith, r.parent_fits);
              child_fits = omega (arith, r.child_fits);
              parent_owns = r.parent_owns;
              child_owns = r.child_owns;
            }) in
          (
            tt,
            k',
            rw (passed_over m width k parent child u i e r.copying.here at off) run,
            skip-Copied k k' parent child u w left i e at off rest,
          )
      | yes on ↦
          let (f, r0, small, free, len, once) =
            copy_one-run m width k parent child u w i e e' r.copying at at' on
              (omega (arith, r.room)) in
          let k1 = page_copied m k child w i f e.pfn e.prot r0 in
          let inside = get_elem?-lt w.region1_pt i e' at' in
          let (_, k', run, rest) =
            copy_loop-Copied m width k1 parent child u (with_copy w i f e.prot) left (i + 1)
              (record {
                copying = Copying-next m k parent child u w i f e.pfn e.prot r0 r.copying len;
                room =
                    omega (arith, r.room, free_count-set k.frame_bitmap m.hw.num_vpn f small free);
                parent_fits = omega (arith, r.parent_fits);
                child_fits =
                    rw (length-set w.region1_pt i (mapped f e.prot)) (omega (arith, r.child_fits));
                parent_owns = Owns-other k.frame_bitmap u.region1_pt f free r.parent_owns;
                child_owns =
                    Owns-map k.frame_bitmap w.region1_pt r.child_owns i inside f e.prot free;
              }) in
          (
            tt,
            k',
            rw once run,
            copy-Copied m k k' parent child u w left i f e r0 at inside free r.parent_owns rest,
          )
    ]

-- Where the running parent and another process have tables with an entry for each page of region 1, each
-- with marked frames of its own, and there are at least as many free frames as pages of region 1,
-- CopyPageTable ends: every valid page of the parent is in the child's table with its protection and
-- in a frame that was free, which holds what the parent's frame held. The parent's PCB and the frames
-- in use before are unchanged, and the child's frames are marked and its own.
pub copy_page_table_lem :
    (m : Machine) (width : ℕ) (k : Kernel) (parent child : ℕ) (u w : Pcb)
    → Ready m k parent child u w m.hw.region1_pages 0
    → Ends
        (copy_page_table m width parent child k)
        λ _ k'. Copied k parent child u w m.hw.region1_pages 0 k'
unfolding copy_page_table
copy_page_table_lem m width k parent child u w r =
    copy_loop-Copied m width k parent child u w m.hw.region1_pages 0 r
