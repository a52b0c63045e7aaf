-- ===== src/Switch/CopyOne.antt =====
-- context_switch.c: CopyPageTable copies one page.
use sasha_jakob.Base.{
  ℕ, zero, suc, ◌+◌, ◌-◌, ◌<◌, ◌≤◌, ◌≡◌, ◌≢◌, refl, sym, ap, ◌∙◌, some, List, [], ◌∷◌, arith,
  get_elem?, get_elem?-some, get_elem?-set_self, get_elem?-lt, length, length-set, set, inl, inr,
  ==-refl, ==-ne, ltb, true, false, ◌==◌, if◌then◌else◌,
}
use sasha_jakob.Links.{put, put-put}
use sasha_jakob.Frames.Alloc.{allocate_frame_lem}
use sasha_jakob.Frames.Count.{free_count, free_count-InUse}
use sasha_jakob.Kernel.{Kernel, Machine, Copies, Pcb, Pte, reg_tlb_flush, frame_of, with_page}
use sasha_jakob.Memory.{mapped, read_write, page_address}
use sasha_jakob.Switch.{temp_page, copy_one, setup_temp_mapping, remove_temp_mapping}

set-set : (xs : List Pte) (i : ℕ) (v w : Pte) → set (set xs i v) i w ≡ set xs i w
set-set [] i v w = refl
set-set (x ∷ xs) zero v w = refl
set-set (x ∷ xs) (suc i) v w = ap (◌∷◌ x) (set-set xs i v w)

-- What holds of the machine and of the two processes while the pages are copied.
pub record Copying (m : Machine) (k : Kernel) (parent child : ℕ) (u w : Pcb) : Type 0 where
  pub law : Copies m
  pub runs : k.current_process ≡ parent
  pub here : k.pcbs parent ≡ some u
  pub there : k.pcbs child ≡ some w
  pub apart : child ≢ parent
  pub low : temp_page m.hw < m.hw.region1_pages
  pub fits : temp_page m.hw < length k.region0_pt
  pub bits : m.hw.num_vpn ≤ length k.frame_bitmap

-- The kernel when page `i` of the child has the frame `f`, with the contents of the frame `g`; `r0` is the
-- table of region 0.
abbrev pub page_copied : Machine → Kernel → (child : ℕ) → Pcb → (i f g prot : ℕ) → List Pte → Kernel
page_copied m k child w i f g prot r0 = record k {
  frame_bitmap = set k.frame_bitmap f 1;
  region0_pt = r0;
  pcbs = put k.pcbs child (record w { region1_pt = set w.region1_pt i (mapped f prot) });
  pages = λ x. if x == f then k.pages g else k.pages x;
  register_writes = (reg_tlb_flush, page_address m.hw (temp_page m.hw)) ∷ k.register_writes;
}

module _ (m : Machine) (k : Kernel) (parent child : ℕ) (u w : Pcb)
    (c : Copying m k parent child u w) (i : ℕ) (e e' : Pte) (at : get_elem? u.region1_pt i ≡ some e)
    (at' : get_elem? w.region1_pt i ≡ some e') (valid : e.valid ≡ 1) (f : ℕ) where
  -- The temporary entry, and the kernel while it is there.
  abbrev scratch : Pte → Pte
  scratch e0 = record e0 { valid = 1; pfn = f; prot = read_write m.hw }

  abbrev while_mapped : Pte → Kernel
  while_mapped e0 = record k {
    frame_bitmap = set k.frame_bitmap f 1;
    pcbs = put k.pcbs child (record w { region1_pt = set w.region1_pt i (record e' { pfn = f }) });
    region0_pt = set k.region0_pt (temp_page m.hw) (scratch e0);
    register_writes = (reg_tlb_flush, page_address m.hw (temp_page m.hw)) ∷ k.register_writes;
  }

  dest_frame : (e0 : Pte) → frame_of m.hw (while_mapped e0) (temp_page m.hw) ≡ some f
  dest_frame e0 =
      let low : ltb (temp_page m.hw) m.hw.region1_pages ≡ true = ground (arith, c.low) in
      rw (low, get_elem?-set_self k.region0_pt (temp_page m.hw) (scratch e0) c.fits) refl

  source_frame : (e0 : Pte) → frame_of m.hw (while_mapped e0) (i + m.hw.region1_pages) ≡ some e.pfn
  source_frame e0 =
      let high : ltb (i + m.hw.region1_pages) m.hw.region1_pages ≡ false = ground arith in
      let back : i + m.hw.region1_pages - m.hw.region1_pages ≡ i = omega arith in
      rw (high, c.runs, ==-ne parent child (λ eq. c.apart (sym eq)), c.here, back, at, valid) refl

  abbrev after_copy : Pte → Kernel
  after_copy e0 = with_page (while_mapped e0) f (k.pages e.pfn)

  copied :
      (e0 : Pte)
      → m.copy_page (temp_page m.hw) (i + m.hw.region1_pages) (while_mapped e0)
        ≡ some (tt, after_copy e0)
  copied e0 =
      c.law.copies (while_mapped e0) (temp_page m.hw) (i + m.hw.region1_pages) f e.pfn
        (dest_frame e0) (source_frame e0)

-- Where a frame is free, a valid page is copied to the lowest free one.
pub copy_one-run :
    (m : Machine) (width : ℕ) (k : Kernel) (parent child : ℕ) (u w : Pcb) (i : ℕ) (e e' : Pte)
    → Copying m k parent child u w
    → get_elem? u.region1_pt i ≡ some e
    → get_elem? w.region1_pt i ≡ some e'
    → e.valid ≡ 1
    → 1 ≤ free_count k.frame_bitmap m.hw.num_vpn
    → (f : ℕ) × (r0 : List Pte) × (f < m.hw.num_vpn)
      × (get_elem? k.frame_bitmap f ≡ some 0)
      × (length r0 ≡ length k.region0_pt)
      × (copy_one m width parent child i k ≡ some (tt, page_copied m k child w i f e.pfn e.prot r0))
unfolding copy_one setup_temp_mapping remove_temp_mapping
copy_one-run m width k parent child u w i e e' c at at' valid room =
    let (r, after, run, outcome) = allocate_frame_lem m.hw.num_vpn k.frame_bitmap c.bits in
    elim outcome [
      | inr (_, _, full) ↦
          absurd (omega (arith, room, free_count-InUse k.frame_bitmap m.hw.num_vpn full))
      | inl (f, is, small, free, same, _) ↦
          let (e0, at0) = get_elem?-some k.region0_pt (temp_page m.hw) c.fits in
          let x = scratch m k parent child u w c i e e' at at' valid f e0 in
          let y : Pte = record x { valid = 0 } in
          let mid = copied m k parent child u w c i e e' at at' valid f e0 in
          let inside = get_elem?-lt w.region1_pt i e' at' in
          let w1 : Pte = record e' { pfn = f } in
          (
            f,
            set (set k.region0_pt (temp_page m.hw) x) (temp_page m.hw) y,
            small,
            free,
            length-set (set k.region0_pt (temp_page m.hw) x) (temp_page m.hw) y
                ∙ length-set k.region0_pt (temp_page m.hw) x,
            rw
                (
                  c.here,
                  at,
                  valid,
                  run,
                  is,
                  same,
                  c.there,
                  at',
                  at0,
                  mid,
                  get_elem?-set_self k.region0_pt (temp_page m.hw) x c.fits,
                  ==-refl child,
                  get_elem?-set_self w.region1_pt i w1 inside,
                  set-set w.region1_pt i w1 (mapped f e.prot),
                )
                (ap
                  (λ g. some (
                    tt,
                    record (page_copied m k child w i f e.pfn e.prot
                        (set (set k.region0_pt (temp_page m.hw) x) (temp_page m.hw) y)) {
                          pcbs = g;
                        },
                  ))
                  (put-put k.pcbs child (record w { region1_pt = set w.region1_pt i w1 })
                    (record w { region1_pt = set w.region1_pt i (mapped f e.prot) }))),
          )
    ]
