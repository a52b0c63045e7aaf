-- ===== src/Load/Built.antt =====
-- load_program.c: the address space that the three sections make.
use sasha_jakob.Base.{
  ℕ, ◌+◌, ◌-◌, ◌≡◌, ◌≢◌, ◌<◌, ◌≤◌, refl, ap, ◌∙◌, some, List, arith, length, ◌⊎◌, inl, inr, ℤ,
  error, success, Ends, ==-refl, ==-ne,
}
use sasha_jakob.Links.{null, put}
use sasha_jakob.Frames.Alloc.{InUse}
use sasha_jakob.Kernel.{Kernel, Hardware, Pcb, Pte}
use sasha_jakob.Process.Exit.Freed.{Frees, free_userspace_lem}
use sasha_jakob.Memory.{page_address}
use sasha_jakob.Load.{Loader, Program, section_loop, build_space, region1_page, stack_npg, data_npg}
use sasha_jakob.Load.Sections.{section_loop_lem}
use sasha_jakob.Load.Stores.{InText, InData, InStack}
use sasha_jakob.Load.Space.{Given, Given-join, Given-same, Given-none, InPages, Section-Given}

-- Nothing but the frames' bitmap and the process `p` has changed.
pub record OnlyOwn (s : Kernel) (p : ℕ) (k : Kernel) : Type 0 where
  pub others : (x : ℕ) → x ≢ p → k.pcbs x ≡ s.pcbs x
  pub only : k ≡ record s { frame_bitmap = k.frame_bitmap; pcbs = k.pcbs }

-- The pages of `In` have been mapped in process `p`, which was `v` with the table `t`.
record Mapping (hw : Hardware) (s : Kernel) (p : ℕ) (t : List Pte) (In : ℕ → Type 0) (k : Kernel)
    (v : Pcb) : Type 0 where
  here : k.pcbs p ≡ some v
  own : OnlyOwn s p k
  given : Given hw s.frame_bitmap t k.frame_bitmap v.region1_pt In

-- One more section, where its pages are in the table and none of them has been mapped.
module _ (hw : Hardware) (s : Kernel) (p : ℕ) (t : List Pte) (In : ℕ → Type 0) (k : Kernel)
    (v : Pcb) (m : Mapping hw s p t In k v) (bits : hw.num_vpn ≤ length s.frame_bitmap) where
  one_more :
      (n i : ℕ)
      → i + n ≤ length t
      → ((j : ℕ) → In j → InPages i n j → ⊥)
      → Ends (section_loop hw p n i k) λ rc k'.
        OnlyOwn s p k'
        × (((rc ≡ success)
              × (t' : List Pte) × Mapping hw s p t
                  (λ j. In j ⊎ InPages i n j)
                  k'
                  (record v { region1_pt = t' }))
            ⊎ ((rc ≡ error) × InUse k'.frame_bitmap 0 hw.num_vpn))
  one_more n i fits disjoint =
      let (rc, k', run, section) =
        section_loop_lem hw k p n i v m.here (rw (m.given.same_bits) bits)
          (rw (m.given.same_entries) fits) in
      let (_, _, only, others, _, _, _, _, _, _) = section in
      let own : OnlyOwn s p k' = record {
        others = λ x ne. others x ne ∙ m.own.others x ne;
        only =
            only
            ∙ ap (λ (x : Kernel). record x { frame_bitmap = k'.frame_bitmap; pcbs = k'.pcbs })
                m.own.only;
      } in
      (
        rc,
        k',
        run,
        (
          own,
          elim (Section-Given hw k k' p v n i rc section) [
            | inr failed ↦ inr failed
            | inl (good, t', here, given) ↦ inl (
              good,
              t',
              record {
                here = here;
                own = own;
                given =
                    Given-join hw s.frame_bitmap k.frame_bitmap k'.frame_bitmap t v.region1_pt t' In
                      (InPages i n) m.given given disjoint;
              },
            )
          ],
        ),
      )

-- The pages of the text, of the data and of the stack.
abbrev pub InSpace : Loader → Program → List (List ℕ) → ℕ → Type 0
InSpace l li args j = InText l li j ⊎ InData l li j ⊎ InStack l args j

-- The address space is there, with the break behind the data; or no frame is left. `freed` is the kernel when
-- the frames of the old pages have been given back.
abbrev pub Built : Loader → Program → List (List ℕ) → Kernel → (p : ℕ) → Pcb → ℤ → Kernel → Type 0
Built l li args k p v rc k' =
    OnlyOwn k p k'
    × (freed : Kernel) × Frees l.hw k v l.hw.max_pt_len 0 freed
    × (((rc ≡ success)
          × (t : List Pte) × (k'.pcbs p
              ≡ some (record v {
                region1_pt = t;
                brk = page_address l.hw (region1_page l.hw li.id_vaddr + data_npg li);
              }))
          × Given l.hw freed.frame_bitmap v.region1_pt k'.frame_bitmap t (InSpace l li args))
        ⊎ ((rc ≡ error) × InUse k'.frame_bitmap 0 l.hw.num_vpn))

-- The break is set behind the data.
with_brk : ℕ → ℕ → Kernel → Pcb → Kernel
with_brk p b k v = record k { pcbs = put k.pcbs p (record v { brk = b }) }

Mapping-with_brk :
    (hw : Hardware) (s : Kernel) (p b : ℕ) (t : List Pte) (In : ℕ → Type 0) (k : Kernel) (v : Pcb)
    → Mapping hw s p t In k v
    → Mapping hw s p t In (with_brk p b k v) (record v { brk = b })
unfolding with_brk
Mapping-with_brk hw s p b t In k v m = record {
  here = rw (==-refl p) refl;
  own = record {
    others = λ x ne. rw (==-ne x p ne) (m.own.others x ne);
    only = ap (λ (x : Kernel). record x { pcbs = put k.pcbs p (record v { brk = b }) }) m.own.only;
  };
  given = m.given;
}

-- Three runs of pages, each behind the one before.
module _ (tp tn dp dn sp sn : ℕ) (after : tp + tn ≤ dp) (above : dp + dn ≤ sp) where
  data_apart : (j : ℕ) → ⊥ ⊎ InPages tp tn j → InPages dp dn j → ⊥
  data_apart j (inl x) _ = absurd x
  data_apart j (inr (_, high)) (low, _) = omega (arith, after, high, low)

  stack_apart : (j : ℕ) → (⊥ ⊎ InPages tp tn j) ⊎ InPages dp dn j → InPages sp sn j → ⊥
  stack_apart j (inl (inl x)) _ = absurd x
  stack_apart j (inl (inr (_, high))) (low, _) = omega (arith, after, above, high, low)
  stack_apart j (inr (_, high)) (low, _) = omega (arith, above, high, low)

three_of : {A B C : Type 0} → ((⊥ ⊎ A) ⊎ B) ⊎ C → A ⊎ B ⊎ C
three_of (inl (inl (inl x))) = absurd x
three_of (inl (inl (inr a))) = inl a
three_of (inl (inr b)) = inr (inl b)
three_of (inr c) = inr (inr c)

of_three : {A B C : Type 0} → A ⊎ B ⊎ C → ((⊥ ⊎ A) ⊎ B) ⊎ C
of_three (inl a) = inl (inl (inr a))
of_three (inr (inl b)) = inl (inr b)
of_three (inr (inr c)) = inr c

-- Where the process has a table of at least MAX_PT_LEN entries, the text ends below the data, and a page
-- is left between the data and the stack, the building of the address space ends. The frames of the
-- old pages are given back. Either each page of the text, the data and the stack then has a frame of its
-- own that was free and is in use now, the process can read and write it, and the break stands behind the
-- data; or the result is ERROR, and no frame is left. The other pages of the process keep their
-- entries, no other process changes, and nothing else of the kernel does but the frames' bitmap.
pub build_space_lem :
    (l : Loader) (li : Program) (args : List (List ℕ)) (k : Kernel) (p : ℕ) (v : Pcb)
    → p ≢ null
    → k.pcbs p ≡ some v
    → l.hw.num_vpn ≤ length k.frame_bitmap
    → l.hw.max_pt_len ≤ length v.region1_pt
    → region1_page l.hw li.t_vaddr + li.t_npg ≤ region1_page l.hw li.id_vaddr
    → stack_npg l args + region1_page l.hw li.id_vaddr + data_npg li < l.hw.max_pt_len
    → Ends (build_space l li args p k) (Built l li args k p v)
unfolding build_space with_brk
build_space_lem l li args k p v there here bits fits ordered gap =
    let (_, freed, run0, (frees, here0)) = free_userspace_lem l.hw k p v there here bits fits in
    let (same, bits0, _, _, _) = frees in
    let own : (k' : Kernel) → OnlyOwn freed p k' → OnlyOwn k p k' = λ k' o. record {
      others = λ x ne. o.others x ne ∙ ap (λ (y : Kernel). y.pcbs x) same;
      only =
          o.only
          ∙ ap (λ (y : Kernel). record y { frame_bitmap = k'.frame_bitmap; pcbs = k'.pcbs }) same;
    } in
    let room : l.hw.num_vpn ≤ length freed.frame_bitmap = rw (bits0) bits in
    let tp = region1_page l.hw li.t_vaddr in
    let dp = region1_page l.hw li.id_vaddr in
    let sn = stack_npg l args in
    let sp = l.hw.max_pt_len - sn in
    let above : dp + data_npg li ≤ sp = omega (arith, gap) in
    let b = page_address l.hw (dp + data_npg li) in
    let m0 : Mapping l.hw freed p v.region1_pt (λ _. ⊥) freed v = record {
      here = here0;
      own = record { others = λ x ne. refl; only = refl };
      given = Given-none l.hw freed.frame_bitmap v.region1_pt;
    } in
    let (rc1, k1, run1, (own1, out1)) =
      one_more l.hw freed p v.region1_pt (λ _. ⊥) freed v m0 room li.t_npg tp
        (omega (arith, fits, ordered, gap)) (λ j x. absurd x) in
    elim out1 [
      | inr (is, full) ↦
          (error, k1, rw (run0, run1, is) refl, (own k1 own1, freed, frees, inr (refl, full)))
      | inl (is, t1, m1) ↦
          let (rc2, k2, run2, (own2, out2)) =
            one_more l.hw freed p v.region1_pt (λ j. ⊥ ⊎ InPages tp li.t_npg j) k1
              (record v { region1_pt = t1 }) m1 room (data_npg li) dp (omega (arith, fits, gap))
              (data_apart tp li.t_npg dp (data_npg li) sp sn ordered above) in
          elim out2 [
            | inr (is', full) ↦ (
              error,
              k2,
              rw (run0, run1, is, run2, is') refl,
              (own k2 own2, freed, frees, inr (refl, full)),
            )
            | inl (is', t2, m2) ↦
                let m2' =
                  Mapping-with_brk l.hw freed p b v.region1_pt
                    (λ j. (⊥ ⊎ InPages tp li.t_npg j) ⊎ InPages dp (data_npg li) j) k2
                    (record v { region1_pt = t2 }) m2 in
                let (rc3, k3, run3, (own3, out3)) =
                  one_more l.hw freed p v.region1_pt
                    (λ j. (⊥ ⊎ InPages tp li.t_npg j) ⊎ InPages dp (data_npg li) j)
                    (with_brk p b k2 (record v { region1_pt = t2 }))
                    (record v { region1_pt = t2; brk = b }) m2' room sn sp
                    (omega (arith, fits, gap))
                    (stack_apart tp li.t_npg dp (data_npg li) sp sn ordered above) in
                (
                  rc3,
                  k3,
                  rw (run0, run1, is, run2, is', m2.here) run3,
                  (
                    own k3 own3,
                    freed,
                    frees,
                    elim out3 [
                      | inr failed ↦ inr failed
                      | inl (is'', t3, m3) ↦ inl (
                        is'',
                        t3,
                        m3.here,
                        Given-same l.hw freed.frame_bitmap k3.frame_bitmap v.region1_pt t3
                            (λ j.
                              ((⊥ ⊎ InPages tp li.t_npg j) ⊎ InPages dp (data_npg li) j)
                              ⊎ InPages sp sn j)
                            (InSpace l li args) (λ j x. three_of x) (λ j x. of_three x) m3.given,
                      )
                    ],
                  ),
                )
          ]
    ]
