-- ===== src/Load/Filled.antt =====
-- load_program.c: what is left when the pages are there.
use sasha_jakob.Base.{
  ℕ, ◌+◌, ◌≡◌, ◌≢◌, ◌≤◌, refl, sym, ap, ◌∙◌, some, List, ◌∷◌, true, Bool-cases, length, Ends, ◌⊎◌,
  inl, inr, ℤ, success, ==-refl, ==-ne,
}
use sasha_jakob.Links.{put}
use sasha_jakob.Kernel.{K, Kernel, Hardware, Pcb, Pte, reg_tlb_flush}
use sasha_jakob.Load.{
  Loader, Program, protect_loop, build_arguments, fill_space, region1_page, sub_word,
}
use sasha_jakob.Load.Space.{InPages}
use sasha_jakob.Load.Layout.{Fits}
use sasha_jakob.Load.Stores.{
  Quiet, Stores, Writable, InText, InData, InStack, build_arguments-Quiet,
}
use sasha_jakob.Load.Protect.{Protected, protect_loop_lem}

-- Nothing but the process `p`, the frames' bitmap, the user memory and the writes of registers has changed.
pub record Own (s : Kernel) (p : ℕ) (k : Kernel) : Type 0 where
  pub others : (x : ℕ) → x ≢ p → k.pcbs x ≡ s.pcbs x
  pub only : k ≡ record s {
    frame_bitmap = k.frame_bitmap;
    pcbs = k.pcbs;
    bytes = k.bytes;
    ints = k.ints;
    pages = k.pages;
    register_writes = k.register_writes;
  }

pub Own-then : (s k k' : Kernel) (p : ℕ) → Own s p k → Own k p k' → Own s p k'
Own-then s k k' p first next = record {
  others = λ x ne. next.others x ne ∙ first.others x ne;
  only =
      next.only
      ∙ ap
          (λ (y : Kernel). record y {
            frame_bitmap = k'.frame_bitmap;
            pcbs = k'.pcbs;
            bytes = k'.bytes;
            ints = k'.ints;
            pages = k'.pages;
            register_writes = k'.register_writes;
          })
          first.only;
}

-- What is kept besides: the process is `v`, and the bitmap is the same.
abbrev Kept : Kernel → (p : ℕ) → Pcb → Kernel → Type 0
Kept s p v k = Own s p k × (k.frame_bitmap ≡ s.frame_bitmap) × (k.pcbs p ≡ some v)

module _ (s : Kernel) (p : ℕ) (k : Kernel) (v : Pcb) (kept : Kept s p v k) where
  Kept-Quiet :
      {A : Type 0} (hw : Hardware) (In : ℕ → Type 0) (c : K A)
      → Writable hw v.region1_pt In
      → Quiet hw p In c
      → Ends (c k) λ _ k'. Kept s p v k'
  Kept-Quiet hw In c writable quiet =
      let (own, frames, here) = kept in
      let (a, k', run, same) = quiet k (v, here, writable) in
      let step : Own k p k' = record {
        others = λ x ne. ap (λ (y : Kernel). y.pcbs x) same;
        only =
            same
            ∙ ap
                (λ (y : Kernel). record y {
                  bytes = k'.bytes;
                  ints = k'.ints;
                  pages = k'.pages;
                  register_writes = k'.register_writes;
                })
                (ap (λ (y : Kernel). record k { frame_bitmap = y.frame_bitmap; pcbs = y.pcbs })
                  (sym same));
      } in
      (
        a,
        k',
        run,
        (
          Own-then s k k' p own step,
          ap (λ (y : Kernel). y.frame_bitmap) same ∙ frames,
          ap (λ (y : Kernel). y.pcbs p) same ∙ here,
        ),
      )

  Kept-modify : (u : Pcb) → Kept s p u (record k { pcbs = put k.pcbs p u })
  Kept-modify u =
      let (own, frames, here) = kept in
      let step : Own k p (record k { pcbs = put k.pcbs p u }) = record {
        others = λ x ne. rw (==-ne x p ne) refl;
        only = refl;
      } in
      (Own-then s k _ p own step, frames, rw (==-refl p) refl)

  Kept-protect :
      (hw : Hardware) (n i : ℕ)
      → i + n ≤ length v.region1_pt
      → Ends (protect_loop hw p n i k) λ _ k'.
        (t : List Pte) × Protected hw i n v.region1_pt t × Kept s p (record v { region1_pt = t }) k'
  Kept-protect hw n i fits =
      let (own, frames, here) = kept in
      let (a, k', run, (t, there, guarded, others, only)) =
        protect_loop_lem hw k p n i v here fits in
      let step : Own k p k' = record {
        others = others;
        only =
            only
            ∙ ap
                (λ (y : Kernel). record k {
                  frame_bitmap = y.frame_bitmap;
                  pcbs = k'.pcbs;
                  bytes = y.bytes;
                  ints = y.ints;
                  pages = y.pages;
                  register_writes = k'.register_writes;
                })
                (sym only);
      } in
      (
        a,
        k',
        run,
        (
          t,
          guarded,
          (Own-then s k k' p own step, ap (λ (y : Kernel). y.frame_bitmap) only ∙ frames, there),
        ),
      )

-- The text is protected and the process starts at the entry, or a read of the file has failed.
abbrev pub Filled : Loader → Program → (p : ℕ) → Pcb → ℤ → Kernel → Type 0
Filled l li p v rc k' =
    ((rc ≡ success)
      × (t : List Pte) × (k'.pcbs p
          ≡ some (record v {
            region1_pt = t;
            user_context = record (v.user_context) { pc = li.entry };
          }))
      × Protected l.hw (region1_page l.hw li.t_vaddr) li.t_npg v.region1_pt t)
    ⊎ ((rc ≡ l.kill) × (k'.pcbs p ≡ some v))

-- A run in which both reads succeed, by its steps.
filled-run :
    (l : Loader) (li : Program) (args : List (List ℕ)) (p : ℕ) (w : Pcb)
    (k k2 k3 k4 k5 k6 k8 : Kernel)
    → l.read_text li
        (record k { register_writes = (reg_tlb_flush, l.hw.tlb_flush_1) ∷ k.register_writes })
      ≡ some (true, k2)
    → l.read_data li k2 ≡ some (true, k3)
    → protect_loop l.hw p li.t_npg (region1_page l.hw li.t_vaddr) k3 ≡ some (tt, k4)
    → l.clear li.id_end (sub_word li.ud_end li.id_end) k4 ≡ some (tt, k5)
    → l.clear li.id_end (sub_word li.ud_end li.id_end) k5 ≡ some (tt, k6)
    → k6.pcbs p ≡ some w
    → build_arguments l args (record k6 {
      pcbs = put k6.pcbs p (record w { user_context = record (w.user_context) { pc = li.entry } });
    })
      ≡ some (tt, k8)
    → fill_space l li args p k ≡ some (success, k8)
unfolding fill_space
filled-run l li args p w k k2 k3 k4 k5 k6 k8 run2 run3 run4 run5 run6 there run8 =
    rw (run2, run3, run4, run5, run6, there, run8) refl

-- The pages outside the text are as they were.
Writable-Protected :
    (hw : Hardware) (i n : ℕ) (t t' : List Pte) (In : ℕ → Type 0)
    → Protected hw i n t t'
    → ((j : ℕ) → In j → InPages i n j → ⊥)
    → Writable hw t In
    → Writable hw t' In
Writable-Protected hw i n t t' In guarded apart writable j x =
    let (f, at) = writable j x in (f, guarded.outside j (apart j x) ∙ at)

module _ (l : Loader) (li : Program) (args : List (List ℕ)) (p : ℕ) (stores : Stores l li args p)
    (arguments_fit : Fits l args) (v : Pcb) (text : Writable l.hw v.region1_pt (InText l li))
    (data_pages : Writable l.hw v.region1_pt (InData l li))
    (stack : Writable l.hw v.region1_pt (InStack l args))
    (data_apart : (j : ℕ) → InData l li j → InText l li j → ⊥)
    (stack_apart : (j : ℕ) → InStack l args j → InText l li j → ⊥) where
  pub fill_space_lem :
      (k : Kernel)
      → k.pcbs p ≡ some v
      → region1_page l.hw li.t_vaddr + li.t_npg ≤ length v.region1_pt
      → Ends
          (fill_space l li args p k)
          λ rc k'. Own k p k' × (k'.frame_bitmap ≡ k.frame_bitmap) × Filled l li p v rc k'
  unfolding fill_space
  fill_space_lem k here fits =
      let k1 = record k {
        register_writes = (reg_tlb_flush, l.hw.tlb_flush_1) ∷ k.register_writes;
      } in
      let m1 : Kept k p v k1 = (record { others = λ x ne. refl; only = refl }, refl, here) in
      let (got_text, k2, run2, m2) =
        Kept-Quiet k p k1 v m1 l.hw (InText l li) (l.read_text li) text stores.text_read in
      let (got_data, k3, run3, m3) =
        Kept-Quiet k p k2 v m2 l.hw (InData l li) (l.read_data li) data_pages stores.data_read in
      elim (Bool-cases got_text) [
        | inr bad ↦
            let (own, frames, there) = m2 in
            (l.kill, k2, rw (run2, bad) refl, (own, frames, inr (refl, there)))
        | inl fine ↦ elim (Bool-cases got_data) [
          | inr bad2 ↦
              let (own, frames, there) = m3 in
              (l.kill, k3, rw (run2, fine, run3, bad2) refl, (own, frames, inr (refl, there)))
          | inl fine2 ↦
              let (_, k4, run4, (t, guarded, m4)) =
                Kept-protect k p k3 v m3 l.hw li.t_npg (region1_page l.hw li.t_vaddr) fits in
              let w = record v { region1_pt = t } in
              let i = region1_page l.hw li.t_vaddr in
              let data_kept =
                Writable-Protected l.hw i li.t_npg v.region1_pt t (InData l li) guarded data_apart
                  data_pages in
              let stack_kept =
                Writable-Protected l.hw i li.t_npg v.region1_pt t (InStack l args) guarded
                  stack_apart stack in
              let size = sub_word li.ud_end li.id_end in
              let (_, k5, run5, m5) =
                Kept-Quiet k p k4 w m4 l.hw (InData l li) (l.clear li.id_end size) data_kept
                  stores.uninitialised in
              let (_, k6, run6, m6) =
                Kept-Quiet k p k5 w m5 l.hw (InData l li) (l.clear li.id_end size) data_kept
                  stores.uninitialised in
              let (_, _, there6) = m6 in
              let u = record w { user_context = record (v.user_context) { pc = li.entry } } in
              let k7 = record k6 { pcbs = put k6.pcbs p u } in
              let (_, k8, run8, (own, frames, there)) =
                Kept-Quiet k p k7 u (Kept-modify k p k6 w m6 u) l.hw (InStack l args)
                  (build_arguments l args) stack_kept
                  (build_arguments-Quiet l li args p stores arguments_fit) in
              (
                success,
                k8,
                filled-run l li args p w k k2 k3 k4 k5 k6 k8 (run2 ∙ ap (λ x. some (x, k2)) fine)
                    (run3 ∙ ap (λ x. some (x, k3)) fine2) run4 run5 run6 there6 run8,
                (own, frames, inl (refl, t, there, guarded)),
              )
        ]
      ]
