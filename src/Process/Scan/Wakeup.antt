-- ===== src/Process/Scan/Wakeup.antt =====
-- pcb.c: the processes that stay delayed after a tick.
use sasha_jakob.Base.{
  ℕ, ◌≡◌, refl, Option, some, false, List, [], ◌∷◌, arith, pred_ℤ, if◌then◌else◌, has, ◌∈◌,
  Bool-cases, inl, inr, sym, ap, ◌∙◌, ==-refl, ℕ_discrete, ==-ne,
}
use sasha_jakob.Kernel.{Kernel, Pcb}
use sasha_jakob.Process.Scan.Delay.{expires, ticked, kept, Delayed}

pub kept-keeps :
    (f : ℕ → Option Pcb) (p : ℕ) (ps : List ℕ) → p ∈ ps → expires (f p) ≡ false → p ∈ kept f ps
kept-keeps f p [] i e = absurd (ground (arith, i))
kept-keeps f p (q ∷ qs) i e = elim (ℕ_discrete p q) [
  | yes eq ↦ rw (← eq, e, ==-refl p) refl
  | no ne ↦
      let rest = kept-keeps f p qs (rw (==-ne p q ne) at i) e in
      elim (Bool-cases (expires (f q))) [
        | inl last ↦ rw last rest
        | inr more ↦ rw (more, ==-ne p q ne) rest
      ]
]

-- The processes that stay are delayed after the tick.
pub Delayed-kept :
    (k k' : Kernel) (ps qs : List ℕ)
    → ((p : ℕ) → k'.pcbs p ≡ (if has p ps then ticked (k.pcbs p) else k.pcbs p))
    → ((q : ℕ) → q ∈ qs → q ∈ ps)
    → Delayed k qs
    → Delayed k' (kept k.pcbs qs)
Delayed-kept k k' ps [] table sub d = tt
Delayed-kept k k' ps (q ∷ qs) table sub ((v, here, st, real), d) =
    let rest = Delayed-kept k k' ps qs table (λ r i. sub r (ground (arith, i))) d in
    elim (Bool-cases (expires (k.pcbs q))) [
      | inl last ↦ rw last rest
      | inr more ↦
          let w : Pcb = record v { delay_ticks = pred_ℤ v.delay_ticks } in
          let same : expires (some v) ≡ false = ap expires (sym here) ∙ more in
          let at : k'.pcbs q ≡ some w = table q ∙ rw (sub q (ground arith), here, same) refl in
          rw more ((w, at, st, real), rest)
    ]
