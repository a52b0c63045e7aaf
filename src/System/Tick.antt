-- ===== src/System/Tick.antt =====
-- pcb.c: one tick of the clock keeps the kernel sound.
use mathlib.Core.Option.{some-injective}
use mathlib.Core.List.{map-append}
use sasha_jakob.Base.{
  ℕ, ◌≡◌, refl, sym, ap, ◌∙◌, Option, none, some, true, List, [], ◌∷◌, ◌++◌, arith, ◌∈◌, ◌∉◌, Ends,
  has, has-append, if◌then◌else◌, Bool-cases, inl, inr, ==-ne, ℕ_discrete,
}
use sasha_jakob.Kernel.{Kernel, Machine, Pcb, process_running, process_delayed, queue_node}
use sasha_jakob.Process.Queue.Placed.{SameGlobals}
use sasha_jakob.Process.Scan.{update_delayed_processes}
use sasha_jakob.Process.Scan.Delay.{expires, ticked, woken, kept, Delayed}
use sasha_jakob.Process.Scan.Ticks.{update_delayed_processes_lem}
use sasha_jakob.Process.Scan.Wakeup.{Delayed-kept}
use sasha_jakob.System.Sound.{IsKnown, Sound, Sound-after, is_out, stack_of}

pub Delayed-at :
    (k : Kernel) (ds : List ℕ) (p : ℕ)
    → Delayed k ds
    → p ∈ ds
    → (v : Pcb) × (k.pcbs p ≡ some v) × (v.state ≡ process_delayed)
Delayed-at k [] p asleep i = cc
Delayed-at k (d ∷ ds) p ((v, here, st, _), asleep) i = elim (ℕ_discrete p d) [
  | yes e ↦ (v, ap k.pcbs e ∙ here, st)
  | no ne ↦ Delayed-at k ds p asleep (rw (==-ne p d ne) at i)
]

-- A process whose state says that it stands in no queue is not one of the delayed.
pub not_delayed :
    (k : Kernel) (ds : List ℕ) (p : ℕ) (v : Pcb)
    → Delayed k ds
    → k.pcbs p ≡ some v
    → is_out v.state ≡ true
    → p ∉ ds
not_delayed k ds p v asleep here out = elim (Bool-cases (has p ds)) [
  | inl i ↦
      let (w, at, st) = Delayed-at k ds p asleep i in
      let same : v ≡ w = some-injective _ _ (sym here ∙ at) in
      let no : is_out process_delayed ≡ true =
        ap is_out (sym (ap (λ x. x.state) same ∙ st)) ∙ out in
      cc
  | inr e ↦ e
]

stack_of-ticked : (o : Option Pcb) → stack_of (ticked o) ≡ stack_of o
stack_of-ticked none = refl
stack_of-ticked (some v) = refl

woken-sub : (f : ℕ → Option Pcb) (ds : List ℕ) (p : ℕ) → p ∈ woken f ds → p ∈ ds
woken-sub f [] p i = i
woken-sub f (d ∷ ds) p i = elim (Bool-cases (expires (f d))) [
  | inl last ↦ ground (arith, rw last at i, woken-sub f ds p)
  | inr more ↦ ground (arith, woken-sub f ds p (rw more at i))
]

-- What is in the table of processes when those in `ds` have had their tick.
abbrev pub after_tick : (ℕ → Option Pcb) → List ℕ → ℕ → Option Pcb
after_tick f ds x = if has x ds then ticked (f x) else f x

-- update_delayed_processes: the woken processes are behind the others in the ready queue.
pub tick-Sound :
    (m : Machine) (k : Kernel) (lists : List ℕ) (c : ℕ → List ℕ) (rs ds : List ℕ)
    → Sound m k lists c rs ds
    → Ends (update_delayed_processes k) λ _ k'.
      ((c' : ℕ → List ℕ) × Sound m k' lists c' (rs ++ woken k.pcbs ds) (kept k.pcbs ds))
      × (k'.pcbs k.current_process ≡ k.pcbs k.current_process)
      × SameGlobals k k'
      × (k'.current_process ≡ k.current_process)
      × ((x : ℕ) → k'.pcbs x ≡ after_tick k.pcbs ds x)
tick-Sound m k lists c rs ds sound =
    let (_, k', run, (c', inv', delays, readies, table, names, runs)) =
      update_delayed_processes_lem k lists c ds sound.inv sound.delays sound.asleep in
    let (v, here, on) = sound.one.is in
    let (i, rests, out) = sound.idle in
    let stays : (p : ℕ) → p ∉ ds → k'.pcbs p ≡ k.pcbs p = λ p o. table p ∙ rw o refl in
    let current : k'.pcbs k.current_process ≡ k.pcbs k.current_process =
      stays k.current_process
        (not_delayed k ds k.current_process v sound.asleep here (ap is_out on)) in
    (
      tt,
      k',
      run,
      (
        (
          c',
          Sound-after m k k' lists c c' rs ds (rs ++ woken k.pcbs ds) (kept k.pcbs ds) sound names
              (λ p. stacks k' table p) inv'
              (record {
                only = λ p w at st. only k' table p w at st ∙ sym runs;
                is = (v, ap k'.pcbs runs ∙ current ∙ here, on);
              })
              (readies ∙ rw (sound.readies) (sym (map-append queue_node rs (woken k.pcbs ds))))
              delays known (Delayed-kept k k' ds ds table (λ q j. j) sound.asleep)
              (
                i,
                stays k.idle_process (not_delayed k ds k.idle_process i sound.asleep rests out)
                    ∙ rests,
                out,
              ),
        ),
        current,
        names,
        runs,
        table,
      ),
    )
  where
    stacks :
        (k' : Kernel)
        → ((p : ℕ) → k'.pcbs p ≡ (if has p ds then ticked (k.pcbs p) else k.pcbs p))
        → (p : ℕ) → stack_of (k'.pcbs p) ≡ stack_of (k.pcbs p)
    stacks k' table p = elim (Bool-cases (has p ds)) [
      | inl i ↦ ap stack_of (table p ∙ rw i refl) ∙ stack_of-ticked (k.pcbs p)
      | inr o ↦ ap stack_of (table p ∙ rw o refl)
    ]

    only :
        (k' : Kernel)
        → ((p : ℕ) → k'.pcbs p ≡ (if has p ds then ticked (k.pcbs p) else k.pcbs p))
        → (p : ℕ) (w : Pcb) → k'.pcbs p ≡ some w
        → w.state ≡ process_running
        → p ≡ k.current_process
    only k' table p w at st = elim (Bool-cases (has p ds)) [
      | inl i ↦
          let (u, here, asleep) = Delayed-at k ds p sound.asleep i in
          ground (arith, table p, i, here, asleep, at, st)
      | inr o ↦ sound.one.only p w (sym (table p ∙ rw o refl) ∙ at) st
    ]

    known : (q : ℕ) → q ∈ (rs ++ woken k.pcbs ds) → IsKnown k q
    known q i = elim (Bool-cases (has q rs)) [
      | inl a ↦ sound.known q a
      | inr o ↦
          let there : q ∈ woken k.pcbs ds = rw (has-append q rs (woken k.pcbs ds), o) at i in
          let (v, here, _) = Delayed-at k ds q sound.asleep (woken-sub k.pcbs ds q there) in
          (v, here)
    ]
