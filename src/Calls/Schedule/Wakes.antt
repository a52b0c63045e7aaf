-- ===== src/Calls/Schedule/Wakes.antt =====
-- syscalls.c: the delay queue behind SysDelay.
use mathlib.Core.List.{map-append}
use sasha_jakob.Base.{
  ℕ, ◌≡◌, ◌≢◌, refl, sym, ◌∙◌, some, List, [], ◌∷◌, ◌++◌, map, arith, ◌∈◌, ◌∉◌, has-append, ==-refl,
  ==-ne,
}
use sasha_jakob.Links.{null}
use sasha_jakob.Kernel.{Kernel, Pcb, process_running, process_delayed, queue_node, mem-nodes}
use sasha_jakob.Process.Queue.Placed.{Inv}
use sasha_jakob.Process.Scan.Delay.{Delayed}
use sasha_jakob.Calls.Schedule.Switched.{entered_pcb}
use sasha_jakob.Calls.Schedule.Next.{taken}
use sasha_jakob.Calls.Schedule.Delay.{delayed_last}

-- The delayed processes are unchanged, and one more is delayed behind them.
Delayed-snoc :
    (k k' : Kernel) (ds : List ℕ) (p : ℕ) (w : Pcb)
    → Delayed k ds
    → ((d : ℕ) → d ∈ ds → k'.pcbs d ≡ k.pcbs d)
    → k'.pcbs p ≡ some w
    → w.state ≡ process_delayed
    → p ≢ null
    → Delayed k' (ds ++ p ∷ [])
Delayed-snoc k k' [] p w asleep same here st real = ((w, here, st, real), tt)
Delayed-snoc k k' (d ∷ ds) p w ((v, at, st', real'), asleep) same here st real = (
  (v, same d (ground arith) ∙ at, st', real'),
  Delayed-snoc k k' ds p w asleep (λ x i. same x (ground (arith, i))) here st real,
)

-- The delay queue when process `p` has entered it and schedule has run.
pub delayed-entries :
    (k : Kernel) (lists : List ℕ) (c : ℕ → List ℕ) (ready ds : List ℕ) (p : ℕ)
    → Inv k lists c
    → c k.delay_queue ≡ map queue_node ds
    → taken k (delayed_last k c p) ready k.delay_queue ≡ map queue_node (ds ++ p ∷ [])
delayed-entries k lists c ready ds p inv d =
    rw
      (
        ==-ne k.delay_queue k.ready_queue (λ eq. inv.ready_ne_delay (sym eq)),
        ==-refl k.delay_queue,
        d,
      )
      (sym (map-append queue_node ds (p ∷ [])))

-- Process `p` ran and is delayed now, behind the others, and `q` has come in for it.
pub Delayed-after :
    (k k1 : Kernel) (lists : List ℕ) (c c1 : ℕ → List ℕ) (ds : List ℕ) (p q : ℕ) (v w u : Pcb)
    → Inv k lists c
    → c k.delay_queue ≡ map queue_node ds
    → Delayed k ds
    → k.pcbs p ≡ some v
    → v.state ≡ process_running
    → p ≢ null
    → Inv k1 lists c1
    → c1 k.delay_queue ≡ map queue_node (ds ++ p ∷ [])
    → k1.pcbs q ≡ some (entered_pcb u)
    → k1.pcbs p ≡ some w
    → w.state ≡ process_delayed
    → ((x : ℕ) → x ≢ q → x ≢ p → k1.pcbs x ≡ k.pcbs x)
    → Delayed k1 (ds ++ p ∷ [])
Delayed-after k k1 lists c c1 ds p q v w u inv d asleep here runs real inv1 entries enters leaves st
      others =
    let out : (l : ℕ) → l ∈ lists → queue_node p ∉ c l = rw runs at (inv.placed p v here) in
    let not_p : (x : ℕ) → x ∈ ds → x ≢ p = λ x i eq.
      let there : queue_node p ∈ c k.delay_queue = rw d (mem-nodes p ds (rw eq at i)) in
      cc (out k.delay_queue inv.delay_in, there) in
    let out_q : (l : ℕ) → l ∈ lists → queue_node q ∉ c1 l = inv1.placed q (entered_pcb u) enters in
    let not_q : (x : ℕ) → x ∈ ds → x ≢ q = λ x i eq.
      let later : x ∈ (ds ++ p ∷ []) = rw (has-append x ds (p ∷ []), i) refl in
      let there : queue_node q ∈ c1 k.delay_queue =
        rw entries (mem-nodes q (ds ++ p ∷ []) (rw eq at later)) in
      cc (out_q k.delay_queue inv.delay_in, there) in
    Delayed-snoc k k1 ds p w asleep (λ x i. others x (not_q x i) (not_p x i)) leaves st real
