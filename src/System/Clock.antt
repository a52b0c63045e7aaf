-- ===== src/System/Clock.antt =====
-- traps.c: the clock's trap keeps the kernel sound.
use mathlib.Core.Option.{some-injective}
use sasha_jakob.Base.{
  ℕ, ◌≡◌, ◌≢◌, refl, sym, ap, ◌∙◌, some, true, false, List, [], ◌∷◌, ◌++◌, map, arith, ◌∉◌, Ends,
  pos, Bool-cases, ◌⊎◌, inl, inr, ==-refl, ==-ne, ℕ_discrete, length, suc_ℤ, ltb_ℤ, first,
  ne_of_mem, Option, subst,
}
use sasha_jakob.Links.{put}
use sasha_jakob.Kernel.{
  Kernel, Machine, Switches, Pcb, UserContext, process_default, process_running, queue_node,
  not_mem-nodes,
}
use sasha_jakob.Process.Queue.Placed.{Inv-modify}
use sasha_jakob.Process.Scan.Delay.{woken, kept, Delayed-agree}
use sasha_jakob.Sync.Waits.{rest_of}
use sasha_jakob.Calls.Schedule.Switched.{left_pcb, entered_pcb}
use sasha_jakob.Calls.Schedule.Next.{taken}
use sasha_jakob.Calls.Schedule.Single.{OneRuns-switch}
use sasha_jakob.Traps.{preempt, clock_handler}
use sasha_jakob.Traps.Preempt.{preempt-lost}
use sasha_jakob.System.Sound.{Sound, Sound-after, stands_out, is_out, stack_of}
use sasha_jakob.System.Delay.{SameStacks-switch, idle-switch}
use sasha_jakob.System.Tick.{not_delayed, after_tick, tick-Sound}
use sasha_jakob.Calls.Schedule.Delay.{not_ready}

-- The run time of the current process is counted.
abbrev pub counted : Kernel → Pcb → Kernel
counted k v = record k {
  pcbs = put k.pcbs k.current_process (record v { run_time = suc_ℤ v.run_time });
}

counted-Sound :
    (m : Machine) (k : Kernel) (lists : List ℕ) (c : ℕ → List ℕ) (rs ds : List ℕ) (v : Pcb)
    → Sound m k lists c rs ds
    → k.pcbs k.current_process ≡ some v
    → v.state ≡ process_running
    → Sound m (counted k v) lists c rs ds
counted-Sound m k lists c rs ds v sound here on =
    let p = k.current_process in
    let w : Pcb = record v { run_time = suc_ℤ v.run_time } in
    let others : (x : ℕ) → x ≢ p → (counted k v).pcbs x ≡ k.pcbs x =
      λ x ne. rw (==-ne x p ne) refl in
    let mine : (counted k v).pcbs p ≡ some w = rw (==-refl p) refl in
    let awake = not_delayed k ds p v sound.asleep here (ap is_out on) in
    Sound-after m k (counted k v) lists c c rs ds rs ds sound (refl, refl, refl, refl)
      (λ x. elim (ℕ_discrete x p) [
        | yes e ↦ rw e (ap stack_of mine ∙ sym (ap stack_of here))
        | no ne ↦ ap stack_of (others x ne)
      ])
      (Inv-modify p v w sound.inv here refl)
      (record {
        only = λ x u at st. elim (ℕ_discrete x p) [
          | yes e ↦ e
          | no ne ↦ sound.one.only x u (sym (others x ne) ∙ at) st
        ];
        is = (w, mine, on);
      })
      sound.readies sound.delays sound.known
      (Delayed-agree k (counted k v) ds (λ x i. others x (ne_of_mem x p ds i awake)) sound.asleep)
      (elim (ℕ_discrete k.idle_process p) [
        | yes e ↦ (w, ap (counted k v).pcbs e ∙ mine, ap is_out on)
        | no ne ↦ (sound.idle.0, others k.idle_process ne ∙ sound.idle.1, sound.idle.2)
      ])

-- The first process of `rs` comes in for `p`, and the trap returns its context; where there is none the
-- trap returns to `p`. The table of the processes was `f`.
abbrev pub Enters :
    (ℕ → Option Pcb) → (p : ℕ) → List ℕ → (cont back : UserContext) → Kernel → Type 0
Enters f p [] cont back k' = back ≡ cont
Enters f p (q ∷ qs) cont back k' =
    (q ≢ p)
    × (u : Pcb) × (f q ≡ some u)
    × (back ≡ u.user_context)
    × (k'.pcbs q ≡ some (entered_pcb u))

-- The process whose time is up gives way to the first ready process, where there is one.
preempt-Sound :
    (m : Machine) (law : Switches m) (k : Kernel) (lists : List ℕ) (c : ℕ → List ℕ) (rs ds : List ℕ)
    (cont : UserContext)
    → Sound m k lists c rs ds
    → Ends (preempt m k.current_process cont k) λ back k'.
      ((c' : ℕ → List ℕ) × Sound m k' lists c' (rest_of rs) ds)
      × (k'.current_process ≡ first rs k.current_process)
      × Enters k.pcbs k.current_process rs cont back k'
      × ((x : ℕ) → x ≢ k.current_process → x ≢ k'.current_process → k'.pcbs x ≡ k.pcbs x)
unfolding preempt
preempt-Sound m law k lists c [] ds cont sound =
    let none_ready : k.links.count k.ready_queue ≡ some (pos 0) =
      (sound.inv.holds.each k.ready_queue sound.inv.ready_in).count
      ∙ ap (λ xs. some (pos (length {A = ℕ} xs))) sound.readies in
    (cont, k, ground (arith, none_ready), ((c, sound), refl, refl, λ x _ _. refl))
preempt-Sound m law k lists c (q ∷ qs) ds cont sound =
    let p = k.current_process in
    let inv = sound.inv in
    let (v, here, on) = sound.one.is in
    let (u, there) = sound.known q (ground arith) in
    let (i, rests, out) = sound.idle in
    let (real, _) = sound.stacked p v.kernel_stack (ap stack_of here) in
    let (_, stacked) = sound.stacked q u.kernel_stack (ap stack_of there) in
    let (back, k', run, (returns, current, enters, (kc, leaves), others, names, _, inv')) =
      preempt-lost m law k lists c q qs v u cont inv sound.readies
        (stands_out k lists c k.idle_process i inv rests out) real here on there stacked
        sound.fits in
    let w : Pcb = left_pcb (record v { state = process_default }) cont kc in
    let c' = taken k c (q ∷ qs) in
    let entries : c' k.delay_queue ≡ map queue_node ds =
      rw (==-ne k.delay_queue k.ready_queue (λ eq. inv.ready_ne_delay (sym eq))) sound.delays in
    let other : q ≢ p =
      not_ready k lists c q qs p inv.ready_in (stands_out k lists c p v inv here (ap is_out on))
        sound.readies in
    let q_out : q ∉ ds =
      not_mem-nodes q ds
        (rw entries at (inv'.placed q (entered_pcb u) enters k.delay_queue inv.delay_in)) in
    let p_out = not_delayed k ds p v sound.asleep here (ap is_out on) in
    (
      back,
      k',
      run,
      (
        (
          c',
          Sound-after m k k' lists c c' (q ∷ qs) ds qs ds sound names
              (SameStacks-switch k k' p q v u w here there enters leaves refl others) inv'
              (OneRuns-switch k k' q w u sound.one current enters leaves (λ x. cc) others)
              (rw (==-refl k.ready_queue) refl) entries (λ x j. sound.known x (ground (arith, j)))
              (Delayed-agree k k' ds
                (λ x j. others x (ne_of_mem x q ds j q_out) (ne_of_mem x p ds j p_out))
                sound.asleep)
              (elim (ℕ_discrete k.idle_process p) [
                | yes e ↦ (w, ap k'.pcbs e ∙ leaves, refl)
                | no ne ↦ idle-switch k k' p q u sound.idle ne enters others
              ]),
        ),
        current,
        (other, u, there, returns, enters),
        (λ x np nq. others x (λ e. nq (e ∙ sym current)) np),
      ),
    )

-- After a clock trap, with `rs` ready before it, `ds` delayed, and `v` the PCB of the running process:
-- the delayed processes have had their tick, and either the running process has used no more than its
-- time slice and runs on, or the first ready process has come in for it, where there is one. Every
-- other process is as the tick leaves it.
abbrev pub Clocked :
    Machine → Kernel → List ℕ → (rs ds : List ℕ) → Pcb → (cont back : UserContext) → Kernel → Type 0
Clocked m k lists rs ds v cont back k' =
    ((x : ℕ) → x ≢ k.current_process → x ≢ k'.current_process → k'.pcbs x ≡ after_tick k.pcbs ds x)
    × (((ltb_ℤ v.time_slice (suc_ℤ v.run_time) ≡ false)
          × (back ≡ cont)
          × ((c' : ℕ → List ℕ) × Sound m k' lists c' (rs ++ woken k.pcbs ds) (kept k.pcbs ds))
          × (k'.current_process ≡ k.current_process)
          × (k'.pcbs k.current_process ≡ some (record v { run_time = suc_ℤ v.run_time })))
        ⊎ ((ltb_ℤ v.time_slice (suc_ℤ v.run_time) ≡ true)
            × ((c' : ℕ → List ℕ) × Sound m k' lists c' (rest_of (rs ++ woken k.pcbs ds))
                  (kept k.pcbs ds))
            × (k'.current_process ≡ first (rs ++ woken k.pcbs ds) k.current_process)
            × Enters (after_tick k.pcbs ds) k.current_process (rs ++ woken k.pcbs ds) cont back k'))

Enters-counted :
    (f g : ℕ → Option Pcb) (p : ℕ) (rs : List ℕ) (cont back : UserContext) (k' : Kernel)
    → ((x : ℕ) → x ≢ p → g x ≡ f x)
    → Enters g p rs cont back k'
    → Enters f p rs cont back k'
Enters-counted f g p [] cont back k' same e = e
Enters-counted f g p (q ∷ qs) cont back k' same (other, u, there, returns, enters) =
    (other, u, sym (same q other) ∙ there, returns, enters)

-- clock_handler ends in a sound kernel. The delayed processes have had their tick, and the woken ones are
-- at the end of the ready queue. If the running process, with this tick counted, has used no more than its
-- time slice, it runs on; otherwise the first ready process runs, and the trap returns the context that
-- it had saved, and the running one runs on where none is ready. Every other process is as the
-- tick leaves it.
pub clock_handler-Sound :
    (m : Machine) (law : Switches m) (k : Kernel) (lists : List ℕ) (c : ℕ → List ℕ) (rs ds : List ℕ)
    (v : Pcb) (cont : UserContext)
    → Sound m k lists c rs ds
    → k.pcbs k.current_process ≡ some v
    → Ends (clock_handler m cont k) λ back k'. Clocked m k lists rs ds v cont back k'
unfolding clock_handler
clock_handler-Sound m law k lists c rs ds v cont sound here =
    let (_, k1, run, ((c1, sound1), same, _, runs, table)) = tick-Sound m k lists c rs ds sound in
    let here1 : k1.pcbs k1.current_process ≡ some v = ap k1.pcbs runs ∙ same ∙ here in
    let (u, at, on) = sound1.one.is in
    let is : u ≡ v = some-injective _ _ (sym at ∙ here1) in
    let k2 = counted k1 v in
    let ticks : (x : ℕ) → x ≢ k.current_process → k2.pcbs x ≡ after_tick k.pcbs ds x =
      λ x ne. rw (==-ne x k1.current_process (λ e. ne (e ∙ runs))) (table x) in
    let sound2 =
      counted-Sound m k1 lists c1 (rs ++ woken k.pcbs ds) (kept k.pcbs ds) v sound1 here1
        (sym (ap (λ x. x.state) is) ∙ on) in
    elim (Bool-cases (ltb_ℤ v.time_slice (suc_ℤ v.run_time))) [
      | inr more ↦ (
        cont,
        k2,
        rw (run, here1, ==-refl k1.current_process, more) refl,
        (
          (λ x ne _. ticks x ne),
          inl (
            more,
            refl,
            (c1, sound2),
            runs,
            ap k2.pcbs (sym runs) ∙ rw (==-refl k1.current_process) refl,
          ),
        ),
      )
      | inl over ↦
          let (back, k3, run3, (sound3, current, enters, others)) =
            preempt-Sound m law k2 lists c1 (rs ++ woken k.pcbs ds) (kept k.pcbs ds) cont sound2 in
          (
            back,
            k3,
            rw (run, here1, ==-refl k1.current_process, over) run3,
            (
              (λ x ne new. others x (λ e. ne (e ∙ runs)) new ∙ ticks x ne),
              inr (
                over,
                sound3,
                current ∙ ap (first (rs ++ woken k.pcbs ds)) runs,
                Enters-counted (after_tick k.pcbs ds) k2.pcbs k.current_process
                    (rs ++ woken k.pcbs ds) cont back k3 ticks
                    (subst (λ p. Enters k2.pcbs p (rs ++ woken k.pcbs ds) cont back k3) runs
                      enters),
              ),
            ),
          )
    ]
