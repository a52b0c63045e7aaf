-- ===== src/Tests/Invariant.antt =====
-- The invariant of the queues holds of the sample kernel.
use mathlib.Core.Option.{some-injective}
use sasha_jakob.Base.{
  ℕ, ◌≡◌, ◌≢◌, refl, some, [], ◌∷◌, arith, ◌∉◌, each_of, ap, sym, ◌∙◌, subst, pos, ℕ_discrete,
}
use sasha_jakob.Links.Chain.{IsList, IsNode}
use sasha_jakob.Links.Heap.{Holds}
use sasha_jakob.Kernel.{
  Pcb, process_default, process_running, process_ready, process_blocked, queue_node,
}
use sasha_jakob.Process.Queue.Placed.{Placed, Inv}
use sasha_jakob.Tests.Sample.{
  zombie_pcb, pcb_in, late_pcb, neighbour, sample_lists, sample_entries, sample_links, sample_pcbs,
  sample,
}

empty_one :
    (l : ℕ)
    → l ≢ 0
    → neighbour l ≡ l
    → sample_links.count l ≡ some (pos 0)
    → IsList sample_links l []
empty_one l real self counted = record {
  non_null = real;
  real = refl;
  apart = refl;
  distinct = tt;
  chain = (ap some self, ap some self);
  count = counted;
}

pub single_one :
    (l n : ℕ)
    → l ≢ 0
    → n ≢ 0
    → n ≢ l
    → neighbour l ≡ n
    → neighbour n ≡ l
    → sample_links.count l ≡ some (pos 1)
    → IsList sample_links l (n ∷ [])
single_one l n real node ne there back counted = record {
  non_null = real;
  real = ground arith;
  apart = ground arith;
  distinct = (refl, tt);
  chain = ((ap some there, ap some back), (ap some back, ap some there));
  count = counted;
}

sample-Holds : Holds sample_links sample_lists sample_entries
sample-Holds = record {
  each =
      each_of (λ l. IsList sample_links l (sample_entries l)) sample_lists
        (
          single_one 803 12 (omega arith) (omega arith) (omega arith) refl refl refl,
          (
            single_one 807 28 (omega arith) (omega arith) (omega arith) refl refl refl,
            (
              empty_one 811 (omega arith) refl refl,
              (
                single_one 815 32 (omega arith) (omega arith) (omega arith) refl refl refl,
                (
                  empty_one 11 (omega arith) refl refl,
                  (
                    single_one 19 4 (omega arith) (omega arith) (omega arith) refl refl refl,
                    (
                      empty_one 27 (omega arith) refl refl,
                      (
                        single_one 43 16 (omega arith) (omega arith) (omega arith) refl refl refl,
                        (
                          empty_one 23 (omega arith) refl refl,
                          (empty_one 15 (omega arith) refl refl, tt),
                        ),
                      ),
                    ),
                  ),
                ),
              ),
            ),
          ),
        );
  outside = λ l m i j. ground arith;
  apart = λ l m x i j ne k. ground arith;
}

sample-nodes : (p : ℕ) (v : Pcb) → sample_pcbs p ≡ some v → IsNode sample_links (queue_node p)
sample-nodes p v at = record { non_null = ground arith; has_next = refl; has_prev = refl }

sample-heads : (p : ℕ) → queue_node p ∉ sample_lists
sample-heads p = ground arith

-- A process's PCB is the one that the sample gives it.
Placed-as :
    (p q : ℕ) (v w : Pcb)
    → p ≡ q
    → sample_pcbs p ≡ some v
    → sample_pcbs q ≡ some w
    → Placed sample sample_lists sample_entries w.state (queue_node q)
    → Placed sample sample_lists sample_entries v.state (queue_node p)
Placed-as p q v w e at_p at_q h =
    subst (λ u. Placed sample sample_lists sample_entries u.state (queue_node p))
      (some-injective _ _ (sym at_q ∙ ap sample_pcbs (sym e) ∙ at_p)) (rw e h)

in_no_list : (p l : ℕ) → p ≢ 1 → p ≢ 3 → p ≢ 4 → p ≢ 7 → p ≢ 8 → queue_node p ∉ sample_entries l
in_no_list p l a b d e f = ground arith

sample-Placed :
    (p : ℕ) (v : Pcb)
    → sample_pcbs p ≡ some v
    → Placed sample sample_lists sample_entries v.state (queue_node p)
sample-Placed p v at = elim (ℕ_discrete p 1) [
  | yes e ↦
      Placed-as p 1 v (pcb_in process_blocked 1) e at refl
        (19, refl, refl, omega arith, omega arith, omega arith)
  | no p1 ↦ elim (ℕ_discrete p 2) [
    | yes e ↦ Placed-as p 2 v (pcb_in process_running 2) e at refl (λ l i.
        in_no_list 2 l (omega arith) (omega arith) (omega arith) (omega arith) (omega arith))
    | no p2 ↦ elim (ℕ_discrete p 3) [
      | yes e ↦ Placed-as p 3 v (pcb_in process_ready 3) e at refl refl
      | no p3 ↦ elim (ℕ_discrete p 4) [
        | yes e ↦
            Placed-as p 4 v (pcb_in process_blocked 4) e at refl
              (43, refl, refl, omega arith, omega arith, omega arith)
        | no p4 ↦ elim (ℕ_discrete p 5) [
          | yes e ↦ Placed-as p 5 v (pcb_in process_default 5) e at refl (λ l i.
              in_no_list 5 l (omega arith) (omega arith) (omega arith) (omega arith) (omega arith))
          | no p5 ↦ elim (ℕ_discrete p 6) [
            | yes e ↦ Placed-as p 6 v (pcb_in process_default 6) e at refl (λ l i.
                in_no_list 6 l (omega arith) (omega arith) (omega arith) (omega arith)
                  (omega arith))
            | no p6 ↦ elim (ℕ_discrete p 7) [
              | yes e ↦ Placed-as p 7 v late_pcb e at refl refl
              | no p7 ↦ elim (ℕ_discrete p 8) [
                | yes e ↦ Placed-as p 8 v zombie_pcb e at refl refl
                | no p8 ↦ absurd (ground (arith, at))
              ]
            ]
          ]
        ]
      ]
    ]
  ]
]

pub sample-Inv : Inv sample sample_lists sample_entries
sample-Inv = record {
  holds = sample-Holds;
  ready_in = refl;
  delay_in = refl;
  blocked_in = refl;
  zombie_in = refl;
  ready_ne_delay = omega arith;
  ready_ne_zombie = omega arith;
  delay_ne_zombie = omega arith;
  blocked_ne_ready = omega arith;
  blocked_ne_delay = omega arith;
  blocked_ne_zombie = omega arith;
  nodes = sample-nodes;
  heads = sample-heads;
  placed = sample-Placed;
}
