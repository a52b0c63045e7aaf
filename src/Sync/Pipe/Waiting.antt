-- ===== src/Sync/Pipe/Waiting.antt =====
-- sync.c: a pipe with the processes that wait for it, and how a reader is served.
use sasha_jakob.Base.{
  ℕ, ◌+◌, ◌<◌, ◌≤◌, ◌≡◌, ◌≢◌, refl, Option, some, is_some, true, List, ◌∷◌, ap, ◌∙◌, sym, arith,
  ==-refl, ==-ne, length, map, ◌∈◌, ℤ, pos, negsuc, pos_part, ℕ_discrete,
}
use sasha_jakob.Kernel.{
  Kernel, Hardware, Pipe, Pcb, process_default, process_ready, queue_node, readers, writers,
}
use sasha_jakob.Links.{Links, put, put-put, pop}
use sasha_jakob.Links.Heap.{pop-Holds}
use sasha_jakob.Process.Queue.{add_to_ready_queue}
use sasha_jakob.Process.Exit.{set_reg0}
use sasha_jakob.Process.Queue.Placed.{Inv, Inv-same, SameQueues}
use sasha_jakob.Sync.Waits.{Waits, readied, now_ready, ready-Inv, wake-Waits, Waits-keep}
use sasha_jakob.Sync.Pipe.Drain.{min_ℤ, serve_reader, release_reader}
use sasha_jakob.Sync.Pipe.Bytes.{take_loop}
use sasha_jakob.Sync.Pipe.Ring.{Ring}
use sasha_jakob.Sync.Pipe.Take.{drop, take_loop-Ring}

-- The memory that a process's call on a pipe names is mapped, and its position is a number.
abbrev pub HasBuffer : Kernel → ℕ → Type 0
HasBuffer k p =
    (v : Pcb) × (k.pcbs p ≡ some v)
    × ((w : ℕ) × (v.write_loc ≡ pos w))
    × ((i : ℕ) → i < pos_part v.pipe_len → is_some (k.bytes (v.pipe_buffer + i)) ≡ true)

-- The pipe `o` holds `bytes`, `rs` wait to read from it, and `ws` to write to it.
pub record Piped (hw : Hardware) (k : Kernel) (lists : List ℕ) (c : ℕ → List ℕ) (o : ℕ)
    (rs ws bytes : List ℕ) : Type 0 where
  pub inv : Inv k lists c
  pub reads : Waits k lists c (readers o) rs
  pub writes : Waits k lists c (writers o) ws
  pub pipe : (v : Pipe) × (k.pipes o ≡ some v) × Ring hw.pipe_buffer_len v bytes
  pub reader : (q : ℕ) → q ∈ rs → HasBuffer k q
  pub writer : (q : ℕ) → q ∈ ws → HasBuffer k q

abbrev pub KeepsBuffers : Kernel → Kernel → Type 0
KeepsBuffers k k' = (p : ℕ) → HasBuffer k p → HasBuffer k' p

-- One process's PCB has changed, and no memory is unmapped.
pub KeepsBuffers-put :
    (k k' : Kernel) (q : ℕ) (u : Pcb)
    → k'.pcbs ≡ put k.pcbs q u
    → ((a : ℕ) → is_some (k.bytes a) ≡ true → is_some (k'.bytes a) ≡ true)
    → (HasBuffer k q
        → ((w : ℕ) × (u.write_loc ≡ pos w))
          × ((i : ℕ) → i < pos_part u.pipe_len → is_some (k.bytes (u.pipe_buffer + i)) ≡ true))
    → KeepsBuffers k k'
KeepsBuffers-put k k' q u table mapped own p (v, at, loc, room) = elim (ℕ_discrete p q) [
  | yes e ↦
      let (loc', room') = own (v, ap k.pcbs (sym e) ∙ at, loc, room) in
      (
        u,
        ap (λ f. f p) table ∙ rw (e, ==-refl q) refl,
        loc',
        (λ i h. mapped (u.pipe_buffer + i) (room' i h)),
      )
  | no ne ↦ (
    v,
    ap (λ f. f p) table ∙ rw (==-ne p q ne) at,
    loc,
    (λ i h. mapped (v.pipe_buffer + i) (room i h)),
  )
]

pub still_there :
    (f : ℕ → Option Pcb) (q : ℕ) (u : Pcb) (p : ℕ)
    → is_some (f p) ≡ true
    → is_some (put f q u p) ≡ true
still_there f q u p h = elim (ℕ_discrete p q) [
  | yes e ↦ rw (e, ==-refl q) refl
  | no ne ↦ rw (==-ne p q ne) h
]

-- The first process of the list `w` has gone to the ready queue; another list `l` is what it was.
pub now_ready-other :
    (k : Kernel) (c : ℕ → List ℕ) (w q l : ℕ) (xs : List ℕ)
    → l ≢ w
    → l ≢ k.ready_queue
    → now_ready k c w q xs l ≡ c l
now_ready-other k c w q l xs nw nr = rw (==-ne l k.ready_queue nr, ==-ne l w nw) refl

-- The PCB of a reader that is served.
abbrev pub served : Pcb → ℤ → Pcb
served r n = record r {
  user_context = set_reg0 n r.user_context;
  waiting_pipe_id = negsuc 0;
  state = process_default;
}

-- A reader gets no more than it asks for, and no more than there is.
share-le : (len : ℤ) (n : ℕ) → pos_part (min_ℤ len (pos n)) ≤ n
share-le len n = ground arith

share-le-len : (len : ℤ) (n : ℕ) → pos_part (min_ℤ len (pos n)) ≤ pos_part len
share-le-len len n = ground arith

pub mem-head : (q : ℕ) (qs : List ℕ) → q ∈ (q ∷ qs)
mem-head q qs = ground arith

pub mem-tail : (x q : ℕ) (qs : List ℕ) → x ∈ qs → x ∈ (q ∷ qs)
mem-tail x q qs i = ground arith

serve-run :
    (hw : Hardware) (k1 k2 k' : Kernel) (o q : ℕ) (v : Pipe) (r : Pcb) (n : ℤ)
    → k1.pcbs q ≡ some r
    → k1.pipes o ≡ some v
    → v.bytes_in_buffer ≡ n
    → take_loop hw o (pos_part (min_ℤ r.pipe_len n)) r.pipe_buffer k1 ≡ some (tt, k2)
    → k2.pcbs q ≡ some r
    → add_to_ready_queue q (record k2 { pcbs = put k2.pcbs q (served r (min_ℤ r.pipe_len n)) })
      ≡ some (tt, k')
    → serve_reader hw o q k1 ≡ some (tt, k')
unfolding serve_reader release_reader
serve-run hw k1 k2 k' o q v r n at here counted taking at' readying =
    rw (at, here, counted, taking, at') readying

-- The first reader gets bytes from the pipe and is ready; the others wait on.
pub serve_reader-Piped :
    (hw : Hardware) (k : Kernel) (lists : List ℕ) (c : ℕ → List ℕ) (o q : ℕ) (qs ws bytes : List ℕ)
    → Piped hw k lists c o (q ∷ qs) ws bytes
    → (s1 : Links) × (pop (readers o) k.links ≡ some (queue_node q, s1))
      × ((k' : Kernel) × (serve_reader hw o q (record k { links = s1 }) ≡ some (tt, k'))
          × ((c' : ℕ → List ℕ) × (bytes' : List ℕ) × Piped hw k' lists c' o qs ws bytes')
          × (k'.current_process ≡ k.current_process))
serve_reader-Piped hw k lists c o q qs ws bytes h =
    let inv = h.inv in
    let (v, here, ring) = h.pipe in
    let (r, at, loc, room) = h.reader q (mem-head q qs) in
    let (real, _) = h.reads.alive q (mem-head q qs) in
    let (n, s1, popped, (front, holds, keeps)) =
      pop-Holds inv.holds (readers o) h.reads.listed (queue_node q) (map queue_node qs)
        h.reads.waits in
    let k1 : Kernel = record k { links = s1 } in
    let left = pos_part (min_ℤ r.pipe_len (pos (length bytes))) in
    let (_, kt, taking, ((v', here', ring'), _, _, mapped, frame)) =
      take_loop-Ring hw o left r.pipe_buffer k1 v bytes here ring
        (share-le r.pipe_len (length bytes))
        (λ i small. room i (omega (arith, small, share-le-len r.pipe_len (length bytes)))) in
    let k0 : Kernel = record k { bytes = kt.bytes; pipes = kt.pipes } in
    let u = served r (min_ℤ r.pipe_len (pos (length bytes))) in
    let queues : SameQueues k k0 = record {
      ready = refl;
      delay = refl;
      blocked = refl;
      zombie = refl;
    } in
    let (s2, readying, inv') =
      ready-Inv k0 lists c (readers o) q (map queue_node qs) r u s1 (Inv-same inv queues refl refl)
        h.reads.listed h.reads.waits at refl real holds keeps in
    let k' = readied k0 s1 s2 q u in
    let c' = now_ready k0 c (readers o) q (map queue_node qs) in
    let buffers : KeepsBuffers k k' =
      KeepsBuffers-put k k' q (record u { state = process_ready })
        (put-put k.pcbs q u (record u { state = process_ready })) mapped (λ _. (loc, room)) in
    let taken : take_loop hw o left r.pipe_buffer k1
        ≡ some (tt, record k1 { bytes = kt.bytes; pipes = kt.pipes }) =
      taking ∙ ap (λ x. some (tt, x)) frame in
    (
      s1,
      popped ∙ ap (λ x. some (x, s1)) front,
      (
        k',
        serve-run hw k1 (record k1 { bytes = kt.bytes; pipes = kt.pipes }) k' o q v r
            (pos (length bytes)) at here ring.counted taken at readying,
        (
          c',
          drop left bytes,
          record {
            inv = inv';
            reads =
                wake-Waits k0 lists c (readers o) q qs s1 s2 u
                  (Waits-keep k k0 lists c c (readers o) (q ∷ qs) h.reads queues refl (λ x e. e));
            writes =
                Waits-keep k k' lists c c' (writers o) ws h.writes
                  (record { ready = refl; delay = refl; blocked = refl; zombie = refl })
                  (now_ready-other k0 c (readers o) q (writers o) (map queue_node qs) (omega arith)
                    h.writes.ne_ready)
                  (λ x e.
                    still_there (put k.pcbs q u) q (record u { state = process_ready }) x
                      (still_there k.pcbs q u x e));
            pipe = (v', here', ring');
            reader = λ x i. buffers x (h.reader x (mem-tail x q qs i));
            writer = λ x i. buffers x (h.writer x i);
          },
        ),
        refl,
      ),
    )
