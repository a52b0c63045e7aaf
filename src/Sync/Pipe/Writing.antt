-- ===== src/Sync/Pipe/Writing.antt =====
-- sync.c: how SyncDrainWriters treats the first process that waits to write.
use mathlib.Core.Path.{fun_ext}
use mathlib.Core.Option.{some-injective}
use sasha_jakob.Base.{
  ℕ, suc, ◌+◌, ◌<◌, ◌≡◌, ◌≢◌, refl, Option, some, is_some, true, false, List, ◌∷◌, ap, ◌∙◌, sym,
  arith, subst, ==-refl, ==-ne, length, map, ◌∈◌, ℤ, pos, negsuc, pos_part, ltb_ℤ, eq_ℤ, ℕ_discrete,
  ◌==◌, ◌⊎◌, ◌&&◌, not, if◌then◌else◌, pure, ◌>>=◌,
}
use sasha_jakob.Kernel.{
  K, Kernel, Hardware, Pipe, Pcb, process_default, process_ready, queue_node, readers, writers,
  load_pipe, pcb_from_queue_node-queue_node,
}
use sasha_jakob.Links.{Links, null, put, put-put, pop, insert_head}
use sasha_jakob.Links.Chain.{IsNode}
use sasha_jakob.Links.Heap.{update, Holds, insert_head-Holds}
use sasha_jakob.Process.Queue.{add_to_ready_queue}
use sasha_jakob.Process.Exit.{set_reg0}
use sasha_jakob.Process.Queue.Placed.{Inv, Inv-same, Inv-move, Inv-modify, Placed-same, SameQueues}
use sasha_jakob.Process.Queue.Moves.{moved, is_free}
use sasha_jakob.Sync.Wake.{pop-Inv}
use sasha_jakob.Sync.Waits.{readied, now_ready, wake-Waits, Waits-keep}
use sasha_jakob.Sync.Pipe.Bytes.{fill_loop}
use sasha_jakob.Sync.Pipe.Drain.{release_writer, waiting, drain_writers, drain_readers}
use sasha_jakob.Sync.Pipe.Ring.{Ring}
use sasha_jakob.Sync.Pipe.Waiting.{
  Piped, KeepsBuffers, KeepsBuffers-put, still_there, now_ready-other, mem-head, mem-tail,
}

-- What SyncDrainWriters does at its end.
abbrev pub more_readers : Hardware → ℕ → ℕ → K (Unit {0})
more_readers hw fuel o = do
  v ← load_pipe o
  more ← waiting (readers o)
  if not (eq_ℤ v.bytes_in_buffer (pos 0)) && more then drain_readers hw fuel o else pure tt

-- The PCB of a writer that is through.
abbrev pub released : Pcb → ℤ → Pcb
released p len = record p {
  pipe_buffer = null;
  pipe_len = pos 0;
  write_loc = pos 0;
  waiting_pipe_id = negsuc 0;
  state = process_default;
  user_context = set_reg0 len p.user_context;
}

module _ (hw : Hardware) (k k2 : Kernel) (o q fuel : ℕ) (s1 : Links) (p p' : Pcb)
    (popped : pop (writers o) k.links ≡ some (queue_node q, s1)) (real : q ≢ null)
    (at : k.pcbs q ≡ some p)
    (filling : fill_loop hw
        (suc hw.pipe_buffer_len)
        o
        q
        p.pipe_buffer
        p.pipe_len
        (record k { links = s1 })
      ≡ some (tt, k2))
    (at' : k2.pcbs q ≡ some p') where
  no_null : (queue_node q == null) ≡ false
  no_null = ==-ne (queue_node q) null (omega (arith, real))

  pub released-run :
      (k' : Kernel)
      → ltb_ℤ p'.write_loc p.pipe_len ≡ false
      → add_to_ready_queue q (record k2 { pcbs = put k2.pcbs q (released p' p.pipe_len) })
        ≡ some (tt, k')
      → drain_writers hw (suc fuel) o k ≡ drain_writers hw fuel o k'
  unfolding drain_writers release_writer
  released-run k' through readying =
      rw
        (
          popped,
          no_null,
          pcb_from_queue_node-queue_node q,
          at,
          filling,
          at',
          through,
          at',
          readying,
        )
        refl

  pub requeued-run :
      (s3 : Links)
      → ltb_ℤ p'.write_loc p.pipe_len ≡ true
      → insert_head (writers o) (queue_node q) k2.links ≡ some (tt, s3)
      → drain_writers hw (suc fuel) o k ≡ more_readers hw fuel o (record k2 { links = s3 })
  unfolding drain_writers
  requeued-run s3 more inserted =
      rw (popped, no_null, pcb_from_queue_node-queue_node q, at, filling, at', more, inserted) refl

abbrev pub filled : Kernel → (ℕ → Option Pipe) → ℕ → Pcb → Kernel
filled k pipes q p' = record k { pipes = pipes; pcbs = put k.pcbs q p' }

module _ (k : Kernel) (lists : List ℕ) (c : ℕ → List ℕ) (inv : Inv k lists c)
    (pipes : ℕ → Option Pipe) (q : ℕ) (p p' : Pcb) (at : k.pcbs q ≡ some p)
    (same : p'.state ≡ p.state) where
  pub filled-Inv : Inv (filled k pipes q p') lists c
  filled-Inv =
      Inv-same (Inv-modify q p p' inv at same)
        (record { ready = refl; delay = refl; blocked = refl; zombie = refl }) refl refl

  module _ (w : ℕ) (listed : w ∈ lists) (xs : List ℕ) (entries : c w ≡ queue_node q ∷ xs) where
    -- The first node of a list is taken out and put back to its front.
    put_back : update (update c w xs) w (queue_node q ∷ update c w xs w) ≡ c
    put_back = fun_ext (λ x. elim (ℕ_discrete x w) [
      | yes e ↦ rw (e, ==-refl w) (sym entries)
      | no ne ↦ rw (==-ne x w ne) refl
    ])

    pub requeued-Inv :
        (s1 : Links)
        → Holds s1 lists (update c w xs)
        → ((x : ℕ) → IsNode k.links x → IsNode s1 x)
        → (s3 : Links) × (insert_head w (queue_node q) s1 ≡ some (tt, s3))
          × Inv (record (filled k pipes q p') { links = s3 }) lists c
    requeued-Inv s1 holds keeps =
        let idle : Pcb = record p { state = process_default } in
        let out = pop-Inv w q xs p idle s1 inv listed entries at refl holds keeps in
        let (_, s3, run, (holds3, keeps3)) =
          insert_head-Holds holds w listed (queue_node q) (keeps (queue_node q) (inv.nodes q p at))
            (is_free (moved k s1 q idle) lists (update c w xs) out q idle (rw (==-refl q) refl)
              refl) in
        let k' = record (filled k pipes q p') { links = s3 } in
        let queues : SameQueues k k' = record {
          ready = refl;
          delay = refl;
          blocked = refl;
          zombie = refl;
        } in
        (
          s3,
          run,
          Inv-move c q p' inv queues (subst (Holds s3 lists) put_back holds3)
              (λ x i. keeps3 x (keeps x i)) refl (inv.nodes q p at) (λ r ne m. refl)
              (rw same (
                Placed-same k k' lists c c p.state (queue_node q) queues (λ l. refl)
                  (inv.placed q p at))),
        )

-- Either the first writer is through and ready, and the others wait on, or the pipe is full and the
-- writer waits on at the front.
abbrev pub Writes :
    Hardware → Kernel → List ℕ → ℕ → (rs : List ℕ) → ℕ → (qs : List ℕ) → ℕ → Kernel → Type 0
Writes hw k lists o rs q qs fuel k' =
    ((drain_writers hw (suc fuel) o k ≡ drain_writers hw fuel o k')
      × ((c' : ℕ → List ℕ) × (bytes' : List ℕ) × Piped hw k' lists c' o rs qs bytes'))
    ⊎ ((drain_writers hw (suc fuel) o k ≡ more_readers hw fuel o k')
        × ((c' : ℕ → List ℕ) × (bytes' : List ℕ) × Piped hw k' lists c' o rs (q ∷ qs) bytes'
            × (length bytes' ≡ hw.pipe_buffer_len)))

module _ (hw : Hardware) (k : Kernel) (lists : List ℕ) (c : ℕ → List ℕ) (o : ℕ) (rs : List ℕ)
    (q : ℕ) (qs bytes : List ℕ) (h : Piped hw k lists c o rs (q ∷ qs) bytes)
    (pipes : ℕ → Option Pipe) (v' : Pipe) (held : pipes o ≡ some v') (p p' : Pcb)
    (at : k.pcbs q ≡ some p) (same : p'.state ≡ p.state) where
  own_step : (u : Pcb) (x : ℕ) → is_some (k.pcbs x) ≡ true → is_some (put k.pcbs q u x) ≡ true
  own_step u x e = still_there k.pcbs q u x e

  pub released-Piped :
      (bytes' : List ℕ) (s1 s2 : Links) (len : ℤ)
      → Ring hw.pipe_buffer_len v' bytes'
      → Inv
          (readied (filled k pipes q p') s1 s2 q (released p' len))
          lists
          (now_ready (filled k pipes q p') c (writers o) q (map queue_node qs))
      → Piped hw
          (readied (filled k pipes q p') s1 s2 q (released p' len))
          lists
          (now_ready (filled k pipes q p') c (writers o) q (map queue_node qs))
          o
          rs
          qs
          bytes'
  released-Piped bytes' s1 s2 len ring inv' =
      let k0 = filled k pipes q p' in
      let u = released p' len in
      let k' = readied k0 s1 s2 q u in
      let last : Pcb = record u { state = process_ready } in
      let queues : SameQueues k k' = record {
        ready = refl;
        delay = refl;
        blocked = refl;
        zombie = refl;
      } in
      let table : k'.pcbs ≡ put k.pcbs q last =
        put-put (put k.pcbs q p') q u last ∙ put-put k.pcbs q p' last in
      let still : (x : ℕ) → is_some (k.pcbs x) ≡ true → is_some (k'.pcbs x) ≡ true =
        λ x e. ap (λ f. is_some (f x)) table ∙ own_step last x e in
      let buffers : KeepsBuffers k k' =
        KeepsBuffers-put k k' q last table (λ a e. e)
          (λ _. ((0, refl), λ i small. elim small [ ])) in
      record {
        inv = inv';
        reads =
            Waits-keep k k' lists c _ (readers o) rs h.reads queues
              (now_ready-other k0 c (writers o) q (readers o) (map queue_node qs) (omega arith)
                h.reads.ne_ready)
              still;
        writes = wake-Waits k0 lists c (writers o) q qs s1 s2 u (
            Waits-keep k k0 lists c c (writers o) (q ∷ qs) h.writes
              (record { ready = refl; delay = refl; blocked = refl; zombie = refl }) refl
              (own_step p'));
        pipe = (v', held, ring);
        reader = λ x i. buffers x (h.reader x i);
        writer = λ x i. buffers x (h.writer x (mem-tail x q qs i));
      }

  pub requeued-Piped :
      (bytes' : List ℕ) (s3 : Links) (w : ℕ)
      → Ring hw.pipe_buffer_len v' bytes'
      → p' ≡ record p { write_loc = pos w }
      → Inv (record (filled k pipes q p') { links = s3 }) lists c
      → Piped hw (record (filled k pipes q p') { links = s3 }) lists c o rs (q ∷ qs) bytes'
  requeued-Piped bytes' s3 w ring is inv' =
      let k' = record (filled k pipes q p') { links = s3 } in
      let queues : SameQueues k k' = record {
        ready = refl;
        delay = refl;
        blocked = refl;
        zombie = refl;
      } in
      let (r, at_r, _, room) = h.writer q (mem-head q qs) in
      let twin : r ≡ p = some-injective _ _ (sym at_r ∙ at) in
      let buffers : KeepsBuffers k k' =
        KeepsBuffers-put k k' q p' refl (λ a e. e)
          (λ _. (
            (w, ap (λ x. x.write_loc) is),
            rw is (
                subst
                  (λ x.
                    (i : ℕ)
                    → i < pos_part x.pipe_len
                    → is_some (k.bytes (x.pipe_buffer + i)) ≡ true)
                  twin room),
          )) in
      record {
        inv = inv';
        reads = Waits-keep k k' lists c c (readers o) rs h.reads queues refl (own_step p');
        writes = Waits-keep k k' lists c c (writers o) (q ∷ qs) h.writes queues refl (own_step p');
        pipe = (v', held, ring);
        reader = λ x i. buffers x (h.reader x i);
        writer = λ x i. buffers x (h.writer x i);
      }
