-- ===== src/Sync/Pipe/Drained.antt =====
-- sync.c: the rounds of SyncDrainWriters and SyncDrainReaders.
use sasha_jakob.Base.{
  ℕ, suc, ◌+◌, ◌<◌, ◌≡◌, refl, Option, some, true, false, List, [], ◌∷◌, ◌++◌, ap, ◌∙◌, arith,
  ==-refl, ==-ne, length, map, pos, ltb_ℤ, eq_ℤ, Ends, Bool-cases, inl, inr, ◌⊎◌, not,
  if◌then◌else◌, pure, is_positive, ◌==◌,
}
use sasha_jakob.Kernel.{
  Kernel, Hardware, Pcb, queue_node, readers, writers, pcb_from_queue_node-queue_node,
}
use sasha_jakob.Links.{null, put, pop}
use sasha_jakob.Links.Heap.{pop-Holds}
use sasha_jakob.Links.Remove.{pop-nil}
use sasha_jakob.Sync.Waits.{readied, ready-Inv, Waits-count}
use sasha_jakob.Sync.Pipe.Bytes.{fill_loop}
use sasha_jakob.Sync.Pipe.Drain.{waiting, drain_writers, drain_readers}
use sasha_jakob.Sync.Pipe.Fill.{fill_loop-Fills}
use sasha_jakob.Sync.Pipe.Waiting.{Piped, serve_reader-Piped, mem-head}
use sasha_jakob.Sync.Pipe.Writing.{
  Writes, more_readers, released, filled, filled-Inv, released-run, requeued-run, requeued-Inv,
  released-Piped, requeued-Piped,
}

-- One round of SyncDrainWriters for a process that waits to write.
pub writer_step :
    (hw : Hardware) (k : Kernel) (lists : List ℕ) (c : ℕ → List ℕ) (o : ℕ) (rs : List ℕ) (q : ℕ)
    (qs bytes : List ℕ) (fuel : ℕ)
    → Piped hw k lists c o rs (q ∷ qs) bytes
    → (k' : Kernel) × (k'.current_process ≡ k.current_process) × Writes hw k lists o rs q qs fuel k'
writer_step hw k lists c o rs q qs bytes fuel h =
    let n = hw.pipe_buffer_len in
    let w = writers o in
    let inv = h.inv in
    let (v, here, ring) = h.pipe in
    let (p, at, (l, loc), room) = h.writer q (mem-head q qs) in
    let (real, _) = h.writes.alive q (mem-head q qs) in
    let (m, s1, pops, (front, holds, keeps)) =
      pop-Holds inv.holds w h.writes.listed (queue_node q) (map queue_node qs) h.writes.waits in
    let popped : pop w k.links ≡ some (queue_node q, s1) = pops ∙ ap (λ x. some (x, s1)) front in
    let k1 : Kernel = record k { links = s1 } in
    let (_, kt, fills, (more, _, (v', here', ring'), table, stop, frame)) =
      fill_loop-Fills hw k1 o q p.pipe_buffer p.pipe_len (suc n) v p l bytes here ring at loc
        (omega arith) room in
    let p' : Pcb = record p { write_loc = pos (l + length more) } in
    let k2 : Kernel = record k1 { pipes = kt.pipes; pcbs = put k.pcbs q p' } in
    let filling : fill_loop hw (suc n) o q p.pipe_buffer p.pipe_len k1 ≡ some (tt, k2) =
      fills
      ∙ ap (λ x. some (tt, x)) frame
      ∙ ap (λ f. some (tt, record k1 { pipes = kt.pipes; pcbs = f })) table in
    let at' : k2.pcbs q ≡ some p' = rw (==-refl q) refl in
    elim (Bool-cases (ltb_ℤ (pos (l + length more)) p.pipe_len)) [
      | inr through ↦
          let u = released p' p.pipe_len in
          let (s2, readying, inv') =
            ready-Inv (filled k kt.pipes q p') lists c w q (map queue_node qs) p' u s1
              (filled-Inv k lists c inv kt.pipes q p p' at refl) h.writes.listed h.writes.waits at'
              refl real holds keeps in
          (
            readied (filled k kt.pipes q p') s1 s2 q u,
            refl,
            inl (
              released-run hw k k2 o q fuel s1 p p' popped real at filling at' _ through readying,
              (
                _,
                bytes ++ more,
                released-Piped hw k lists c o rs q qs bytes h kt.pipes v' here' p p' at refl
                    (bytes ++ more) s1 s2 p.pipe_len ring' inv',
              ),
            ),
          )
      | inl on ↦
          let (s3, inserted, inv') =
            requeued-Inv k lists c inv kt.pipes q p p' at refl w h.writes.listed (map queue_node qs)
              h.writes.waits s1 holds keeps in
          let full : length (bytes ++ more) ≡ n = elim stop [ inl e ↦ e | inr e ↦ absurd (cc) ] in
          (
            record (filled k kt.pipes q p') { links = s3 },
            refl,
            inr (
              requeued-run hw k k2 o q fuel s1 p p' popped real at filling at' s3 on inserted,
              (
                c,
                bytes ++ more,
                requeued-Piped hw k lists c o rs q qs bytes h kt.pipes v' here' p p' at refl
                    (bytes ++ more) s3 (l + length more) ring' refl inv',
                full,
              ),
            ),
          )
    ]

-- The run ends with the processes `rs'` and `ws'` still waiting, which are the last of those that waited.
-- None waits to read while a byte is in the pipe or a process waits to write.
abbrev pub Drained :
    Hardware → Kernel → List ℕ → ℕ → (rs ws : List ℕ) → Option (Unit {0} × Kernel) → Type 0
Drained hw k lists o rs ws r = Ends r λ _ k'.
    (c' : ℕ → List ℕ) × (rs' : List ℕ) × (ws' : List ℕ) × (bytes' : List ℕ) × Piped hw k' lists c' o
      rs' ws' bytes'
    × ((rs' ≡ []) ⊎ ((bytes' ≡ []) × (ws' ≡ [])))
    × ((front : List ℕ) × (rs ≡ front ++ rs'))
    × ((front : List ℕ) × (ws ≡ front ++ ws'))
    × (k'.current_process ≡ k.current_process)

module _ (hw : Hardware) (k : Kernel) (lists : List ℕ) (o : ℕ) (rs ws : List ℕ)
    (r : Option (Unit {0} × Kernel)) where
  pub Drained-at_once :
      (c : ℕ → List ℕ) (bytes : List ℕ)
      → Piped hw k lists c o rs ws bytes
      → (rs ≡ []) ⊎ ((bytes ≡ []) × (ws ≡ []))
      → r ≡ some (tt, k)
      → Drained hw k lists o rs ws r
  Drained-at_once c bytes h stop run =
      (tt, k, run, (c, rs, ws, bytes, h, stop, ([], refl), ([], refl), refl))

  pub Drained-later :
      (k1 : Kernel) (r1 : Option (Unit {0} × Kernel))
      → k1.current_process ≡ k.current_process
      → r ≡ r1
      → Drained hw k1 lists o rs ws r1
      → Drained hw k lists o rs ws r
  Drained-later k1 r1 current run (_, k', run1, (c', rs', ws', bytes', h, stop, fr, fw, same)) =
      (tt, k', run ∙ run1, (c', rs', ws', bytes', h, stop, fr, fw, same ∙ current))

  pub Drained-reader :
      (k1 : Kernel) (q : ℕ) (r1 : Option (Unit {0} × Kernel))
      → k1.current_process ≡ k.current_process
      → r ≡ r1
      → Drained hw k1 lists o rs ws r1
      → Drained hw k lists o (q ∷ rs) ws r
  Drained-reader k1 q r1 current run
        (_, k', run1, (c', rs', ws', bytes', h, stop, (f, e), fw, same)) =
      (
        tt,
        k',
        run ∙ run1,
        (c', rs', ws', bytes', h, stop, (q ∷ f, ap (λ xs. q ∷ xs) e), fw, same ∙ current),
      )

  pub Drained-writer :
      (k1 : Kernel) (q : ℕ) (r1 : Option (Unit {0} × Kernel))
      → k1.current_process ≡ k.current_process
      → r ≡ r1
      → Drained hw k1 lists o rs ws r1
      → Drained hw k lists o rs (q ∷ ws) r
  Drained-writer k1 q r1 current run
        (_, k', run1, (c', rs', ws', bytes', h, stop, fr, (f, e), same)) =
      (
        tt,
        k',
        run ∙ run1,
        (c', rs', ws', bytes', h, stop, fr, (q ∷ f, ap (λ xs. q ∷ xs) e), same ∙ current),
      )

module _ (hw : Hardware) (k : Kernel) (lists : List ℕ) (c : ℕ → List ℕ) (o fuel : ℕ) where
  pub waiting-run :
      (rs ws bytes : List ℕ)
      → Piped hw k lists c o rs ws bytes
      → waiting (readers o) k ≡ some (not (eq_ℤ (pos (length rs)) (pos 0)), k)
  unfolding waiting
  waiting-run rs ws bytes h = rw (Waits-count k lists c (readers o) rs h.inv h.reads) refl

  pub no_writer :
      (rs bytes : List ℕ)
      → Piped hw k lists c o rs [] bytes
      → drain_writers hw (suc fuel) o k ≡ more_readers hw fuel o k
  unfolding drain_writers
  no_writer rs bytes h =
      rw
        (pop-nil k.links (writers o)
          (rw (h.writes.waits) at (h.inv.holds.each (writers o) h.writes.listed)))
        refl

  pub more_readers-Drained :
      (rs ws bytes : List ℕ)
      → Piped hw k lists c o rs ws bytes
      → (ws ≡ []) ⊎ (0 < length bytes)
      → (0 < length bytes → Drained hw k lists o rs ws (drain_readers hw fuel o k))
      → Drained hw k lists o rs ws (more_readers hw fuel o k)
  more_readers-Drained [] ws bytes h some_byte further =
      let (v, here, ring) = h.pipe in
      Drained-at_once hw k lists o [] ws (more_readers hw fuel o k) c bytes h (inl refl)
        (rw (here, waiting-run [] ws bytes h) (ground arith))
  more_readers-Drained (r ∷ rs) ws [] h (inl none_writes) further =
      let (v, here, ring) = h.pipe in
      Drained-at_once hw k lists o (r ∷ rs) ws (more_readers hw fuel o k) c [] h
        (inr (refl, none_writes)) (rw (here, waiting-run (r ∷ rs) ws [] h, ring.counted) refl)
  more_readers-Drained (r ∷ rs) ws [] h (inr some_byte) further = absurd (omega (arith, some_byte))
  more_readers-Drained (r ∷ rs) ws (b ∷ bytes) h some_byte further =
      let (v, here, ring) = h.pipe in
      Drained-later hw k lists o (r ∷ rs) ws (more_readers hw fuel o k) k
        (drain_readers hw fuel o k) refl
        (rw (here, waiting-run (r ∷ rs) ws (b ∷ bytes) h, ring.counted) (ground arith))
        (further (omega arith))

  -- SyncDrainReaders where the pipe is empty, and where it is not.
  pub readers_empty :
      (rs ws : List ℕ)
      → Piped hw k lists c o rs ws []
      → drain_readers hw (suc fuel) o k
        ≡ (if not (eq_ℤ (pos (length rs)) (pos 0)) then drain_writers hw fuel o else pure tt) k
  unfolding drain_readers
  readers_empty rs ws h =
      let (v, here, ring) = h.pipe in
      let room : ltb_ℤ (pos 0) (pos hw.pipe_buffer_len) ≡ true = ground (arith, ring.start) in
      rw (here, ring.counted, waiting-run rs ws [] h, room) refl

  pub no_reader :
      (ws : List ℕ) (b : ℕ) (bytes : List ℕ)
      → Piped hw k lists c o [] ws (b ∷ bytes)
      → drain_readers hw (suc fuel) o k ≡ some (tt, k)
  unfolding drain_readers
  no_reader ws b bytes h =
      let (v, here, ring) = h.pipe in
      let some_byte : is_positive (pos (suc (length bytes))) ≡ true = ground arith in
      rw
        (
          here,
          ring.counted,
          some_byte,
          pop-nil k.links (readers o)
              (rw (h.reads.waits) at (h.inv.holds.each (readers o) h.reads.listed)),
          waiting-run [] ws (b ∷ bytes) h,
        )
        (ground arith)

  pub a_reader :
      (q : ℕ) (qs ws : List ℕ) (b : ℕ) (bytes : List ℕ)
      → Piped hw k lists c o (q ∷ qs) ws (b ∷ bytes)
      → (k' : Kernel) × (drain_readers hw (suc fuel) o k ≡ drain_readers hw fuel o k')
        × ((c' : ℕ → List ℕ) × (bytes' : List ℕ) × Piped hw k' lists c' o qs ws bytes')
        × (k'.current_process ≡ k.current_process)
  unfolding drain_readers
  a_reader q qs ws b bytes h =
      let (v, here, ring) = h.pipe in
      let (real, _) = h.reads.alive q (mem-head q qs) in
      let (s1, popped, (k', serves, piped, current)) =
        serve_reader-Piped hw k lists c o q qs ws (b ∷ bytes) h in
      let some_byte : is_positive (pos (suc (length bytes))) ≡ true = ground arith in
      let no_null : (queue_node q == null) ≡ false =
        ==-ne (queue_node q) null (omega (arith, real)) in
      (
        k',
        rw
            (
              here,
              ring.counted,
              some_byte,
              popped,
              no_null,
              pcb_from_queue_node-queue_node q,
              serves,
            )
            refl,
        piped,
        current,
      )
