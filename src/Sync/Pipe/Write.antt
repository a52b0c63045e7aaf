-- ===== src/Sync/Pipe/Write.antt =====
-- sync.c: SyncWritePipe of bytes that fit.
use mathlib.Core.Option.{some-injective}
use mathlib.Core.List.{append_assoc, append-nil}
use sasha_jakob.Base.{
  ◌>>=◌, ℕ, zero, suc, ◌+◌, ◌<◌, ◌≤◌, ◌≡◌, refl, Option, some, true, false, List, [], ◌∷◌, ◌++◌, ap,
  ◌∙◌, sym, arith, ==-refl, length, length-append, get_elem?, Ends, pos, ltb_ℤ, pos_part, success,
  subst, sub_ℤ, ◌-◌, ℤ,
}
use sasha_jakob.Links.{put, put-put}
use sasha_jakob.Kernel.{Kernel, Hardware, Pipe, Pcb, pipe}
use sasha_jakob.Process.Exit.{set_reg0}
use sasha_jakob.Sync.Table.Names.{Names, get_check_sync-Names}
use sasha_jakob.Sync.Pipe.{sync_write_pipe}
use sasha_jakob.Sync.Pipe.Bytes.{send_loop, write_byte}
use sasha_jakob.Sync.Pipe.Drain.{drain_readers, drain_fuel}
use sasha_jakob.Sync.Pipe.Ring.{Ring}
use sasha_jakob.Sync.Pipe.Fill.{write_byte-Ring}
use sasha_jakob.Sync.Pipe.Caller.{caller-Piped, same_buffer}
use sasha_jakob.Sync.Pipe.Waiting.{Piped}
use sasha_jakob.Sync.Pipe.Drained.{Drained}
use sasha_jakob.Sync.Pipe.Drains.{drain_readers-Drained}

-- The writer `q` when it has written `w` bytes, and the pipes then.
abbrev sent : Kernel → (q w : ℕ) → (ℕ → Option Pipe) → Pcb → Kernel
sent k q w ps u = record k { pipes = ps; pcbs = put k.pcbs q (record u { write_loc = pos w }) }

write_byte-sent :
    (hw : Hardware) (k : Kernel) (o q src b w : ℕ) (ps : ℕ → Option Pipe) (v : Pipe) (u : Pcb)
    (bytes : List ℕ)
    → ps o ≡ some v
    → Ring hw.pipe_buffer_len v bytes
    → length bytes < hw.pipe_buffer_len
    → k.bytes (src + w) ≡ some b
    → (v' : Pipe) × (write_byte hw o q src (sent k q w ps u)
        ≡ some (tt, sent k q (suc w) (put ps o v') u))
      × Ring hw.pipe_buffer_len v' (bytes ++ b ∷ [])
      × (v'.open_for_read ≡ v.open_for_read)
write_byte-sent hw k o q src b w ps v u bytes here r free cell =
    let (v', run, ring, opened) =
      write_byte-Ring hw (sent k q w ps u) o q src b v (record u { write_loc = pos w }) w bytes here
        r free (rw (==-refl q) refl) refl cell in
    (
      v',
      run
          ∙ ap (λ f. some (tt, record k { pipes = put ps o v'; pcbs = f }))
              (put-put k.pcbs q (record u { write_loc = pos w })
                (record u { write_loc = pos (suc w) })),
      ring,
      opened,
    )

send-step :
    (hw : Hardware) (k : Kernel) (o q src len left w : ℕ) (ps ps' : ℕ → Option Pipe) (u : Pcb)
    → w < len
    → write_byte hw o q src (sent k q w ps u) ≡ some (tt, sent k q (suc w) ps' u)
    → send_loop hw (suc left) o q src (pos len) (sent k q w ps u)
      ≡ send_loop hw left o q src (pos len) (sent k q (suc w) ps' u)
unfolding send_loop
send-step hw k o q src len left w ps ps' u less run =
    let more : ltb_ℤ (pos w) (pos len) ≡ true = ground (arith, less) in
    rw (==-refl q, more, run) refl

send-stop :
    (hw : Hardware) (k : Kernel) (o q src len left : ℕ) (ps : ℕ → Option Pipe) (u : Pcb)
    → send_loop hw left o q src (pos len) (sent k q len ps u) ≡ some (tt, sent k q len ps u)
unfolding send_loop
send-stop hw k o q src len zero ps u = refl
send-stop hw k o q src len (suc left) ps u =
    let through : ltb_ℤ (pos len) (pos len) ≡ false = ground arith in rw (==-refl q, through) refl

-- Bytes that fit go to the end of the pipe, in their order.
send_loop-Sends :
    (hw : Hardware) (k : Kernel) (o q src len left w : ℕ) (ps : ℕ → Option Pipe) (v : Pipe)
    (u : Pcb) (bytes more : List ℕ)
    → ps o ≡ some v
    → Ring hw.pipe_buffer_len v bytes
    → w + length more ≡ len
    → length more ≤ left
    → length bytes + left ≤ hw.pipe_buffer_len
    → ((i : ℕ) → i < length more → k.bytes (src + (w + i)) ≡ get_elem? more i)
    → (ps' : ℕ → Option Pipe) × (v' : Pipe) × (ps' o ≡ some v')
      × Ring hw.pipe_buffer_len v' (bytes ++ more)
      × (v'.open_for_read ≡ v.open_for_read)
      × (send_loop hw left o q src (pos len) (sent k q w ps u) ≡ some (tt, sent k q len ps' u))
send_loop-Sends hw k o q src len left w ps v u bytes [] here r all room fits cells =
    let same : w ≡ len = omega (arith, all) in
    (
      ps,
      v,
      here,
      rw (append-nil bytes) r,
      refl,
      ap (λ x. send_loop hw left o q src (pos len) (sent k q x ps u)) same
          ∙ send-stop hw k o q src len left ps u,
    )
send_loop-Sends hw k o q src len zero w ps v u bytes (b ∷ more) here r all room fits cells =
    absurd (omega (arith, room))
send_loop-Sends hw k o q src len (suc left) w ps v u bytes (b ∷ more) here r all room fits cells =
    let cell : k.bytes (src + w) ≡ some b = ap k.bytes (omega arith) ∙ cells 0 (omega arith) in
    let (v1, run, ring, opened) =
      write_byte-sent hw k o q src b w ps v u bytes here r (omega (arith, fits)) cell in
    let (ps', v', there, ring', opened', run') =
      send_loop-Sends hw k o q src len left (suc w) (put ps o v1) v1 u (bytes ++ b ∷ []) more
        (rw (==-refl o) refl) ring (omega (arith, all)) (omega (arith, room))
        (omega (arith, fits, length-append bytes (b ∷ [])))
        (λ i h. ap k.bytes (omega arith) ∙ cells (suc i) (omega (arith, h))) in
    (
      ps',
      v',
      there,
      rw (← append_assoc bytes (b ∷ []) more) ring',
      opened' ∙ opened,
      send-step hw k o q src len left w ps (put ps o v1) u (omega (arith, all)) run ∙ run',
    )

-- The PCB of a writer that is through, and the kernel then.
abbrev pub through : Pcb → ℕ → Pcb
through u len = record u { write_loc = pos len; user_context = set_reg0 (pos len) u.user_context }

abbrev pub wrote : Kernel → ℕ → (ℕ → Option Pipe) → Pcb → Kernel
wrote k len ps u = record k { pipes = ps; pcbs = put k.pcbs k.current_process (through u len) }

write-run :
    (hw : Hardware) (k k' : Kernel) (id sync o buf len left fuel : ℕ) (v : Pipe) (u : Pcb)
    (ps : ℕ → Option Pipe)
    → Names k id sync pipe o
    → k.pipes o ≡ some v
    → v.open_for_write ≡ true
    → pos_part (sub_ℤ (pos hw.pipe_buffer_len) v.bytes_in_buffer) ≡ left
    → k.pcbs k.current_process ≡ some u
    → send_loop hw left o k.current_process buf (pos len) (sent k k.current_process 0 k.pipes u)
      ≡ some (tt, sent k k.current_process len ps u)
    → drain_fuel o (wrote k len ps u) ≡ some (fuel, wrote k len ps u)
    → drain_readers hw fuel o (wrote k len ps u) ≡ some (tt, k')
    → sync_write_pipe hw (pos id) buf (pos len) k ≡ some (success, k')
unfolding sync_write_pipe
write-run hw k k' id sync o buf len left fuel v u ps names here opened space at run fueled drained =
    let done : ltb_ℤ (pos len) (pos len) ≡ false = ground arith in
    let q = k.current_process in
    let once = put-put k.pcbs q (record u { write_loc = pos len }) (through u len) in
    rw
      (
        get_check_sync-Names pipe names,
        names.object,
        here,
        opened,
        space,
        at,
        run,
        ==-refl q,
        done,
        ==-refl q,
        once,
        fueled,
        drained,
      )
      refl

-- What the pipe is, and what those that wait for it came to.
abbrev pub Writes :
    Hardware
    → Kernel
    → List ℕ
    → (ℕ → List ℕ)
    → (o len : ℕ) → Pcb
    → (rs ws bytes : List ℕ) → ℤ
    → Kernel
    → Type 0
Writes hw k lists c o len u rs ws bytes rc k' =
    (rc ≡ success)
    × (ps : ℕ → Option Pipe) × Piped hw (wrote k len ps u) lists c o rs ws bytes
    × ((do fuel ← drain_fuel o; drain_readers hw fuel o) (wrote k len ps u) ≡ some (tt, k'))
    × Drained hw (wrote k len ps u) lists o rs ws (some (tt, k'))

-- Up to the call of SyncDrainReaders: the pipe is open for reading if it was.
pub write_until :
    (hw : Hardware) (k : Kernel) (lists : List ℕ) (c : ℕ → List ℕ) (o : ℕ)
    (rs ws bytes more : List ℕ)
    → Piped hw k lists c o rs ws bytes
    → (u : Pcb) (id sync buf : ℕ) (v : Pipe) → k.pcbs k.current_process ≡ some u
    → Names k id sync pipe o
    → k.pipes o ≡ some v
    → v.open_for_write ≡ true
    → length bytes + length more ≤ hw.pipe_buffer_len
    → ((i : ℕ) → i < length more → k.bytes (buf + i) ≡ get_elem? more i)
    → (ps : ℕ → Option Pipe) × (v' : Pipe) × (ps o ≡ some v')
      × (v'.open_for_read ≡ v.open_for_read)
      × Piped hw (wrote k (length more) ps u) lists c o rs ws (bytes ++ more)
      × ((fuel : ℕ) (k' : Kernel)
          → drain_fuel o (wrote k (length more) ps u) ≡ some (fuel, wrote k (length more) ps u)
          → drain_readers hw fuel o (wrote k (length more) ps u) ≡ some (tt, k')
          → sync_write_pipe hw (pos id) buf (pos (length more)) k ≡ some (success, k'))
write_until hw k lists c o rs ws bytes more h u id sync buf v at names here opened fits cells =
    let (v0, here0, ring0) = h.pipe in
    let ring : Ring hw.pipe_buffer_len v bytes =
      subst (λ x. Ring hw.pipe_buffer_len x bytes) (some-injective _ _ (sym here0 ∙ here)) ring0 in
    let len = length more in
    let left = hw.pipe_buffer_len - length bytes in
    let space : pos_part (sub_ℤ (pos hw.pipe_buffer_len) v.bytes_in_buffer) ≡ left =
      ap (λ z. pos_part (sub_ℤ (pos hw.pipe_buffer_len) z)) ring.counted ∙ ground (arith, fits) in
    let (ps, v', there, ring', same, run) =
      send_loop-Sends hw k o k.current_process buf len left 0 k.pipes v u bytes more here ring
        (omega arith) (omega (arith, fits)) (omega (arith, ring.room))
        (λ i small. ap k.bytes (omega arith) ∙ cells i small) in
    let piped =
      caller-Piped hw k lists c o rs ws bytes h k.current_process u (through u len) k.bytes ps
        (bytes ++ more) at refl
        (λ has. let (_, room) = same_buffer k k.current_process u at has in ((len, refl), room))
        (λ a e. e) (v', there, ring') in
    (
      ps,
      v',
      there,
      same,
      piped,
      λ fuel k'.
          write-run hw k k' id sync o buf len left fuel v u ps names here opened space at run,
    )

-- SyncWritePipe of bytes that fit into a pipe that is open for writing ends. The bytes stand at the end of
-- the pipe, in their order, behind those that were there, and the writer gets their number as the result
-- of its call; of the kernel nothing but the pipes and the writer is changed by that. Then
-- SyncDrainReaders runs, which ends: none waits to read while a byte is in the pipe, and those that still
-- wait are the last of those that waited.
pub sync_write_pipe_lem :
    (hw : Hardware) (k : Kernel) (lists : List ℕ) (c : ℕ → List ℕ) (o : ℕ)
    (rs ws bytes more : List ℕ)
    → Piped hw k lists c o rs ws bytes
    → (u : Pcb) (id sync buf : ℕ) (v : Pipe) → k.pcbs k.current_process ≡ some u
    → Names k id sync pipe o
    → k.pipes o ≡ some v
    → v.open_for_write ≡ true
    → length bytes + length more ≤ hw.pipe_buffer_len
    → ((i : ℕ) → i < length more → k.bytes (buf + i) ≡ get_elem? more i)
    → Ends
        (sync_write_pipe hw (pos id) buf (pos (length more)) k)
        (Writes hw k lists c o (length more) u rs ws (bytes ++ more))
sync_write_pipe_lem hw k lists c o rs ws bytes more h u id sync buf v at names here opened fits
      cells =
    let (ps, _, _, _, piped, rest) =
      write_until hw k lists c o rs ws bytes more h u id sync buf v at names here opened fits
        cells in
    let (fuel, fueled, (_, k', drain, drained)) =
      drain_readers-Drained hw (wrote k (length more) ps u) lists c o rs ws (bytes ++ more) piped in
    (
      success,
      k',
      rest fuel k' fueled drain,
      (refl, ps, piped, rw fueled drain, (tt, k', refl, drained)),
    )
