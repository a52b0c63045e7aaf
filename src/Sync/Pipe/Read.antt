-- ===== src/Sync/Pipe/Read.antt =====
-- sync.c: SyncReadPipe on a pipe with bytes.
use mathlib.Core.Option.{some-injective}
use sasha_jakob.Base.{
  ◌>>=◌, ◌∈◌, inl, inr, ℕ, zero, suc, ◌+◌, ◌<◌, ◌≤◌, ◌≡◌, refl, Option, some, is_some, true, false,
  List, [], ◌∷◌, ap, ◌∙◌, sym, arith, ==-refl, length, get_elem?, Ends, ◌⊎◌, ℤ, pos, eq_ℤ, sub_ℤ,
  ◌-◌, ltb, if◌then◌else◌, success, subst,
}
use sasha_jakob.Links.{put}
use sasha_jakob.Kernel.{Kernel, Hardware, Pipe, Pcb, pipe}
use sasha_jakob.Process.Exit.{set_reg0}
use sasha_jakob.Sync.Table.Names.{Names, get_check_sync-Names}
use sasha_jakob.Sync.Pipe.{sync_read_pipe}
use sasha_jakob.Sync.Pipe.Bytes.{read_loop}
use sasha_jakob.Sync.Pipe.Drain.{min_ℤ, drain_writers, drain_fuel}
use sasha_jakob.Sync.Pipe.Ring.{Ring}
use sasha_jakob.Sync.Pipe.Take.{drop}
use sasha_jakob.Sync.Pipe.ReadLoop.{recounted, recounted-Ring, read_loop-Ring}
use sasha_jakob.Sync.Pipe.Caller.{caller-Piped, same_buffer}
use sasha_jakob.Sync.Pipe.Waiting.{Piped}
use sasha_jakob.Sync.Pipe.Drained.{Drained}
use sasha_jakob.Sync.Pipe.Drains.{drain_writers-Drained}
use sasha_jakob.Sync.Pipe.Refills.{Refilled, drain_writers-Refilled}

-- A reader gets no more than it asks for, and no more than there is.
abbrev pub share : ℕ → List ℕ → ℕ
share len bytes = if ltb len (length bytes) then len else length bytes

length-drop : (n : ℕ) (xs : List ℕ) → n ≤ length xs → length (drop n xs) ≡ length xs - n
length-drop zero xs h = omega arith
length-drop (suc n) [] h = elim h [ ]
length-drop (suc n) (x ∷ xs) h = length-drop n xs (omega (arith, h)) ∙ omega arith

taken_off : (m n : ℕ) → n ≤ m → sub_ℤ (pos m) (pos n) ≡ pos (m - n)
taken_off m n h = ground arith

share-le : (len : ℕ) (bytes : List ℕ) → share len bytes ≤ length bytes
share-le len bytes = ground arith

share-le-len : (len : ℕ) (bytes : List ℕ) → share len bytes ≤ len
share-le-len len bytes = ground arith

min_ℤ-share :
    (len : ℕ) (bytes : List ℕ) → min_ℤ (pos len) (pos (length bytes)) ≡ pos (share len bytes)
min_ℤ-share len bytes = ground arith

-- The PCB of a reader that has got `n` bytes.
abbrev pub answered : Pcb → ℕ → Pcb
answered u n = record u { user_context = set_reg0 (pos n) u.user_context }

-- The kernel when the bytes are there and counted, and the reader knows their number.
abbrev got_all : Kernel → Kernel → (o n : ℕ) → Pipe → Pcb → Kernel
got_all k k1 o n v1 u = record k1 {
  pcbs = put k1.pcbs k.current_process (answered u n);
  pipes = put k1.pipes o (record v1 { bytes_in_buffer = sub_ℤ v1.bytes_in_buffer (pos n) });
}

read-run :
    (hw : Hardware) (k k1 k' : Kernel) (id sync o buf len n fuel : ℕ) (v v1 : Pipe) (u : Pcb)
    → Names k id sync pipe o
    → k.pipes o ≡ some v
    → v.open_for_read ≡ true
    → eq_ℤ v.bytes_in_buffer (pos 0) ≡ false
    → min_ℤ (pos len) v.bytes_in_buffer ≡ pos n
    → read_loop hw o n buf k ≡ some (tt, k1)
    → k1.pcbs k.current_process ≡ some u
    → k1.pipes o ≡ some v1
    → drain_fuel o (got_all k k1 o n v1 u) ≡ some (fuel, got_all k k1 o n v1 u)
    → drain_writers hw fuel o (got_all k k1 o n v1 u) ≡ some (tt, k')
    → sync_read_pipe hw (pos id) buf (pos len) k ≡ some (success, k')
unfolding sync_read_pipe
read-run hw k k1 k' id sync o buf len n fuel v v1 u names here opened some_byte least run at there
      fueled drained =
    rw
      (
        get_check_sync-Names pipe names,
        names.object,
        here,
        opened,
        some_byte,
        least,
        run,
        at,
        there,
        fueled,
        drained,
      )
      refl

-- What the reader got, and what the pipe and those that wait for it came to.
abbrev pub Reads :
    Hardware
    → Kernel
    → List ℕ
    → (ℕ → List ℕ)
    → (o buf len : ℕ) → Pcb
    → (rs ws bytes : List ℕ) → ℤ
    → Kernel
    → Type 0
Reads hw k lists c o buf len u rs ws bytes rc k' =
    (rc ≡ success)
    × (got : Kernel) × ((i : ℕ) → i < share len bytes → got.bytes (buf + i) ≡ get_elem? bytes i)
    × ((a : ℕ) → (a < buf) ⊎ (buf + share len bytes ≤ a) → got.bytes a ≡ k.bytes a)
    × (got.pcbs ≡ put k.pcbs k.current_process (answered u (share len bytes)))
    × Piped hw got lists c o rs ws (drop (share len bytes) bytes)
    × ((do fuel ← drain_fuel o; drain_writers hw fuel o) got ≡ some (tt, k'))
    × Drained hw got lists o rs ws (some (tt, k'))
    × (((r : ℕ) × (r ∈ rs)) ⊎ Refilled hw lists o (some (tt, k')))

module _ (hw : Hardware) (k : Kernel) (lists : List ℕ) (c : ℕ → List ℕ) (o : ℕ)
    (rs ws bytes : List ℕ) (h : Piped hw k lists c o rs ws bytes) (u : Pcb)
    (at : k.pcbs k.current_process ≡ some u) where
  -- The invariant of the pipe when `n` bytes have left it.
  got_all-Piped :
      (n : ℕ) (bs : ℕ → Option ℕ) (ps : ℕ → Option Pipe) (v1 : Pipe)
      → n ≤ length bytes
      → ps o ≡ some v1
      → v1.bytes_in_buffer ≡ pos (length bytes)
      → Ring hw.pipe_buffer_len (recounted (drop n bytes) v1) (drop n bytes)
      → ((a : ℕ) → is_some (k.bytes a) ≡ true → is_some (bs a) ≡ true)
      → Piped hw
          (got_all k (record k { bytes = bs; pipes = ps }) o n v1 u)
          lists
          c
          o
          rs
          ws
          (drop n bytes)
  got_all-Piped n bs ps v1 enough there counted ring mapped =
      caller-Piped hw k lists c o rs ws bytes h k.current_process u (answered u n) bs
        (put ps o (record v1 { bytes_in_buffer = sub_ℤ v1.bytes_in_buffer (pos n) })) (drop n bytes)
        at refl (same_buffer k k.current_process u at) mapped
        (
          record v1 { bytes_in_buffer = sub_ℤ v1.bytes_in_buffer (pos n) },
          rw (==-refl o) refl,
          record {
            sized = ring.sized;
            room = ring.room;
            start = ring.start;
            stop = ring.stop;
            counted =
                ap (λ z. sub_ℤ z (pos n)) counted
                ∙ taken_off (length bytes) n enough
                ∙ ap pos (sym (length-drop n bytes enough));
            held = ring.held;
          },
        )

  -- Up to the call of SyncDrainWriters.
  pub read_until :
      (id sync buf len : ℕ) (v : Pipe)
      → Names k id sync pipe o
      → k.pipes o ≡ some v
      → v.open_for_read ≡ true
      → 0 < length bytes
      → ((i : ℕ) → i < len → is_some (k.bytes (buf + i)) ≡ true)
      → (got : Kernel) × ((i : ℕ) → i < share len bytes → got.bytes (buf + i) ≡ get_elem? bytes i)
        × ((a : ℕ) → (a < buf) ⊎ (buf + share len bytes ≤ a) → got.bytes a ≡ k.bytes a)
        × (got.pcbs ≡ put k.pcbs k.current_process (answered u (share len bytes)))
        × Piped hw got lists c o rs ws (drop (share len bytes) bytes)
        × ((fuel : ℕ) (k' : Kernel)
            → drain_fuel o got ≡ some (fuel, got)
            → drain_writers hw fuel o got ≡ some (tt, k')
            → sync_read_pipe hw (pos id) buf (pos len) k ≡ some (success, k'))
  read_until id sync buf len v names here opened some_byte room =
      let (v0, here0, ring0) = h.pipe in
      let ring : Ring hw.pipe_buffer_len v bytes =
        subst (λ x. Ring hw.pipe_buffer_len x bytes) (some-injective _ _ (sym here0 ∙ here))
          ring0 in
      let n = share len bytes in
      let enough : n ≤ length bytes = share-le len bytes in
      let (_, kt, reading, ((v1, there, same_count, ring1), moved, same, mapped, frame)) =
        read_loop-Ring hw o n buf k v bytes here (recounted-Ring hw.pipe_buffer_len v bytes ring)
          enough (λ i small. room i (omega (arith, small, share-le-len len bytes))) in
      let k1 = record k { bytes = kt.bytes; pipes = kt.pipes } in
      let piped =
        got_all-Piped n kt.bytes kt.pipes v1 enough there (same_count ∙ ring.counted) ring1
          mapped in
      let least : min_ℤ (pos len) v.bytes_in_buffer ≡ pos n =
        ap (min_ℤ (pos len)) ring.counted ∙ min_ℤ-share len bytes in
      let not_empty : eq_ℤ v.bytes_in_buffer (pos 0) ≡ false =
        ap (λ z. eq_ℤ z (pos 0)) ring.counted ∙ ground (arith, some_byte) in
      (
        got_all k k1 o n v1 u,
        moved,
        same,
        refl,
        piped,
        λ fuel k'.
            read-run hw k k1 k' id sync o buf len n fuel v v1 u names here opened not_empty least
              (reading ∙ ap (λ x. some (tt, x)) frame) at there,
      )

  -- SyncReadPipe of a pipe that is open for reading and has bytes ends, where the reader's buffer is
  -- mapped. The reader gets the first bytes of the pipe, as many as it asks for and as there are, in their
  -- order, and their number as the result of its call; no other memory is changed by that. Then
  -- SyncDrainWriters runs, which ends: those that still wait are the last of those that waited, none waits
  -- to read while a byte is in the pipe, and if none waited to read before, none waits to write while the
  -- pipe has room.
  pub sync_read_pipe_lem :
      (id sync buf len : ℕ) (v : Pipe)
      → Names k id sync pipe o
      → k.pipes o ≡ some v
      → v.open_for_read ≡ true
      → 0 < length bytes
      → ((i : ℕ) → i < len → is_some (k.bytes (buf + i)) ≡ true)
      → Ends
          (sync_read_pipe hw (pos id) buf (pos len) k)
          (Reads hw k lists c o buf len u rs ws bytes)
  sync_read_pipe_lem id sync buf len v names here opened some_byte room =
      let (got, moved, same, table, piped, rest) =
        read_until id sync buf len v names here opened some_byte room in
      let (fuel, fueled, (_, k', drain, drained)) =
        drain_writers-Drained hw got lists c o rs ws (drop (share len bytes) bytes) piped in
      (
        success,
        k',
        rest fuel k' fueled drain,
        (
          refl,
          got,
          moved,
          same,
          table,
          piped,
          rw fueled drain,
          (tt, k', refl, drained),
          elim (drain_writers-Refilled hw lists c o fuel rs ws (drop (share len bytes) bytes) got
              piped fueled) [
                | inl some_reader ↦ inl some_reader
                | inr refills ↦ inr (subst (Refilled hw lists o) drain refills)
              ],
        ),
      )
