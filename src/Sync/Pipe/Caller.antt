-- ===== src/Sync/Pipe/Caller.antt =====
-- sync.c: a pipe when the process that calls has moved bytes.
use mathlib.Core.Option.{some-injective}
use sasha_jakob.Base.{
  ℕ, ◌+◌, ◌<◌, ◌≡◌, refl, Option, is_some, true, some, List, pos, pos_part, subst, sym, ◌∙◌,
}
use sasha_jakob.Links.{put}
use sasha_jakob.Kernel.{Kernel, Hardware, Pipe, Pcb, readers, writers}
use sasha_jakob.Process.Queue.Placed.{Inv-same, Inv-modify, SameQueues}
use sasha_jakob.Sync.Waits.{Waits-keep}
use sasha_jakob.Sync.Pipe.Ring.{Ring}
use sasha_jakob.Sync.Pipe.Waiting.{Piped, HasBuffer, KeepsBuffers, KeepsBuffers-put, still_there}

-- The PCB of the caller has become `w`, with the same state, and no memory is unmapped.
pub caller-Piped :
    (hw : Hardware) (k : Kernel) (lists : List ℕ) (c : ℕ → List ℕ) (o : ℕ) (rs ws bytes : List ℕ)
    → Piped hw k lists c o rs ws bytes
    → (p : ℕ) (u w : Pcb) (bs : ℕ → Option ℕ) (ps : ℕ → Option Pipe) (left : List ℕ)
    → k.pcbs p ≡ some u
    → w.state ≡ u.state
    → (HasBuffer k p
        → ((n : ℕ) × (w.write_loc ≡ pos n))
          × ((i : ℕ) → i < pos_part w.pipe_len → is_some (k.bytes (w.pipe_buffer + i)) ≡ true))
    → ((a : ℕ) → is_some (k.bytes a) ≡ true → is_some (bs a) ≡ true)
    → (v : Pipe) × (ps o ≡ some v) × Ring hw.pipe_buffer_len v left
    → Piped hw (record k { bytes = bs; pipes = ps; pcbs = put k.pcbs p w }) lists c o rs ws left
caller-Piped hw k lists c o rs ws bytes h p u w bs ps left at same own mapped moved =
    let k' = record k { bytes = bs; pipes = ps; pcbs = put k.pcbs p w } in
    let queues : SameQueues k k' = record {
      ready = refl;
      delay = refl;
      blocked = refl;
      zombie = refl;
    } in
    let alive : (q : ℕ) → is_some (k.pcbs q) ≡ true → is_some (k'.pcbs q) ≡ true =
      still_there k.pcbs p w in
    let buffers : KeepsBuffers k k' = KeepsBuffers-put k k' p w refl mapped own in
    record {
      inv =
          Inv-same (Inv-modify p u w h.inv at same)
            (record { ready = refl; delay = refl; blocked = refl; zombie = refl }) refl refl;
      reads = Waits-keep k k' lists c c (readers o) rs h.reads queues refl alive;
      writes = Waits-keep k k' lists c c (writers o) ws h.writes queues refl alive;
      pipe = moved;
      reader = λ q i. buffers q (h.reader q i);
      writer = λ q i. buffers q (h.writer q i);
    }

-- The memory that the caller's last call named is the same.
pub same_buffer :
    (k : Kernel) (p : ℕ) (u : Pcb)
    → k.pcbs p ≡ some u
    → HasBuffer k p
    → ((n : ℕ) × (u.write_loc ≡ pos n))
      × ((i : ℕ) → i < pos_part u.pipe_len → is_some (k.bytes (u.pipe_buffer + i)) ≡ true)
same_buffer k p u at (x, here, loc, room) =
    subst
      (λ (y : Pcb).
        ((n : ℕ) × (y.write_loc ≡ pos n))
        × ((i : ℕ) → i < pos_part y.pipe_len → is_some (k.bytes (y.pipe_buffer + i)) ≡ true))
      (some-injective _ _ (sym here ∙ at)) (loc, room)
