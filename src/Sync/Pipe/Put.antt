-- ===== src/Sync/Pipe/Put.antt =====
-- sync.c: what one round of a writer's loop does to the bytes of a pipe.
use sasha_jakob.Base.{ℕ, ◌<◌, ◌≡◌, refl, some, List, [], ◌∷◌, ◌++◌, arith, length, get_elem?-some}
use sasha_jakob.Kernel.{Kernel, Hardware, Pipe}
use sasha_jakob.Links.{put}
use sasha_jakob.Sync.Pipe.Bytes.{put_byte}
use sasha_jakob.Sync.Pipe.Ring.{Ring, slot, slot-lt, with_byte, with_byte-Ring}

-- The byte at `src` goes to the end of a pipe that has room for it, behind the bytes that wait there,
-- and nothing else changes.
pub put_byte-Ring :
    (hw : Hardware) (k : Kernel) (o src b : ℕ) (v : Pipe) (bytes : List ℕ)
    → k.pipes o ≡ some v
    → Ring hw.pipe_buffer_len v bytes
    → length bytes < hw.pipe_buffer_len
    → k.bytes src ≡ some b
    → (v' : Pipe) × (put_byte hw o src k ≡ some (tt, record k { pipes = put k.pipes o v' }))
      × Ring hw.pipe_buffer_len v' (bytes ++ b ∷ [])
      × (v'.open_for_read ≡ v.open_for_read)
unfolding put_byte
put_byte-Ring hw k o src b v bytes here r free at_src =
    let n = hw.pipe_buffer_len in
    let inside : slot n v.read_pos (length bytes) < n =
      slot-lt n v.read_pos (length bytes) r.start r.room in
    let (old, cell) =
      get_elem?-some v.buffer v.write_pos (omega (arith, r.stop, r.sized, inside)) in
    (with_byte n b v, ground (arith, here, at_src, cell), with_byte-Ring n v bytes r free b, refl)
