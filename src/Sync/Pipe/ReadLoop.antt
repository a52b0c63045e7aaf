-- ===== src/Sync/Pipe/ReadLoop.antt =====
-- sync.c: the loop of SyncReadPipe, which takes the bytes off the count behind it.
use sasha_jakob.Base.{
  ℕ, zero, suc, ◌+◌, ◌%◌, ◌<◌, ◌≤◌, ◌≡◌, refl, some, is_some, true, List, [], ◌∷◌, ap, ◌∙◌, arith,
  ==-refl, ==-ne, length, get_elem?, Ends, ◌⊎◌, inl, inr, Option-some, pos,
}
use sasha_jakob.Links.{put}
use sasha_jakob.Kernel.{Kernel, Hardware, Pipe}
use sasha_jakob.Sync.Pipe.Bytes.{get_byte, read_loop}
use sasha_jakob.Sync.Pipe.Ring.{Ring, Ring-first, less_byte-Ring}
use sasha_jakob.Sync.Pipe.Take.{drop, moved-cons, still_mapped}

-- The pipe with a count that fits its bytes.
abbrev pub recounted : List ℕ → Pipe → Pipe
recounted bytes v = record v { bytes_in_buffer = pos (length bytes) }

pub recounted-Ring :
    (n : ℕ) (v : Pipe) (bytes : List ℕ) → Ring n v bytes → Ring n (recounted bytes v) bytes
recounted-Ring n v bytes r = record {
  sized = r.sized;
  room = r.room;
  start = r.start;
  stop = r.stop;
  counted = refl;
  held = r.held;
}

-- The kernel when one byte has gone to `dest`.
abbrev got_one : ℕ → Kernel → (o dest b : ℕ) → Pipe → Kernel
got_one n k o dest b v = record k {
  bytes = put k.bytes dest b;
  pipes = put k.pipes o (record v { read_pos = (v.read_pos + 1) % n });
}

read-step :
    (hw : Hardware) (k : Kernel) (o dest left b : ℕ) (v : Pipe)
    → k.pipes o ≡ some v
    → get_elem? v.buffer v.read_pos ≡ some b
    → is_some (k.bytes dest) ≡ true
    → read_loop hw o (suc left) dest k
      ≡ read_loop hw o left (dest + 1) (got_one hw.pipe_buffer_len k o dest b v)
unfolding read_loop get_byte
read-step hw k o dest left b v here at_pos room =
    let (old, cell) = Option-some (k.bytes dest) room in ground (arith, here, at_pos, cell)

-- The bytes go to the reader, and the count stays behind.
pub read_loop-Ring :
    (hw : Hardware) (o : ℕ) (left dest : ℕ) (k : Kernel) (v : Pipe) (bytes : List ℕ)
    → k.pipes o ≡ some v
    → Ring hw.pipe_buffer_len (recounted bytes v) bytes
    → left ≤ length bytes
    → ((i : ℕ) → i < left → is_some (k.bytes (dest + i)) ≡ true)
    → Ends (read_loop hw o left dest k) λ _ k'.
      ((v' : Pipe) × (k'.pipes o ≡ some v')
        × (v'.bytes_in_buffer ≡ v.bytes_in_buffer)
        × Ring hw.pipe_buffer_len (recounted (drop left bytes) v') (drop left bytes))
      × ((i : ℕ) → i < left → k'.bytes (dest + i) ≡ get_elem? bytes i)
      × ((a : ℕ) → (a < dest) ⊎ (dest + left ≤ a) → k'.bytes a ≡ k.bytes a)
      × ((a : ℕ) → is_some (k.bytes a) ≡ true → is_some (k'.bytes a) ≡ true)
      × (k' ≡ record k { bytes = k'.bytes; pipes = k'.pipes })
unfolding read_loop
read_loop-Ring hw o zero dest k v bytes here r enough room =
    (tt, k, refl, ((v, here, refl, r), (λ i h. elim h [ ]), (λ a h. refl), (λ a h. h), refl))
read_loop-Ring hw o (suc left) dest k v [] here r enough room = elim enough [ ]
read_loop-Ring hw o (suc left) dest k v (b ∷ bytes) here r enough room =
    let n = hw.pipe_buffer_len in
    let k1 = got_one n k o dest b v in
    let v1 = record v { read_pos = (v.read_pos + 1) % n } in
    let cell : is_some (k.bytes dest) ≡ true =
      ap (λ a. is_some (k.bytes a)) (omega arith) ∙ room 0 (omega arith) in
    let still : (i : ℕ) → i < left → is_some (k1.bytes (dest + 1 + i)) ≡ true = λ i h.
      rw (==-ne (dest + 1 + i) dest (omega arith))
        (ap (λ a. is_some (k.bytes a)) (omega arith) ∙ room (suc i) (omega arith)) in
    let (_, k', run, (ring, moved, same, mapped, rest)) =
      read_loop-Ring hw o left (dest + 1) k1 v1 bytes (rw (==-refl o) refl)
        (recounted-Ring n _ bytes (less_byte-Ring n (recounted (b ∷ bytes) v) bytes b r))
        (omega arith) still in
    (
      tt,
      k',
      read-step hw k o dest left b v here (Ring-first n (recounted (b ∷ bytes) v) bytes b r) cell
          ∙ run,
      (
        ring,
        moved-cons k'.bytes dest left b bytes
            (same dest (inl (omega arith)) ∙ rw (==-refl dest) refl) moved,
        (λ a out. elim out [
          | inl low ↦
              same a (inl (omega (arith, low))) ∙ rw (==-ne a dest (omega (arith, low))) refl
          | inr high ↦
              same a (inr (omega (arith, high))) ∙ rw (==-ne a dest (omega (arith, high))) refl
        ]),
        (λ a h. mapped a (still_mapped k.bytes dest b a h)),
        rest,
      ),
    )
