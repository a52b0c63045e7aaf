-- ===== src/Sync/Pipe/Take.antt =====
-- sync.c: what the loop of SyncDrainReaders does to the bytes of a pipe and to a reader's memory.
use sasha_jakob.Base.{
  ℕ, zero, suc, ◌+◌, ◌<◌, ◌≤◌, ◌≡◌, refl, Option, some, is_some, true, List, [], ◌∷◌, ap, ◌∙◌,
  arith, ==-refl, ==-ne, length, get_elem?, Ends, ◌⊎◌, inl, inr, Option-some, ◌%◌, ℕ_discrete,
}
use sasha_jakob.Kernel.{Kernel, Hardware, Pipe}
use sasha_jakob.Links.{put}
use sasha_jakob.Sync.Pipe.Bytes.{get_byte, take_loop}
use sasha_jakob.Sync.Pipe.Ring.{Ring, less_byte, Ring-first, less_byte-Ring}

abbrev pub drop : ℕ → List ℕ → List ℕ
drop zero xs = xs
drop (suc n) [] = []
drop (suc n) (x ∷ xs) = drop n xs

-- The kernel when the first byte has gone to `dest`.
abbrev taken_one : ℕ → Kernel → ℕ → ℕ → ℕ → Pipe → Kernel
taken_one n k o dest b v = record k {
  bytes = put k.bytes dest b;
  pipes = put (put k.pipes o (record v { read_pos = (v.read_pos + 1) % n })) o (less_byte n v);
}

take-step :
    (hw : Hardware) (k : Kernel) (o dest left b : ℕ) (v : Pipe)
    → k.pipes o ≡ some v
    → get_elem? v.buffer v.read_pos ≡ some b
    → is_some (k.bytes dest) ≡ true
    → take_loop hw o (suc left) dest k
      ≡ take_loop hw o left (dest + 1) (taken_one hw.pipe_buffer_len k o dest b v)
unfolding take_loop get_byte
take-step hw k o dest left b v here at_pos room =
    let (old, cell) = Option-some (k.bytes dest) room in
    ground (arith, here, at_pos, cell, ==-refl o)

pub moved-cons :
    (f : ℕ → Option ℕ) (dest left b : ℕ) (bytes : List ℕ)
    → f dest ≡ some b
    → ((i : ℕ) → i < left → f (dest + 1 + i) ≡ get_elem? bytes i)
    → (i : ℕ) → i < suc left
    → f (dest + i) ≡ get_elem? (b ∷ bytes) i
moved-cons f dest left b bytes one rest zero h = ap f (omega arith) ∙ one
moved-cons f dest left b bytes one rest (suc i) h = ap f (omega arith) ∙ rest i (omega arith)

pub still_mapped :
    (f : ℕ → Option ℕ) (dest b a : ℕ) → is_some (f a) ≡ true → is_some (put f dest b a) ≡ true
still_mapped f dest b a h = elim (ℕ_discrete a dest) [
  | yes e ↦ rw (e, ==-refl dest) refl
  | no ne ↦ rw (==-ne a dest ne) h
]

-- The copying loop of SyncDrainReaders moves the first `left` bytes of the pipe to the memory at `dest`,
-- in their order and across the end of the buffer, and leaves the others in the pipe; no other memory
-- changes, no memory is unmapped, and of the kernel nothing but the memory and the pipes changes.
pub take_loop-Ring :
    (hw : Hardware) (o : ℕ) (left dest : ℕ) (k : Kernel) (v : Pipe) (bytes : List ℕ)
    → k.pipes o ≡ some v
    → Ring hw.pipe_buffer_len v bytes
    → left ≤ length bytes
    → ((i : ℕ) → i < left → is_some (k.bytes (dest + i)) ≡ true)
    → Ends (take_loop hw o left dest k) λ _ k'.
      ((v' : Pipe) × (k'.pipes o ≡ some v') × Ring hw.pipe_buffer_len v' (drop left bytes))
      × ((i : ℕ) → i < left → k'.bytes (dest + i) ≡ get_elem? bytes i)
      × ((a : ℕ) → (a < dest) ⊎ (dest + left ≤ a) → k'.bytes a ≡ k.bytes a)
      × ((a : ℕ) → is_some (k.bytes a) ≡ true → is_some (k'.bytes a) ≡ true)
      × (k' ≡ record k { bytes = k'.bytes; pipes = k'.pipes })
unfolding take_loop
take_loop-Ring hw o zero dest k v bytes here r enough room =
    (tt, k, refl, ((v, here, r), (λ i h. elim h [ ]), (λ a h. refl), (λ a h. h), refl))
take_loop-Ring hw o (suc left) dest k v [] here r enough room = elim enough [ ]
take_loop-Ring hw o (suc left) dest k v (b ∷ bytes) here r enough room =
    let n = hw.pipe_buffer_len in
    let k1 = taken_one n k o dest b v in
    let cell : is_some (k.bytes dest) ≡ true =
      ap (λ a. is_some (k.bytes a)) (omega arith) ∙ room 0 (omega arith) in
    let still : (i : ℕ) → i < left → is_some (k1.bytes (dest + 1 + i)) ≡ true = λ i h.
      rw (==-ne (dest + 1 + i) dest (omega arith))
        (ap (λ a. is_some (k.bytes a)) (omega arith) ∙ room (suc i) (omega arith)) in
    let (_, k', run, (ring, moved, same, mapped, rest)) =
      take_loop-Ring hw o left (dest + 1) k1 (less_byte n v) bytes (rw (==-refl o) refl)
        (less_byte-Ring n v bytes b r) (omega arith) still in
    (
      tt,
      k',
      take-step hw k o dest left b v here (Ring-first n v bytes b r) cell ∙ run,
      (
        ring,
        moved-cons k'.bytes dest left b bytes
            (same dest (inl (omega arith)) ∙ rw (==-refl dest) refl) moved,
        (λ a out. elim out [
          | inl low ↦
              same a (inl (omega (arith, low))) ∙ rw (==-ne a dest (omega (arith, low))) refl
          | inr high ↦
              same a (inr (omega (arith, high))) ∙ rw (==-ne a dest (omega (arith, high))) refl
        ]),
        (λ a h. mapped a (still_mapped k.bytes dest b a h)),
        rest,
      ),
    )
