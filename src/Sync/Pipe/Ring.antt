-- ===== src/Sync/Pipe/Ring.antt =====
-- A pipe's buffer read as a queue of bytes.
use native.Mathlib.Nat.{mod-eq_of_lt, mod_self}
use sasha_jakob.Base.{
  ℕ, zero, suc, ◌+◌, ◌-◌, ◌%◌, ◌<◌, ◌≤◌, ◌≡◌, ◌≢◌, refl, some, List, [], ◌∷◌, ◌++◌, ap, ◌∙◌, sym,
  arith, pos, suc_ℤ, pred_ℤ, ltb, if◌then◌else◌, length, length-append, length-set, get_elem?, set,
  get_elem?-set_self, get_elem?-set_ne, ℕ_discrete,
}
use sasha_jakob.Kernel.{Pipe}

-- The index of the byte `i` of a window that starts at `r`, in a buffer of `n` bytes.
abbrev pub slot : (n r i : ℕ) → ℕ
slot n r i = if ltb (r + i) n then r + i else r + i - n

next-slot : (n a : ℕ) → a < n → (a + 1) % n ≡ slot n a 1
next-slot n a h = elim (ℕ_discrete (a + 1) n) [
  | yes e ↦ rw (e, mod_self n) (ground arith)
  | no ne ↦ mod-eq_of_lt {n = a + 1} {m = n} (omega arith) ∙ ground arith
]

-- The bytes that wait in the buffer, in the order in which they were written.
pub record Ring (n : ℕ) (v : Pipe) (bytes : List ℕ) : Type 0 where
  pub sized : length v.buffer ≡ n
  pub room : length bytes ≤ n
  pub start : v.read_pos < n
  pub stop : v.write_pos ≡ slot n v.read_pos (length bytes)
  pub counted : v.bytes_in_buffer ≡ pos (length bytes)
  pub held :
      (i : ℕ) → i < length bytes → get_elem? v.buffer (slot n v.read_pos i) ≡ get_elem? bytes i

get_elem?-snoc_lt :
    (xs : List ℕ) (b i : ℕ) → i < length xs → get_elem? (xs ++ b ∷ []) i ≡ get_elem? xs i
get_elem?-snoc_lt [] b i h = elim h [ ]
get_elem?-snoc_lt (x ∷ xs) b zero h = refl
get_elem?-snoc_lt (x ∷ xs) b (suc i) h = get_elem?-snoc_lt xs b i (omega (arith, h))

get_elem?-snoc_last : (xs : List ℕ) (b : ℕ) → get_elem? (xs ++ b ∷ []) (length xs) ≡ some b
get_elem?-snoc_last [] b = refl
get_elem?-snoc_last (x ∷ xs) b = get_elem?-snoc_last xs b

pub slot-lt : (n r i : ℕ) → r < n → i ≤ n → slot n r i < n
slot-lt n r i h k = ground arith

slot-ne : (n r i m : ℕ) → r < n → i < m → m < n → slot n r m ≢ slot n r i
slot-ne n r i m h k l = ground arith

slot-suc : (n r i : ℕ) → r < n → i < n → slot n (slot n r i) 1 ≡ slot n r (i + 1)
slot-suc n r i h k = ground arith

slot-shift : (n r i : ℕ) → r < n → i + 1 ≤ n → slot n (slot n r 1) i ≡ slot n r (i + 1)
slot-shift n r i h k = ground arith

-- The pipe after a byte is put at its end, and after its first byte is taken.
abbrev pub with_byte : ℕ → ℕ → Pipe → Pipe
with_byte n b v = record v {
  buffer = set v.buffer v.write_pos b;
  write_pos = (v.write_pos + 1) % n;
  bytes_in_buffer = suc_ℤ v.bytes_in_buffer;
}

abbrev pub less_byte : ℕ → Pipe → Pipe
less_byte n v = record v {
  read_pos = (v.read_pos + 1) % n;
  bytes_in_buffer = pred_ℤ v.bytes_in_buffer;
}

module _ (n : ℕ) (v : Pipe) (bytes : List ℕ) where
  with_byte-held :
      Ring n v bytes
      → length bytes < n
      → (b i : ℕ) → i < length (bytes ++ b ∷ [])
      → get_elem? (set v.buffer v.write_pos b) (slot n v.read_pos i) ≡ get_elem? (bytes ++ b ∷ []) i
  with_byte-held r free b i h = elim (ℕ_discrete i (length bytes)) [
    | yes e ↦
        rw (e, r.stop)
          (get_elem?-set_self v.buffer (slot n v.read_pos (length bytes)) b
              (rw (r.sized) (slot-lt n v.read_pos (length bytes) r.start r.room))
            ∙ sym (get_elem?-snoc_last bytes b))
    | no ne ↦
        let small : i < length bytes = omega (arith, length-append bytes (b ∷ [])) in
        rw (r.stop) (
          get_elem?-set_ne v.buffer (slot n v.read_pos (length bytes)) (slot n v.read_pos i) b
            (slot-ne n v.read_pos i (length bytes) r.start small free)
          ∙ r.held i small
          ∙ sym (get_elem?-snoc_lt bytes b i small))
  ]

  pub with_byte-Ring :
      Ring n v bytes → length bytes < n → (b : ℕ) → Ring n (with_byte n b v) (bytes ++ b ∷ [])
  with_byte-Ring r free b = record {
    sized = length-set v.buffer v.write_pos b ∙ r.sized;
    room = omega (arith, length-append bytes (b ∷ []));
    start = r.start;
    stop =
        next-slot n v.write_pos (rw (r.stop) (slot-lt n v.read_pos (length bytes) r.start r.room))
        ∙ ap (λ w. slot n w 1) r.stop
        ∙ slot-suc n v.read_pos (length bytes) r.start free
        ∙ ap (slot n v.read_pos) (sym (length-append bytes (b ∷ [])));
    counted = ground (arith, r.counted, length-append bytes (b ∷ []));
    held = with_byte-held r free b;
  }

  pub Ring-first : (b : ℕ) → Ring n v (b ∷ bytes) → get_elem? v.buffer v.read_pos ≡ some b
  Ring-first b r = ap (get_elem? v.buffer) (ground (arith, r.start)) ∙ r.held 0 (omega arith)

  pub less_byte-Ring : (b : ℕ) → Ring n v (b ∷ bytes) → Ring n (less_byte n v) bytes
  less_byte-Ring b r =
      let next : (v.read_pos + 1) % n ≡ slot n v.read_pos 1 = next-slot n v.read_pos r.start in
      let fits : length bytes + 1 ≤ n = omega (arith, r.room) in
      record {
        sized = r.sized;
        room = omega arith;
        start = rw next (slot-lt n v.read_pos 1 r.start (omega arith));
        stop =
            r.stop
            ∙ ap (slot n v.read_pos) (omega arith)
            ∙ sym (slot-shift n v.read_pos (length bytes) r.start fits)
            ∙ ap (λ w. slot n w (length bytes)) (sym next);
        counted = ground (arith, r.counted);
        held = λ i h.
            ap (λ w. get_elem? v.buffer (slot n w i)) next
            ∙ ap (get_elem? v.buffer) (slot-shift n v.read_pos i r.start (omega arith))
            ∙ ap (λ j. get_elem? v.buffer (slot n v.read_pos j)) (omega arith)
            ∙ r.held (suc i) (omega arith);
      }
