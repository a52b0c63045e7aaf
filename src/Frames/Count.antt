-- ===== src/Frames/Count.antt =====
-- frames.c: how many frames are free.
use sasha_jakob.Base.{
  ℕ, zero, suc, ◌+◌, ◌<◌, ◌≡◌, ◌≢◌, refl, some, List, [], ◌∷◌, arith, get_elem?, set, ◌==◌,
  if◌then◌else◌,
}
use sasha_jakob.Frames.Alloc.{InUse}

-- The free ones among the first `n` frames.
abbrev pub free_count : List ℕ → (n : ℕ) → ℕ
free_count [] n = 0
free_count (b ∷ bs) zero = 0
free_count (b ∷ bs) (suc n) = (if b == 0 then 1 else 0) + free_count bs n

pub free_count-set :
    (bits : List ℕ) (n f : ℕ)
    → f < n
    → get_elem? bits f ≡ some 0
    → free_count bits n ≡ suc (free_count (set bits f 1) n)
free_count-set [] n f small free = cc
free_count-set (b ∷ bs) zero f small free = absurd (omega (arith, small))
free_count-set (b ∷ bs) (suc n) zero small free = ground (arith, free)
free_count-set (b ∷ bs) (suc n) (suc f) small free =
    omega (arith, free_count-set bs n f (omega (arith, small)) free)

pub free_count-InUse : (bits : List ℕ) (n : ℕ) → InUse bits 0 n → free_count bits n ≡ 0
free_count-InUse [] n used = refl
free_count-InUse (b ∷ bs) zero used = refl
free_count-InUse (b ∷ bs) (suc n) used =
    let rest =
      free_count-InUse bs n (λ j low high. used (suc j) (omega arith) (omega (arith, high))) in
    let busy : b ≢ 0 = λ e. used 0 (omega arith) (omega arith) (rw e refl) in
    ground (arith, rest, busy)
