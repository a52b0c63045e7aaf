-- ===== src/Frames/Alloc.antt =====
-- What `allocate_frame` and `free_frame` do to the bitmap.
use sasha_jakob.Base.{
  ℕ, zero, suc, ◌+◌, ◌<◌, ◌≤◌, ◌≡◌, ◌≢◌, refl, some, List, arith, get_elem?, set, length, ℤ, pos,
  error, Ends, get_elem?-set_self, set-get_elem?, get_elem?-some, inl, inr, ◌⊎◌, ℕ_discrete, ltb,
  if◌then◌else◌, Bool-cases, set-same,
}
use sasha_jakob.Frames.{allocate_loop, allocate_frame, free_frame}

-- The first `n` frames from `i` on are in use.
abbrev pub InUse : List ℕ → (i n : ℕ) → Type 0
InUse bits i n = (j : ℕ) → i ≤ j → j < i + n → get_elem? bits j ≢ some 0

-- The lowest free frame below `n` is granted and marked, or there is none and nothing changes.
abbrev pub Grants : List ℕ → (n : ℕ) → ℤ → List ℕ → Type 0
Grants bits n r after =
    ((f : ℕ) × (r ≡ pos f)
      × (f < n)
      × (get_elem? bits f ≡ some 0)
      × (after ≡ set bits f 1)
      × InUse bits 0 f)
    ⊎ ((r ≡ error) × (after ≡ bits) × InUse bits 0 n)

-- What the loop has done: it took the lowest free frame, or there was none.
abbrev Allocated : List ℕ → (left i : ℕ) → ℤ → List ℕ → Type 0
Allocated bits left i r after =
    ((f : ℕ) × (r ≡ pos f)
      × (i ≤ f)
      × (f < i + left)
      × (get_elem? bits f ≡ some 0)
      × (after ≡ set bits f 1)
      × ((j : ℕ) → i ≤ j → j < f → get_elem? bits j ≢ some 0))
    ⊎ ((r ≡ error) × (after ≡ bits) × InUse bits i left)

Allocated-step :
    (bits : List ℕ) (left i : ℕ) (r : ℤ) (after : List ℕ)
    → get_elem? bits i ≢ some 0
    → Allocated bits left (i + 1) r after
    → Allocated bits (suc left) i r after
Allocated-step bits left i r after used (inl (f, at, lo, hi, free, same, first)) =
    inl (f, at, omega arith, omega arith, free, same, λ j a b. below j a b)
  where
    below : (j : ℕ) → i ≤ j → j < f → get_elem? bits j ≢ some 0
    below j a b = elim (ℕ_discrete i j) [ yes e ↦ rw (← e) used | no ne ↦ first j (omega arith) b ]
Allocated-step bits left i r after used (inr (at, same, rest)) = inr (at, same, λ j a b. all j a b)
  where
    all : (j : ℕ) → i ≤ j → j < i + suc left → get_elem? bits j ≢ some 0
    all j a b = elim (ℕ_discrete i j) [
      | yes e ↦ rw (← e) used
      | no ne ↦ rest j (omega arith) (omega arith)
    ]

allocate_loop_run :
    (bits : List ℕ) (left i : ℕ)
    → i + left ≤ length bits
    → Ends (allocate_loop left i bits) (Allocated bits left i)
unfolding allocate_loop
allocate_loop_run bits zero i h =
    (error, bits, refl, inr (refl, refl, λ j lo hi. absurd (omega arith)))
allocate_loop_run bits (suc left) i h =
    let (v, e) = get_elem?-some bits i (omega arith) in
    elim (ℕ_discrete v 0) [
      | yes free ↦ (
        pos i,
        set bits i 1,
        ground arith,
        inl (
          i,
          refl,
          omega arith,
          omega arith,
          ground arith,
          refl,
          λ j lo hi. absurd (omega arith),
        ),
      )
      | no used ↦
          let (r, after, run, found) = allocate_loop_run bits left (i + 1) (omega arith) in
          (r, after, ground arith, Allocated-step bits left i r after (ground arith) found)
    ]

module _ (num_vpn : ℕ) (bits : List ℕ) (fits : num_vpn ≤ length bits) where
  -- `allocate_frame` takes the lowest free frame and marks it, and no other; it returns ERROR and
  -- changes nothing exactly where every frame below NUM_VPN is in use. It never faults if the bitmap
  -- has NUM_VPN entries.
  pub allocate_frame_lem : Ends (allocate_frame num_vpn bits) (Grants bits num_vpn)
  unfolding allocate_frame
  allocate_frame_lem =
      let (r, after, run, found) = allocate_loop_run bits num_vpn 0 (omega arith) in
      (r, after, run, shape r after found)
    where
      shape :
          (r : ℤ) (after : List ℕ) → Allocated bits num_vpn 0 r after → Grants bits num_vpn r after
      shape r after (inl (f, at, lo, hi, free, same, first)) =
          inl (f, at, omega arith, free, same, λ j a b. first j a (omega arith))
      shape r after (inr rest) = inr rest

  -- `free_frame` marks a frame below NUM_VPN free, whatever it was, and changes no other; at a
  -- larger number it does nothing.
  pub free_frame_lem :
      (f : ℕ)
      → free_frame num_vpn (pos f) bits ≡ some (tt, if ltb f num_vpn then set bits f 0 else bits)
  unfolding free_frame
  free_frame_lem f = elim (Bool-cases (ltb f num_vpn)) [
    | inl small ↦
        let (v, e) = get_elem?-some bits f (ground (arith, fits)) in
        elim (ℕ_discrete v 0) [
          | yes free ↦ ground (arith, set-same bits f v e)
          | no used ↦ ground arith
        ]
    | inr large ↦ ground arith
  ]

  -- To free the frame that `allocate_frame` has just returned restores the bitmap.
  pub free_frame-allocate_frame :
      (f : ℕ) (after : List ℕ)
      → allocate_frame num_vpn bits ≡ some (pos f, after)
      → free_frame num_vpn (pos f) after ≡ some (tt, bits)
  unfolding free_frame
  free_frame-allocate_frame f after e = back allocate_frame_lem
    where
      back :
          Ends (allocate_frame num_vpn bits) (Grants bits num_vpn)
          → free_frame num_vpn (pos f) after ≡ some (tt, bits)
      back (r, a, run, inl (g, at, small, free, same, _)) =
          let eg : f ≡ g = ground arith in
          let ea : after ≡ set bits g 1 = ground arith in
          rw (eg, ea) (ground (arith, get_elem?-set_self bits g 1, set-get_elem? bits g 0 1))
      back (r, a, run, inr (at, same, rest)) = ground arith
