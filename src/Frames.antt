-- ===== src/Frames.antt =====
-- The functions of frames.c over the array `frame_bitMap`: 1 marks a frame in use, 0 a free one.
-- An access outside the array is a fault. NUM_VPN, which hardware.h defines, is a parameter.
pub mod Alloc
pub mod Count
use sasha_jakob.Base.{
  ℕ, zero, suc, ◌+◌, some, List, ◌==◌, if◌then◌else◌, leb, get_elem?, set, ℤ, pos, negsuc, error,
  Cmd, and_then, pure, ◌>>=◌, ◌>>◌,
}

-- `frame_bitMap[i]`, read and written.
abbrev pub load_frame : ℕ → Cmd (List ℕ) ℕ
load_frame i bits = and_then (get_elem? bits i) λ v. some (v, bits)

abbrev pub store_frame : ℕ → ℕ → Cmd (List ℕ) (Unit {0})
store_frame i v bits = and_then (get_elem? bits i) λ _. some (tt, set bits i v)

-- The rounds of the loop that are left, and its index.
unfoldable pub allocate_loop : (left i : ℕ) → Cmd (List ℕ) ℤ
allocate_loop zero i = pure error
allocate_loop (suc left) i = do
  used ← load_frame i
  if used == 0 then (do store_frame i 1; pure (pos i)) else allocate_loop left (i + 1)

module _ (num_vpn : ℕ) where
  unfoldable pub allocate_frame : Cmd (List ℕ) ℤ
  unfolding allocate_loop
  allocate_frame = allocate_loop num_vpn 0

  release_frame : ℕ → Cmd (List ℕ) (Unit {0})
  release_frame pfn =
      if leb num_vpn pfn
      then pure tt
      else do used ← load_frame pfn; if used == 0 then pure tt else store_frame pfn 0

  unfoldable pub free_frame : ℤ → Cmd (List ℕ) (Unit {0})
  unfolding release_frame
  free_frame (pos pfn) = release_frame pfn
  free_frame (negsuc _) = pure tt
