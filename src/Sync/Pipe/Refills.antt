-- ===== src/Sync/Pipe/Refills.antt =====
-- sync.c: SyncDrainWriters and SyncDrainReaders where no process waits, or none to read.
use mathlib.Core.Option.{some-injective}
use sasha_jakob.Base.{
  ℕ, zero, suc, ◌<◌, ◌≡◌, refl, some, List, [], ◌∷◌, ◌∙◌, arith, length, inl, inr, ◌∈◌, ◌⊎◌, Option,
  Ends, sym, ap, subst,
}
use sasha_jakob.Kernel.{Kernel, Hardware}
use sasha_jakob.Sync.Pipe.Drain.{drain_writers, drain_readers, drain_fuel}
use sasha_jakob.Sync.Pipe.Waiting.{Piped, mem-head}
use sasha_jakob.Sync.Pipe.Writing.{more_readers}
use sasha_jakob.Sync.Pipe.Drains.{drain_fuel-run}
use sasha_jakob.Sync.Pipe.Drained.{writer_step, no_writer, readers_empty, no_reader, waiting-run}

-- The run ends, and where none waits to read none waits to write while the pipe has room.
abbrev pub Refilled : Hardware → List ℕ → ℕ → Option (Unit {0} × Kernel) → Type 0
Refilled hw lists o r = Ends r λ _ k'.
    (c' : ℕ → List ℕ) × (ws' : List ℕ) × (bytes' : List ℕ) × Piped hw k' lists c' o [] ws' bytes'
    × ((ws' ≡ []) ⊎ (length bytes' ≡ hw.pipe_buffer_len))

more_readers-none :
    (hw : Hardware) (k : Kernel) (lists : List ℕ) (c : ℕ → List ℕ) (o fuel : ℕ) (ws bytes : List ℕ)
    → Piped hw k lists c o [] ws bytes
    → more_readers hw fuel o k ≡ some (tt, k)
more_readers-none hw k lists c o fuel ws bytes h =
    let (v, here, ring) = h.pipe in
    ground (arith, here, waiting-run hw k lists c o fuel [] ws bytes h)

writers-Refilled :
    (hw : Hardware) (lists : List ℕ) (o fuel : ℕ) (k : Kernel) (c : ℕ → List ℕ) (ws bytes : List ℕ)
    → Piped hw k lists c o [] ws bytes
    → length ws < fuel
    → Refilled hw lists o (drain_writers hw fuel o k)
writers-Refilled hw lists o zero k c ws bytes h enough = absurd (omega (arith, enough))
writers-Refilled hw lists o (suc fuel) k c [] bytes h enough = (
  tt,
  k,
  no_writer hw k lists c o fuel [] bytes h ∙ more_readers-none hw k lists c o fuel [] bytes h,
  (c, [], bytes, h, inl refl),
)
writers-Refilled hw lists o (suc fuel) k c (q ∷ qs) bytes h enough =
    let (k1, _, after) = writer_step hw k lists c o [] q qs bytes fuel h in
    elim after [
      | inl (run, (c1, bytes1, h1)) ↦
          subst (Refilled hw lists o) (sym run)
            (writers-Refilled hw lists o fuel k1 c1 qs bytes1 h1 (omega (arith, enough)))
      | inr (run, (c1, bytes1, h1, full)) ↦ (
        tt,
        k1,
        run ∙ more_readers-none hw k1 lists c1 o fuel (q ∷ qs) bytes1 h1,
        (c1, q ∷ qs, bytes1, h1, inr full),
      )
    ]

pub drain_writers-Refilled :
    (hw : Hardware) (lists : List ℕ) (c : ℕ → List ℕ) (o fuel : ℕ) (rs ws bytes : List ℕ)
    (k : Kernel)
    → Piped hw k lists c o rs ws bytes
    → drain_fuel o k ≡ some (fuel, k)
    → ((r : ℕ) × (r ∈ rs)) ⊎ Refilled hw lists o (drain_writers hw fuel o k)
drain_writers-Refilled hw lists c o fuel [] ws bytes k h fueled =
    let same = some-injective _ _ (sym fueled ∙ drain_fuel-run hw k lists c o [] ws bytes h) in
    let count = ap (λ (x : ℕ × Kernel). x.0) same in
    inr (writers-Refilled hw lists o fuel k c ws bytes h (omega (arith, count)))
drain_writers-Refilled hw lists c o fuel (r ∷ rs) ws bytes k h fueled = inl (r, mem-head r rs)

-- Where no process waits, the two do nothing.
pub drain_readers-quiet :
    (hw : Hardware) (k : Kernel) (lists : List ℕ) (c : ℕ → List ℕ) (o : ℕ) (bytes : List ℕ)
    → Piped hw k lists c o [] [] bytes
    → (fuel : ℕ) × (drain_fuel o k ≡ some (fuel, k)) × (drain_readers hw fuel o k ≡ some (tt, k))
drain_readers-quiet hw k lists c o [] h =
    (9, drain_fuel-run hw k lists c o [] [] [] h, readers_empty hw k lists c o 8 [] [] h)
drain_readers-quiet hw k lists c o (b ∷ bytes) h =
    (9, drain_fuel-run hw k lists c o [] [] (b ∷ bytes) h, no_reader hw k lists c o 8 [] b bytes h)

pub drain_writers-quiet :
    (hw : Hardware) (k : Kernel) (lists : List ℕ) (c : ℕ → List ℕ) (o : ℕ)
    → Piped hw k lists c o [] [] []
    → (fuel : ℕ) × (drain_fuel o k ≡ some (fuel, k)) × (drain_writers hw fuel o k ≡ some (tt, k))
drain_writers-quiet hw k lists c o h =
    let (v, here, ring) = h.pipe in
    (
      9,
      drain_fuel-run hw k lists c o [] [] [] h,
      no_writer hw k lists c o 8 [] [] h
          ∙ rw (here, ring.counted, waiting-run hw k lists c o 8 [] [] [] h) refl,
    )
