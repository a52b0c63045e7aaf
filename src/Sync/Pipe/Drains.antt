-- ===== src/Sync/Pipe/Drains.antt =====
-- sync.c: SyncDrainWriters and SyncDrainReaders come to an end.
use sasha_jakob.Base.{
  ℕ, zero, suc, ◌+◌, ◌*◌, ◌<◌, ◌≤◌, ◌≡◌, refl, some, List, [], ◌∷◌, ◌∙◌, arith, length, inl, inr,
  ◌>>=◌,
}
use sasha_jakob.Kernel.{Kernel, Hardware, readers, writers}
use sasha_jakob.Sync.Waits.{Waits-count}
use sasha_jakob.Sync.Pipe.Drain.{drain_writers, drain_readers, drain_fuel}
use sasha_jakob.Sync.Pipe.Waiting.{Piped}
use sasha_jakob.Sync.Pipe.Writing.{more_readers}
use sasha_jakob.Sync.Pipe.Drained.{
  Drained, writer_step, Drained-at_once, Drained-later, Drained-reader, Drained-writer, no_writer,
  more_readers-Drained, readers_empty, no_reader, a_reader,
}

-- The fuel that SyncDrainReaders needs beyond one round for a writer and three for a reader.
abbrev beyond : List ℕ → ℕ
beyond [] = 3
beyond (b ∷ bytes) = 1

beyond-le : (bytes : List ℕ) → beyond bytes ≤ 3
beyond-le [] = omega arith
beyond-le (b ∷ bytes) = omega arith

beyond_one : (bytes : List ℕ) → 0 < length bytes → beyond bytes ≡ 1
beyond_one [] h = elim h [ ]
beyond_one (b ∷ bytes) h = refl

mutual
  writers-Drained :
      (hw : Hardware) (lists : List ℕ) (o fuel : ℕ) (k : Kernel) (c : ℕ → List ℕ)
      (rs ws bytes : List ℕ)
      → Piped hw k lists c o rs ws bytes
      → length ws + 3 * length rs + 2 ≤ fuel
      → Drained hw k lists o rs ws (drain_writers hw fuel o k)
  writers-Drained hw lists o zero k c rs ws bytes h enough = absurd (omega (arith, enough))
  writers-Drained hw lists o (suc fuel) k c rs [] bytes h enough =
      Drained-later hw k lists o rs [] (drain_writers hw (suc fuel) o k) k
        (more_readers hw fuel o k) refl (no_writer hw k lists c o fuel rs bytes h)
        (more_readers-Drained hw k lists c o fuel rs [] bytes h (inl refl) (λ some_byte.
          readers-Drained hw lists o fuel k c rs [] bytes h
            (omega (arith, beyond_one bytes some_byte, enough))))
  writers-Drained hw lists o (suc fuel) k c rs (q ∷ qs) bytes h enough =
      let (k1, current, after) = writer_step hw k lists c o rs q qs bytes fuel h in
      elim after [
        | inl (run, (c1, bytes1, h1)) ↦
            Drained-writer hw k lists o rs qs (drain_writers hw (suc fuel) o k) k1 q
              (drain_writers hw fuel o k1) current run
              (writers-Drained hw lists o fuel k1 c1 rs qs bytes1 h1 (omega (arith, enough)))
        | inr (run, (c1, bytes1, h1, full)) ↦
            Drained-later hw k lists o rs (q ∷ qs) (drain_writers hw (suc fuel) o k) k1
              (more_readers hw fuel o k1) current run
              (more_readers-Drained hw k1 lists c1 o fuel rs (q ∷ qs) bytes1 h1
                (inr (omega (arith, full, h1.pipe.2.start)))
                (λ some_byte.
                  readers-Drained hw lists o fuel k1 c1 rs (q ∷ qs) bytes1 h1
                    (omega (arith, beyond_one bytes1 some_byte, enough))))
      ]

  readers-Drained :
      (hw : Hardware) (lists : List ℕ) (o fuel : ℕ) (k : Kernel) (c : ℕ → List ℕ)
      (rs ws bytes : List ℕ)
      → Piped hw k lists c o rs ws bytes
      → length ws + 3 * length rs + beyond bytes ≤ fuel
      → Drained hw k lists o rs ws (drain_readers hw fuel o k)
  readers-Drained hw lists o zero k c rs ws [] h enough = absurd (omega (arith, enough))
  readers-Drained hw lists o zero k c rs ws (b ∷ bytes) h enough = absurd (omega (arith, enough))
  readers-Drained hw lists o (suc fuel) k c [] ws [] h enough =
      Drained-at_once hw k lists o [] ws (drain_readers hw (suc fuel) o k) c [] h (inl refl)
        (readers_empty hw k lists c o fuel [] ws h)
  readers-Drained hw lists o (suc fuel) k c (r ∷ rs) ws [] h enough =
      Drained-later hw k lists o (r ∷ rs) ws (drain_readers hw (suc fuel) o k) k
        (drain_writers hw fuel o k) refl
        (readers_empty hw k lists c o fuel (r ∷ rs) ws h ∙ ground arith)
        (writers-Drained hw lists o fuel k c (r ∷ rs) ws [] h (omega (arith, enough)))
  readers-Drained hw lists o (suc fuel) k c [] ws (b ∷ bytes) h enough =
      Drained-at_once hw k lists o [] ws (drain_readers hw (suc fuel) o k) c (b ∷ bytes) h
        (inl refl) (no_reader hw k lists c o fuel ws b bytes h)
  readers-Drained hw lists o (suc fuel) k c (q ∷ qs) ws (b ∷ bytes) h enough =
      let (k1, run, (c1, bytes1, h1), current) = a_reader hw k lists c o fuel q qs ws b bytes h in
      Drained-reader hw k lists o qs ws (drain_readers hw (suc fuel) o k) k1 q
        (drain_readers hw fuel o k1) current run
        (readers-Drained hw lists o fuel k1 c1 qs ws bytes1 h1
          (omega (arith, beyond-le bytes1, enough)))

pub drain_fuel-run :
    (hw : Hardware) (k : Kernel) (lists : List ℕ) (c : ℕ → List ℕ) (o : ℕ) (rs ws bytes : List ℕ)
    → Piped hw k lists c o rs ws bytes
    → drain_fuel o k
      ≡ some (
        4 + suc (length ws) + suc (length rs) + suc (length rs) + suc (length rs) + suc (length rs),
        k,
      )
unfolding drain_fuel
drain_fuel-run hw k lists c o rs ws bytes h =
    rw
      (
        Waits-count k lists c (readers o) rs h.inv h.reads,
        Waits-count k lists c (writers o) ws h.inv h.writes,
      )
      refl

-- The fuel that each of the two is given, and what it does with it.
pub drain_writers-Drained :
    (hw : Hardware) (k : Kernel) (lists : List ℕ) (c : ℕ → List ℕ) (o : ℕ) (rs ws bytes : List ℕ)
    → Piped hw k lists c o rs ws bytes
    → (fuel : ℕ) × (drain_fuel o k ≡ some (fuel, k))
      × Drained hw k lists o rs ws (drain_writers hw fuel o k)
drain_writers-Drained hw k lists c o rs ws bytes h = (
  _,
  drain_fuel-run hw k lists c o rs ws bytes h,
  writers-Drained hw lists o _ k c rs ws bytes h (omega arith),
)

pub drain_readers-Drained :
    (hw : Hardware) (k : Kernel) (lists : List ℕ) (c : ℕ → List ℕ) (o : ℕ) (rs ws bytes : List ℕ)
    → Piped hw k lists c o rs ws bytes
    → (fuel : ℕ) × (drain_fuel o k ≡ some (fuel, k))
      × Drained hw k lists o rs ws (drain_readers hw fuel o k)
drain_readers-Drained hw k lists c o rs ws bytes h = (
  _,
  drain_fuel-run hw k lists c o rs ws bytes h,
  readers-Drained hw lists o _ k c rs ws bytes h (omega (arith, beyond-le bytes)),
)

-- Where the processes that wait for a pipe have mapped their buffers, SyncDrainReaders and
-- SyncDrainWriters, which call one another, come to an end. The invariant holds then, the bytes in the
-- pipe are a queue, those that still wait are the last of those that waited, and none waits to read
-- while there is a byte in the pipe or a process that waits to write.
pub drains_lem :
    (hw : Hardware) (k : Kernel) (lists : List ℕ) (c : ℕ → List ℕ) (o : ℕ) (rs ws bytes : List ℕ)
    → Piped hw k lists c o rs ws bytes
    → Drained hw k lists o rs ws ((do fuel ← drain_fuel o; drain_readers hw fuel o) k)
      × Drained hw k lists o rs ws ((do fuel ← drain_fuel o; drain_writers hw fuel o) k)
drains_lem hw k lists c o rs ws bytes h =
    let r = drain_fuel-run hw k lists c o rs ws bytes h in
    (
      rw r (readers-Drained hw lists o _ k c rs ws bytes h (omega (arith, beyond-le bytes))),
      rw r (writers-Drained hw lists o _ k c rs ws bytes h (omega arith)),
    )
