-- ===== src/Tests/Pipes.antt =====
-- sync.c: a pipe of three bytes, two of which are in use, one at the end of the buffer and one at its
-- start.
use sasha_jakob.Base.{
  ℕ, zero, suc, ◌⊎◌, ◌≤◌, success, ◌>>◌, ◌+◌, ◌<◌, ◌≡◌, refl, some, none, [], ◌∷◌, arith, pos, true,
  get_elem?, Ends, if◌then◌else◌, ◌==◌, ◌>>=◌, ℕ_discrete,
}
use sasha_jakob.Kernel.{Kernel, Pipe, process_blocked, process_running, pipe, readers, writers}
use sasha_jakob.Process.Queue.Placed.{Inv-same}
use sasha_jakob.Sync.Pipe.Drain.{drain_fuel, drain_readers, drain_writers}
use sasha_jakob.Sync.Pipe.Fill.{Fills, fill_loop-Fills}
use sasha_jakob.Sync.Pipe.Waiting.{Piped}
use sasha_jakob.Sync.Pipe.Drained.{Drained}
use sasha_jakob.Sync.Pipe.Drains.{drains_lem}
use sasha_jakob.Sync.Pipe.Read.{Reads, sync_read_pipe_lem}
use sasha_jakob.Sync.Pipe.RoundTrip.{sync_read_pipe-sync_write_pipe}
use sasha_jakob.Sync.Pipe.Write.{Writes, sync_write_pipe_lem}
use sasha_jakob.Sync.Pipe.{sync_read_pipe, sync_write_pipe}
use sasha_jakob.Sync.Waits.{Waits-keep}
use sasha_jakob.Sync.Pipe.Bytes.{fill_loop}
use sasha_jakob.Sync.Pipe.Ring.{Ring, slot}
use sasha_jakob.Tests.Sample.{sample, sample_lists, sample_entries, pcb_in, hardware}
use sasha_jakob.Tests.Invariant.{sample-Inv}

abbrev two_bytes : Pipe
two_bytes = record {
  buffer = 7 ∷ 8 ∷ 9 ∷ [];
  read_pos = 2;
  write_pos = 1;
  bytes_in_buffer = pos 2;
  open_for_read = true;
  open_for_write = true;
}

abbrev piped : Kernel
piped = record sample { pipes = λ o. if o == 4 then some two_bytes else none; bytes = λ a. some a }

two_bytes-held :
    (i : ℕ) → i < 2 → get_elem? two_bytes.buffer (slot 3 2 i) ≡ get_elem? {A = ℕ} (9 ∷ 7 ∷ []) i
two_bytes-held zero h = refl
two_bytes-held (suc zero) h = refl
two_bytes-held (suc (suc i)) h = absurd (omega (arith, h))

two_bytes-Ring : Ring 3 two_bytes (9 ∷ 7 ∷ [])
two_bytes-Ring = record {
  sized = refl;
  room = omega arith;
  start = omega arith;
  stop = refl;
  counted = refl;
  held = two_bytes-held;
}

-- A pipe that process 1 waits to read from.
abbrev awaited : Kernel
awaited = record sample {
  pipes = λ o. if o == 2 then some two_bytes else none;
  bytes = λ a. some a;
}

awaited-Piped : Piped hardware awaited sample_lists sample_entries 2 (1 ∷ []) [] (9 ∷ 7 ∷ [])
awaited-Piped = record {
  inv =
      Inv-same sample-Inv (record { ready = refl; delay = refl; blocked = refl; zombie = refl })
        refl refl;
  reads = record {
    listed = refl;
    waits = refl;
    ne_ready = omega arith;
    ne_delay = omega arith;
    ne_zombie = omega arith;
    alive = λ q i. elim (ℕ_discrete q 1) [
      | yes e ↦ rw e (omega arith, refl)
      | no ne ↦ absurd (ground (arith, i))
    ];
  };
  writes = record {
    listed = refl;
    waits = refl;
    ne_ready = omega arith;
    ne_delay = omega arith;
    ne_zombie = omega arith;
    alive = λ q i. cc;
  };
  pipe = (two_bytes, refl, two_bytes-Ring);
  reader = λ q i. elim (ℕ_discrete q 1) [
    | yes e ↦ (pcb_in process_blocked 1, rw e refl, (0, refl), λ a h. refl)
    | no ne ↦ absurd (ground (arith, i))
  ];
  writer = λ q i. cc;
}

drains_lem_example :
    Drained hardware awaited sample_lists 2
      (1 ∷ [])
      []
      ((do fuel ← drain_fuel 2; drain_readers hardware fuel 2) awaited)
    × Drained hardware awaited sample_lists 2
        (1 ∷ [])
        []
        ((do fuel ← drain_fuel 2; drain_writers hardware fuel 2) awaited)
drains_lem_example =
    drains_lem hardware awaited sample_lists sample_entries 2 (1 ∷ []) [] (9 ∷ 7 ∷ []) awaited-Piped

fill_loop-Fills_example :
    Fills hardware awaited 2 1 50
      (pos 1)
      (pcb_in process_blocked 1)
      0
      (9 ∷ 7 ∷ [])
      (fill_loop hardware 4 2 1 50 (pos 1) awaited)
fill_loop-Fills_example =
    fill_loop-Fills hardware awaited 2 1 50 (pos 1) 4 two_bytes (pcb_in process_blocked 1) 0
      (9 ∷ 7 ∷ []) refl two_bytes-Ring refl refl (omega arith) (λ i h. refl)

-- The same pipe with an id.
abbrev awaited_named : Kernel
awaited_named = record awaited {
  sync_objs = λ s. if s == 24 then some (record { type = pipe; id = pos 3; object = 2 }) else none;
}

awaited_named-Piped :
    Piped hardware awaited_named sample_lists sample_entries 2 (1 ∷ []) [] (9 ∷ 7 ∷ [])
awaited_named-Piped =
    let before = awaited-Piped in
    record {
      inv =
          Inv-same before.inv (record { ready = refl; delay = refl; blocked = refl; zombie = refl })
            refl refl;
      reads =
          Waits-keep awaited awaited_named sample_lists sample_entries sample_entries (readers 2)
            (1 ∷ []) before.reads
            (record { ready = refl; delay = refl; blocked = refl; zombie = refl }) refl (λ q e. e);
      writes =
          Waits-keep awaited awaited_named sample_lists sample_entries sample_entries (writers 2) []
            before.writes (record { ready = refl; delay = refl; blocked = refl; zombie = refl })
            refl (λ q e. e);
      pipe = (two_bytes, refl, two_bytes-Ring);
      reader = before.reader;
      writer = before.writer;
    }

-- The running process asks for one of the two bytes.
sync_read_pipe_lem_example : Ends (sync_read_pipe hardware (pos 3) 60 (pos 1) awaited_named) (
    Reads hardware awaited_named sample_lists sample_entries 2 60 1
      (pcb_in process_running 2)
      (1 ∷ [])
      []
      (9 ∷ 7 ∷ []))
sync_read_pipe_lem_example =
    sync_read_pipe_lem hardware awaited_named sample_lists sample_entries 2 (1 ∷ []) [] (9 ∷ 7 ∷ [])
      awaited_named-Piped (pcb_in process_running 2) refl 3 24 60 1 two_bytes
      (record { small = omega arith; entry = refl; real = omega arith; object = refl }) refl refl
      (omega arith) (λ i h. refl)

-- The running process writes one byte, which fits.
sync_write_pipe_lem_example : Ends (sync_write_pipe hardware (pos 3) 60 (pos 1) awaited_named) (
    Writes hardware awaited_named sample_lists sample_entries 2 1
      (pcb_in process_running 2)
      (1 ∷ [])
      []
      (9 ∷ 7 ∷ 60 ∷ []))
sync_write_pipe_lem_example =
    sync_write_pipe_lem hardware awaited_named sample_lists sample_entries 2 (1 ∷ []) []
      (9 ∷ 7 ∷ []) (60 ∷ []) awaited_named-Piped (pcb_in process_running 2) 3 24 60 two_bytes refl
      (record { small = omega arith; entry = refl; real = omega arith; object = refl }) refl refl
      (omega arith) written
  where
    written : (i : ℕ) → i < 1 → some (60 + i) ≡ get_elem? {A = ℕ} (60 ∷ []) i
    written zero h = refl
    written (suc i) h = absurd (omega (arith, h))

-- A pipe of three bytes that is empty, and for which no process waits.
abbrev empty_pipe : Pipe
empty_pipe = record two_bytes { read_pos = 1; write_pos = 1; bytes_in_buffer = pos 0 }

abbrev idle_pipe : Kernel
idle_pipe = record sample {
  pipes = λ o. if o == 1 then some empty_pipe else none;
  bytes = λ a. some a;
  sync_objs = λ s. if s == 24 then some (record { type = pipe; id = pos 3; object = 1 }) else none;
}

idle_pipe-Piped : Piped hardware idle_pipe sample_lists sample_entries 1 [] [] []
idle_pipe-Piped = record {
  inv =
      Inv-same sample-Inv (record { ready = refl; delay = refl; blocked = refl; zombie = refl })
        refl refl;
  reads = record {
    listed = refl;
    waits = refl;
    ne_ready = omega arith;
    ne_delay = omega arith;
    ne_zombie = omega arith;
    alive = λ q i. cc;
  };
  writes = record {
    listed = refl;
    waits = refl;
    ne_ready = omega arith;
    ne_delay = omega arith;
    ne_zombie = omega arith;
    alive = λ q i. cc;
  };
  pipe = (
    empty_pipe,
    refl,
    record {
      sized = refl;
      room = omega arith;
      start = omega arith;
      stop = refl;
      counted = refl;
      held = λ i h. elim h [ ];
    },
  );
  reader = λ q i. cc;
  writer = λ q i. cc;
}

-- The bytes at 60 go through the pipe to 80, over the end of its buffer.
sync_read_pipe-sync_write_pipe_example :
    Ends
      ((do sync_write_pipe hardware (pos 3) 60 (pos 3); sync_read_pipe hardware (pos 3) 80 (pos 3))
        idle_pipe)
      λ rc k'.
        (rc ≡ success)
        × ((i : ℕ) → i < 3 → k'.bytes (80 + i) ≡ get_elem? {A = ℕ} (60 ∷ 61 ∷ 62 ∷ []) i)
        × ((a : ℕ) → (a < 80) ⊎ (83 ≤ a) → k'.bytes a ≡ some a)
        × Piped hardware k' sample_lists sample_entries 1 [] [] []
sync_read_pipe-sync_write_pipe_example =
    sync_read_pipe-sync_write_pipe hardware idle_pipe sample_lists sample_entries 1
      (60 ∷ 61 ∷ 62 ∷ []) idle_pipe-Piped (pcb_in process_running 2) 3 24 60 80 empty_pipe refl
      (record { small = omega arith; entry = refl; real = omega arith; object = refl }) refl refl
      refl (omega arith) (omega arith) cells (λ i h. refl)
  where
    cells : (i : ℕ) → i < 3 → some (60 + i) ≡ get_elem? {A = ℕ} (60 ∷ 61 ∷ 62 ∷ []) i
    cells zero h = refl
    cells (suc zero) h = refl
    cells (suc (suc zero)) h = refl
    cells (suc (suc (suc i))) h = absurd (omega (arith, h))
