-- ===== src/Sync/Pipe/RoundTrip.antt =====
-- sync.c: what SyncWritePipe puts into a pipe, SyncReadPipe gets out of it.
use sasha_jakob.Base.{
  ℕ, ◌+◌, ◌<◌, ◌≤◌, ◌≡◌, refl, Option, some, is_some, true, List, [], ◌∷◌, ap, ◌∙◌, arith, ==-refl,
  length, get_elem?, Ends, ◌⊎◌, pos, success, subst, ◌>>◌,
}
use sasha_jakob.Kernel.{Kernel, Hardware, Pipe, Pcb, pipe}
use sasha_jakob.Sync.Table.Names.{Names}
use sasha_jakob.Sync.Pipe.{sync_read_pipe, sync_write_pipe}
use sasha_jakob.Sync.Pipe.Take.{drop}
use sasha_jakob.Sync.Pipe.Waiting.{Piped}
use sasha_jakob.Sync.Pipe.Refills.{drain_readers-quiet, drain_writers-quiet}
use sasha_jakob.Sync.Pipe.Read.{share, read_until}
use sasha_jakob.Sync.Pipe.Write.{wrote, through, write_until}

share-length : (xs : List ℕ) → share (length xs) xs ≡ length xs
share-length xs = ground arith

drop-length : (xs : List ℕ) → drop (length xs) xs ≡ []
drop-length [] = refl
drop-length (x ∷ xs) = drop-length xs

-- The names of the sync objects do not depend on the pipes.
Names-wrote :
    (k : Kernel) (id sync o len : ℕ) (ps : ℕ → Option Pipe) (u : Pcb)
    → Names k id sync pipe o
    → Names (wrote k len ps u) id sync pipe o
Names-wrote k id sync o len ps u n = record {
  small = n.small;
  entry = n.entry;
  real = n.real;
  object = n.object;
}

-- Where no process waits for an empty pipe that is open for both, a write of bytes that fit and a read of
-- as many end. The bytes stand in the memory of the read then, in their order; no other memory has changed,
-- and the pipe is empty and the invariant holds.
pub sync_read_pipe-sync_write_pipe :
    (hw : Hardware) (k : Kernel) (lists : List ℕ) (c : ℕ → List ℕ) (o : ℕ) (more : List ℕ)
    → Piped hw k lists c o [] [] []
    → (u : Pcb) (id sync buf dest : ℕ) (v : Pipe) → k.pcbs k.current_process ≡ some u
    → Names k id sync pipe o
    → k.pipes o ≡ some v
    → v.open_for_write ≡ true
    → v.open_for_read ≡ true
    → 0 < length more
    → length more ≤ hw.pipe_buffer_len
    → ((i : ℕ) → i < length more → k.bytes (buf + i) ≡ get_elem? more i)
    → ((i : ℕ) → i < length more → is_some (k.bytes (dest + i)) ≡ true)
    → Ends
        ((do
          sync_write_pipe hw (pos id) buf (pos (length more))
          sync_read_pipe hw (pos id) dest (pos (length more)))
          k)
        λ rc k'.
          (rc ≡ success)
          × ((i : ℕ) → i < length more → k'.bytes (dest + i) ≡ get_elem? more i)
          × ((a : ℕ) → (a < dest) ⊎ (dest + length more ≤ a) → k'.bytes a ≡ k.bytes a)
          × Piped hw k' lists c o [] [] []
sync_read_pipe-sync_write_pipe hw k lists c o more h u id sync buf dest v at names here for_write
      for_read some_byte fits cells room =
    let len = length more in
    let (ps, v', there, same, piped, wrote_all) =
      write_until hw k lists c o [] [] [] more h u id sync buf v at names here for_write
        (omega (arith, fits)) cells in
    let k1 = wrote k len ps u in
    let (fuel, fueled, quiet) = drain_readers-quiet hw k1 lists c o more piped in
    let write : sync_write_pipe hw (pos id) buf (pos len) k ≡ some (success, k1) =
      wrote_all fuel k1 fueled quiet in
    let (got, moved, others, _, left, got_them) =
      read_until hw k1 lists c o [] [] more piped (through u len)
        (rw (==-refl k.current_process) refl) id sync dest len v'
        (Names-wrote k id sync o len ps u names) there (same ∙ for_read) some_byte room in
    let all : share len more ≡ len = share-length more in
    let empty : drop (share len more) more ≡ [] = ap (λ n. drop n more) all ∙ drop-length more in
    let drained : Piped hw got lists c o [] [] [] =
      subst (Piped hw got lists c o [] []) empty left in
    let (fuel', fueled', quiet') = drain_writers-quiet hw got lists c o drained in
    (
      success,
      got,
      rw (write) (got_them fuel' got fueled' quiet'),
      (refl, (λ i small. moved i (rw (all) small)), (λ a out. others a (rw (all) out)), drained),
    )
