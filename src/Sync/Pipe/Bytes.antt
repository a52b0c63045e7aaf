-- ===== src/Sync/Pipe/Bytes.antt =====
-- sync.c: the loops that copy bytes into a pipe's buffer and out of it. A `char *` is the address of
-- its first byte, and `dest[i]` the byte `i` behind it.
use sasha_jakob.Base.{
  ℕ, zero, suc, ◌+◌, ◌%◌, some, ◌&&◌, not, if◌then◌else◌, get_elem?, set, ℤ, pos, ltb_ℤ, suc_ℤ,
  pred_ℤ, pos_part, and_then, pure, fault, ◌>>=◌, ◌>>◌,
}
use sasha_jakob.Kernel.{
  K, Hardware, Pipe, load_pcb, modify_pcb, load_pipe, modify_pipe, load_byte, store_byte,
}

-- `pipe->buffer[i]`, read and written; outside the buffer a fault.
abbrev pub buffer_at : Pipe → ℕ → K ℕ
buffer_at v i k = and_then (get_elem? v.buffer i) λ b. some (b, k)

-- One byte goes from the buffer to `dest`.
unfoldable pub get_byte : Hardware → ℕ → (dest : ℕ) → K (Unit {0})
get_byte hw o dest = do
  v ← load_pipe o
  b ← buffer_at v v.read_pos
  store_byte dest b
  modify_pipe o (λ w. record w { read_pos = (w.read_pos + 1) % hw.pipe_buffer_len })

-- The rounds of the copy that are left, and the next address.
unfoldable pub read_loop : Hardware → ℕ → (left dest : ℕ) → K (Unit {0})
read_loop hw o zero dest = pure tt
read_loop hw o (suc left) dest = do get_byte hw o dest; read_loop hw o left (dest + 1)

-- One byte goes from `src` to the buffer, and is counted.
unfoldable pub put_byte : Hardware → ℕ → (src : ℕ) → K (Unit {0})
put_byte hw o src = do
  b ← load_byte src
  v ← load_pipe o
  buffer_at v v.write_pos
  modify_pipe o (λ w. record w {
    buffer = set w.buffer w.write_pos b;
    write_pos = (w.write_pos + 1) % hw.pipe_buffer_len;
    bytes_in_buffer = suc_ℤ w.bytes_in_buffer;
  })

-- One round of a writer: the byte at its position goes to the buffer, and the position on.
unfoldable pub write_byte : Hardware → ℕ → (writer src : ℕ) → K (Unit {0})
unfolding put_byte
write_byte hw o writer src = do
  w ← load_pcb writer
  put_byte hw o (src + pos_part w.write_loc)
  modify_pcb writer (λ v. record v { write_loc = suc_ℤ v.write_loc })

-- `while (pipe->bytes_in_buffer < PIPE_BUFFER_LEN && writer->write_loc < len)`.
unfoldable pub fill_loop : Hardware → ℕ → ℕ → (writer src : ℕ) → ℤ → K (Unit {0})
fill_loop hw zero o writer src len = fault
fill_loop hw (suc fuel) o writer src len = do
  v ← load_pipe o
  w ← load_pcb writer
  if not (ltb_ℤ v.bytes_in_buffer (pos hw.pipe_buffer_len) && ltb_ℤ w.write_loc len)
      then pure tt
      else do write_byte hw o writer src; fill_loop hw fuel o writer src len

-- `while(written < space && writer->write_loc < len)`; `left` is `space - written`.
unfoldable pub send_loop : Hardware → (left : ℕ) → ℕ → (writer src : ℕ) → ℤ → K (Unit {0})
send_loop hw zero o writer src len = pure tt
send_loop hw (suc left) o writer src len = do
  w ← load_pcb writer
  if not (ltb_ℤ w.write_loc len)
      then pure tt
      else do write_byte hw o writer src; send_loop hw left o writer src len

-- A reader's share: the bytes are copied and taken off the count one by one.
unfoldable pub take_loop : Hardware → ℕ → (left dest : ℕ) → K (Unit {0})
unfolding get_byte
take_loop hw o zero dest = pure tt
take_loop hw o (suc left) dest = do
  get_byte hw o dest
  modify_pipe o (λ w. record w { bytes_in_buffer = pred_ℤ w.bytes_in_buffer })
  take_loop hw o left (dest + 1)
