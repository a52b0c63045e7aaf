-- ===== src/Sync/Pipe/Drain.antt =====
-- sync.c: SyncDrainReaders and SyncDrainWriters.
use sasha_jakob.Base.{
  ℕ, zero, suc, ◌+◌, Bool, ◌&&◌, not, ◌==◌, if◌then◌else◌, ℤ, pos, negsuc, eq_ℤ, ltb_ℤ, is_positive,
  pos_part, pure, fault, ◌>>=◌, ◌>>◌,
}
use sasha_jakob.Links.{null, rounds, insert_head, pop, load_count}
use sasha_jakob.Kernel.{
  K, Hardware, process_default, load_pcb, modify_pcb, load_pipe, on_links, pcb_from_queue_node,
  readers, writers,
}
use sasha_jakob.Process.Queue.{add_to_ready_queue}
use sasha_jakob.Process.Exit.{set_reg0}
use sasha_jakob.Sync.Pipe.Bytes.{write_byte, fill_loop, take_loop}

-- What happens to a writer that is through, and to a reader that got its bytes.
unfoldable pub release_writer : ℕ → ℤ → K (Unit {0})
release_writer writer len = do
  modify_pcb writer (λ v. record v {
    pipe_buffer = null;
    pipe_len = pos 0;
    write_loc = pos 0;
    waiting_pipe_id = negsuc 0;
    state = process_default;
    user_context = set_reg0 len v.user_context;
  })
  add_to_ready_queue writer

unfoldable pub release_reader : ℕ → ℤ → K (Unit {0})
release_reader reader to_read = do
  modify_pcb reader (λ v. record v {
    user_context = set_reg0 to_read v.user_context;
    waiting_pipe_id = negsuc 0;
    state = process_default;
  })
  add_to_ready_queue reader

-- `(a < b) ? a : b`.
abbrev pub min_ℤ : ℤ → ℤ → ℤ
min_ℤ a b = if ltb_ℤ a b then a else b

unfoldable pub serve_reader : Hardware → ℕ → ℕ → K (Unit {0})
unfolding take_loop release_reader
serve_reader hw o reader = do
  r ← load_pcb reader
  v ← load_pipe o
  take_loop hw o (pos_part (min_ℤ r.pipe_len v.bytes_in_buffer)) r.pipe_buffer
  release_reader reader (min_ℤ r.pipe_len v.bytes_in_buffer)

-- Whether any process waits in a list of the pipe.
unfoldable pub waiting : ℕ → K Bool
waiting list = do c ← on_links (load_count list); pure (not (eq_ℤ c (pos 0)))

-- `SyncDrainWriters` and `SyncDrainReaders` call one another; the fuel is for both.
unfoldable mutual
  unfolding fill_loop write_byte release_writer serve_reader waiting

  pub drain_writers : Hardware → ℕ → ℕ → K (Unit {0})
  drain_writers hw zero o = fault
  drain_writers hw (suc fuel) o = do
    node ← on_links (pop (writers o))
    if node == null
        then (do
          v ← load_pipe o
          more ← waiting (readers o)
          if not (eq_ℤ v.bytes_in_buffer (pos 0)) && more then drain_readers hw fuel o else pure tt)
        else do
          w ← load_pcb (pcb_from_queue_node node)
          fill_loop hw (suc hw.pipe_buffer_len) o (pcb_from_queue_node node) w.pipe_buffer
              w.pipe_len
          w' ← load_pcb (pcb_from_queue_node node)
          if ltb_ℤ w'.write_loc w.pipe_len
              then (do
                on_links (insert_head (writers o) node)
                v ← load_pipe o
                more ← waiting (readers o)
                if not (eq_ℤ v.bytes_in_buffer (pos 0)) && more
                    then drain_readers hw fuel o
                    else pure tt)
              else do release_writer (pcb_from_queue_node node) w.pipe_len; drain_writers hw fuel o

  pub drain_readers : Hardware → ℕ → ℕ → K (Unit {0})
  drain_readers hw zero o = fault
  drain_readers hw (suc fuel) o = do
    v ← load_pipe o
    if not (is_positive v.bytes_in_buffer)
        then (do
          more ← waiting (readers o)
          if ltb_ℤ v.bytes_in_buffer (pos hw.pipe_buffer_len) && more
              then drain_writers hw fuel o
              else pure tt)
        else do
          node ← on_links (pop (readers o))
          if node == null
              then (do
                more ← waiting (readers o)
                if ltb_ℤ v.bytes_in_buffer (pos hw.pipe_buffer_len) && more
                    then drain_writers hw fuel o
                    else pure tt)
              else do serve_reader hw o (pcb_from_queue_node node); drain_readers hw fuel o

-- Fuel for the two: each call takes a process out of a list for good, or is followed by one that
-- takes a reader out.
unfoldable pub drain_fuel : ℕ → K ℕ
drain_fuel o = do
  r ← on_links (load_count (readers o))
  w ← on_links (load_count (writers o))
  pure (4 + rounds w + rounds r + rounds r + rounds r + rounds r)
