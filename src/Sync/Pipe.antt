-- ===== src/Sync/Pipe.antt =====
-- sync.c: pipes.
pub mod Bytes
pub mod Ring
pub mod Take
pub mod Put
pub mod Fill
pub mod Drain
pub mod Waiting
pub mod Writing
pub mod Drained
pub mod Drains
pub mod Refills
pub mod Caller
pub mod ReadLoop
pub mod Read
pub mod Write
pub mod RoundTrip
pub mod Codes
use sasha_jakob.Base.{
  ℕ, zero, suc, ◌+◌, ◌%◌, Bool, true, false, none, some, ◌&&◌, not, ◌==◌, if◌then◌else◌, get_elem?,
  set, replicate, ℤ, pos, negsuc, eq_ℤ, ltb_ℤ, sub_ℤ, suc_ℤ, pred_ℤ, is_positive, pos_part, error,
  success, and_then, pure, fault, ◌>>=◌, ◌>>◌,
}
use sasha_jakob.Links.{
  null, put, map_list, rounds, list_init, insert_tail, insert_head, pop, load_count,
}
use sasha_jakob.Kernel.{
  K, Hardware, Pipe, pipe, process_default, process_blocked, get, load_pcb, modify_pcb, load_sync,
  load_pipe, modify_pipe, load_byte, store_byte, on_links, store_int, queue_node,
  pcb_from_queue_node, readers, writers,
}
use sasha_jakob.Process.Queue.{add_to_ready_queue}
use sasha_jakob.Process.Exit.{set_reg0}
use sasha_jakob.Sync.Table.{pcb_blocked, get_check_sync, init_sync_object, free_pipe}
use sasha_jakob.Sync.Lock.{table_full}
use sasha_jakob.Sync.Pipe.Bytes.{
  buffer_at, get_byte, read_loop, put_byte, write_byte, fill_loop, send_loop, take_loop,
}
use sasha_jakob.Sync.Pipe.Drain.{
  release_writer, release_reader, min_ℤ, serve_reader, waiting, drain_writers, drain_readers,
  drain_fuel,
}

-- `malloc(sizeof(pipe_t))`; the fields are not determined until they are written.
new_pipe : Hardware → ℕ → K (Unit {0})
new_pipe hw o k =
    if o == null
    then none
    else pure tt (record k {
      pipes = put k.pipes o (record {
        buffer = replicate hw.pipe_buffer_len 0;
        read_pos = 0;
        write_pos = 0;
        bytes_in_buffer = pos 0;
        open_for_read = false;
        open_for_write = false;
      });
      links = map_list (writers o) (map_list (readers o) k.links);
    })

-- `fresh` and `fresh_sync` are what `malloc` returns for the pipe and for its sync object.
unfoldable pub sync_init_pipe : Hardware → (pipe_idp fresh fresh_sync : ℕ) → K ℤ
unfolding new_pipe
sync_init_pipe hw pipe_idp fresh fresh_sync = do
  full ← get table_full
  if full then pure error else do
    new_pipe hw fresh
    modify_pipe fresh (λ v. record v { read_pos = 0; write_pos = 0; bytes_in_buffer = pos 0 })
    on_links (list_init (readers fresh))
    on_links (list_init (writers fresh))
    modify_pipe fresh (λ v. record v { open_for_read = true; open_for_write = true })
    rc ← init_sync_object pipe fresh fresh_sync
    if eq_ℤ rc error
        then (free_pipe fresh >> pure error)
        else do store_int pipe_idp rc; pure success

read_object : Hardware → ℤ → ℕ → (buf : ℕ) → ℤ → K ℤ
unfolding read_loop get_byte drain_fuel drain_writers
read_object hw pipe_id o buf len = do
  curr ← get (λ k. k.current_process)
  v ← load_pipe o
  if not v.open_for_read
      then pure error
      else if eq_ℤ v.bytes_in_buffer (pos 0)
      then (do
        modify_pcb curr
            (λ c. record c { waiting_pipe_id = pipe_id; pipe_buffer = buf; pipe_len = len })
        on_links (insert_tail (readers o) (queue_node curr))
        modify_pcb curr (λ c. record c { state = process_blocked })
        pure pcb_blocked)
      else do
        read_loop hw o (pos_part (min_ℤ len v.bytes_in_buffer)) buf
        modify_pcb curr
            (λ c. record c { user_context = set_reg0 (min_ℤ len v.bytes_in_buffer) c.user_context })
        modify_pipe o (λ w. record w {
          bytes_in_buffer = sub_ℤ w.bytes_in_buffer (min_ℤ len v.bytes_in_buffer);
        })
        fuel ← drain_fuel o
        drain_writers hw fuel o
        pure success

unfoldable pub sync_read_pipe : Hardware → ℤ → (buf : ℕ) → ℤ → K ℤ
unfolding read_object get_byte
sync_read_pipe hw pipe_id buf len = do
  found ← get_check_sync pipe_id pipe
  elim found [
    | none ↦ pure error
    | some sync ↦ do v ← load_sync sync; read_object hw pipe_id v.object buf len
  ]

write_object : Hardware → ℤ → ℕ → (buf : ℕ) → ℤ → K ℤ
unfolding send_loop write_byte drain_fuel drain_readers
write_object hw pipe_id o buf len = do
  v ← load_pipe o
  if not v.open_for_write then pure error else do
    writer ← get (λ k. k.current_process)
    modify_pcb writer (λ c. record c { write_loc = pos 0 })
    send_loop hw (pos_part (sub_ℤ (pos hw.pipe_buffer_len) v.bytes_in_buffer)) o writer buf len
    w ← load_pcb writer
    if ltb_ℤ w.write_loc len
        then (do
          modify_pcb writer (λ c. record c {
            pipe_buffer = buf;
            pipe_len = len;
            waiting_pipe_id = pipe_id;
            state = process_blocked;
          })
          on_links (insert_tail (writers o) (queue_node writer))
          fuel ← drain_fuel o
          drain_readers hw fuel o
          pure pcb_blocked)
        else do
          modify_pcb writer (λ c. record c { user_context = set_reg0 len c.user_context })
          fuel ← drain_fuel o
          drain_readers hw fuel o
          pure success

unfoldable pub sync_write_pipe : Hardware → ℤ → (buf : ℕ) → ℤ → K ℤ
unfolding write_object write_byte
sync_write_pipe hw pipe_id buf len = do
  found ← get_check_sync pipe_id pipe
  elim found [
    | none ↦ pure error
    | some sync ↦ do v ← load_sync sync; write_object hw pipe_id v.object buf len
  ]
