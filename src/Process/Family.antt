-- ===== src/Process/Family.antt =====
-- pcb.c: the making of a PCB, and the list of a process's children.
use sasha_jakob.Base.{
  ℕ, zero, suc, Bool, true, Option, List, [], ◌==◌, if◌then◌else◌, replicate, ℤ, pos, negsuc,
  truthy, pure, fault, ◌>>=◌, ◌>>◌,
}
use sasha_jakob.Links.{
  null, put, rounds, list_init, insert_tail, list_remove, list_is_empty, pop, load_count,
}
use sasha_jakob.Kernel.{
  K, Hardware, Pcb, Pte, process_default, process_zombie, get, load_pcb, modify_pcb, on_links,
  same_state, queue_node, children_node, children, pcb_from_children_node, free_pcb,
}

-- A page table entry as `calloc` leaves it.
abbrev pub zero_pte : Pte
zero_pte = record { valid = 0; prot = 0; pfn = 0 }

abbrev map_cells : (ℕ → Option ℕ) → ℕ → ℕ → Option ℕ
map_cells f p = put (put (put f (queue_node p) null) (children_node p) null) (children p) null

-- `malloc(sizeof(pcb_t))` at `p`: the fields hold what was in that memory before.
abbrev pub map_pcb : ℕ → Pcb → K (Unit {0})
map_pcb p old k = pure tt (record k {
  pcbs = put k.pcbs p old;
  links = record {
    next = map_cells k.links.next p;
    prev = map_cells k.links.prev p;
    count = put k.links.count (children p) (pos 0);
  };
})

-- The assignments of `create_pcb`, but for the list of children.
abbrev pub initial : List Pte → ℤ → Pcb → Pcb
initial table pid old = record old {
  pid = pid;
  state = process_default;
  time_slice = pos 4;
  run_time = pos 0;
  delay_ticks = pos 0;
  exit_code = pos 0;
  parent = null;
  waiting_for_children = pos 0;
  region1_pt = table;
  brk = null;
  tty_read_buffer = null;
  tty_read_len = pos 0;
  tty_read_terminal = negsuc 0;
  tty_write_buffer = null;
  tty_write_len = pos 0;
  tty_write_terminal = negsuc 0;
  tty_write_offset = pos 0;
  waiting_lock_id = negsuc 0;
  waiting_cvar_id = negsuc 0;
  waiting_pipe_id = negsuc 0;
  pipe_buffer = null;
  pipe_len = pos 0;
  write_loc = pos 0;
  should_fork = true;
}

-- `fresh` is what `malloc` returns, `old` what that memory held; `got_table` tells whether `calloc`
-- gave a page table; `pid` is what the framework's `helper_new_pid` returns.
unfoldable pub create_pcb :
    Hardware → (fresh : ℕ) → (old : Pcb) → (got_table : Bool) → (pid : ℤ) → K ℕ
create_pcb hw fresh old got_table pid = if fresh == null then pure null else do
  map_pcb fresh old
  on_links (list_init (children fresh))
  modify_pcb fresh (initial (if got_table then replicate hw.max_pt_len zero_pte else []) pid)
  pure fresh

unfoldable pub add_child : (parent child : ℕ) → K (Unit {0})
add_child parent child = if parent == null then pure tt else if child == null then pure tt else do
  modify_pcb child (λ v. record v { parent = parent })
  on_links (insert_tail (children parent) (children_node child))

unfoldable pub remove_child : ℕ → K (Unit {0})
remove_child child = if child == null then pure tt else do
  v ← load_pcb child
  if v.parent == null then pure tt else do
    on_links (list_remove (children v.parent) (children_node child))
    modify_pcb child (λ w. record w { parent = null })

-- The fate of one child of a process that ends.
orphan : ℕ → K (Unit {0})
orphan child = do
  v ← load_pcb child
  if same_state v.state process_zombie
      then free_pcb child
      else modify_pcb child (λ w. record w { parent = null })

orphan_loop : ℕ → ℕ → K (Unit {0})
orphan_loop zero parent = fault
orphan_loop (suc fuel) parent = do
  empty ← on_links (list_is_empty (children parent))
  if truthy empty then pure tt else do
    node ← on_links (pop (children parent))
    orphan (pcb_from_children_node node)
    orphan_loop fuel parent

-- The test for children is made on the current process, the loop runs over those of the argument.
unfoldable pub orphan_children : ℕ → K (Unit {0})
unfolding orphan_loop orphan
orphan_children parent = do
  current ← get (λ k. k.current_process)
  if current == null then pure tt else do
    empty ← on_links (list_is_empty (children current))
    if truthy empty
        then pure tt
        else do c ← on_links (load_count (children parent)); orphan_loop (rounds c) parent
