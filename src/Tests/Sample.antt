-- ===== src/Tests/Sample.antt =====
-- A kernel in the middle of its work. Process 2 runs, process 3 is ready, process 1 waits for a lock
-- that process 2 holds, process 5 is between two queues, process 6 is the idle one, process 7 waits for its last tick, and
-- process 8 is a zombie and a child of process 2. Id 0 names a free lock, id 1 the lock of process 2,
-- id 2 a lock of process 3, id 3 a pipe, and id 4 a condition variable that process 4 waits for.
use sasha_jakob.Base.{
  ℕ, ◌+◌, ◌*◌, ◌/◌, refl, success, and_then, Option, none, some, List, [], ◌∷◌, ◌==◌, if◌then◌else◌,
  ◌||◌, true, false, replicate, pos, negsuc,
}
use sasha_jakob.Links.{Links}
use sasha_jakob.Memory.{mapped, unmapped}
use sasha_jakob.Kernel.{
  Kernel, Pcb, Pte, Hardware, Machine, Switches, Copies, frame_of, with_page, ProcessState,
  process_default, process_running, process_ready, process_delayed, process_blocked, process_zombie,
  pipe, lock, cvar,
}

-- A table of eight entries; the first one maps the frame.
abbrev pub sample_table : ℕ → List Pte
sample_table f = mapped f 3 ∷ replicate 7 unmapped

abbrev pub pcb_in : ProcessState → ℕ → Pcb
pcb_in st p = record {
  user_context = record { code = pos 0; addr = 0; pc = 0; sp = 65536; regs = λ _. pos 0 };
  kernel_context = 0;
  pid = pos p;
  region1_pt = sample_table 2;
  kernel_stack = mapped (10 + p) 3 ∷ mapped (20 + p) 3 ∷ [];
  brk = 8192;
  state = st;
  time_slice = pos 1;
  run_time = pos 0;
  delay_ticks = pos 0;
  exit_code = pos 0;
  parent = 0;
  waiting_for_children = pos 0;
  tty_read_buffer = 0;
  tty_read_len = pos 0;
  tty_read_terminal = pos 0;
  tty_write_buffer = 0;
  tty_write_len = pos 0;
  tty_write_terminal = pos 0;
  tty_write_offset = pos 0;
  waiting_lock_id = negsuc 0;
  waiting_cvar_id = negsuc 0;
  waiting_pipe_id = negsuc 0;
  pipe_buffer = 50;
  pipe_len = pos 1;
  write_loc = pos 0;
  should_fork = false;
}

abbrev pub late_pcb : Pcb
late_pcb = record (pcb_in process_delayed 7) { delay_ticks = pos 1 }

abbrev pub zombie_pcb : Pcb
zombie_pcb = record (pcb_in process_zombie 8) { parent = 2 }

-- Each list has one entry or none, so a cell's two neighbours are the same.
abbrev pub neighbour : ℕ → ℕ
neighbour x =
    if x == 803
    then 12
    else if x == 12
    then 803
    else if x == 19
    then 4
    else if x == 4
    then 19
    else if x == 43
    then 16
    else if x == 16
    then 43
    else if x == 807
    then 28
    else if x == 28
    then 807
    else if x == 815
    then 32
    else if x == 32
    then 815
    else if x == 10
    then 33
    else if x == 33
    then 10
    else x

abbrev pub sample_lists : List ℕ
sample_lists = 803 ∷ 807 ∷ 811 ∷ 815 ∷ 11 ∷ 19 ∷ 27 ∷ 43 ∷ 23 ∷ 15 ∷ []

abbrev pub sample_entries : ℕ → List ℕ
sample_entries l =
    if l == 803
    then 12 ∷ []
    else if l == 19
    then 4 ∷ []
    else if l == 43
    then 16 ∷ []
    else if l == 807
    then 28 ∷ []
    else if l == 815
    then 32 ∷ []
    else []

abbrev pub sample_links : Links
sample_links = record {
  next = λ x. some (neighbour x);
  prev = λ x. some (neighbour x);
  count = λ x.
      some
        (pos (if x == 803 || x == 19 || x == 43 || x == 807 || x == 815 || x == 10 then 1 else 0));
}

abbrev pub sample_pcbs : ℕ → Option Pcb
sample_pcbs p =
    if p == 1
    then some (pcb_in process_blocked 1)
    else if p == 2
    then some (pcb_in process_running 2)
    else if p == 3
    then some (pcb_in process_ready 3)
    else if p == 4
    then some (pcb_in process_blocked 4)
    else if p == 5
    then some (pcb_in process_default 5)
    else if p == 6
    then some (pcb_in process_default 6)
    else if p == 7
    then some late_pcb
    else if p == 8
    then some zombie_pcb
    else none

abbrev pub sample : Kernel
sample = record {
  links = sample_links;
  pcbs = sample_pcbs;
  current_process = 2;
  idle_process = 6;
  ready_queue = 803;
  delay_queue = 807;
  blocked_queue = 811;
  zombie_queue = 815;
  frame_bitmap = 1 ∷ 0 ∷ 1 ∷ 0 ∷ [];
  sync_table = 21 ∷ 22 ∷ 23 ∷ 24 ∷ 25 ∷ replicate 123 0;
  id_used = 1 ∷ 1 ∷ 1 ∷ 1 ∷ 1 ∷ replicate 123 0;
  global_sync_counter = pos 5;
  sync_objs = λ s.
      if s == 21
      then some (record { type = lock; id = pos 0; object = 1 })
      else if s == 22
      then some (record { type = lock; id = pos 1; object = 2 })
      else if s == 23
      then some (record { type = lock; id = pos 2; object = 3 })
      else if s == 24
      then some (record { type = pipe; id = pos 3; object = 4 })
      else if s == 25
      then some (record { type = cvar; id = pos 4; object = 5 })
      else none;
  pipes = λ _. none;
  locks = λ o.
      if o == 1
      then some (record { locked = false; owner = 0 })
      else if o == 2
      then some (record { locked = true; owner = 2 })
      else if o == 3
      then some (record { locked = true; owner = 3 })
      else none;
  cvars = λ o. if o == 5 then some tt else none;
  bytes = λ _. none;
  ints = λ _. none;
  region0_pt = sample_table 0;
  vm_enabled = true;
  kernel_brk = 8192;
  pages = λ _. 0;
  register_writes = [];
}

-- A machine with pages of 8 KB, a kernel stack of two pages, and tables of eight pages, of which the program
-- uses four.
abbrev pub hardware : Hardware
hardware = record {
  num_vpn = 4;
  max_pt_len = 4;
  pipe_buffer_len = 3;
  kernel_stack_pages = 2;
  kernel_stack_page = 6;
  kernel_stack_limit = 8;
  page_size = 8192;
  region1_pages = 4;
  vmem_0_limit = 65536;
  vmem_1_base = 65536;
  vmem_1_limit = 131072;
  vmem_region_size = 65536;
  prot_read = 1;
  prot_write = 2;
  prot_exec = 4;
  tlb_flush_all = 0;
  tlb_flush_1 = 1;
  tlb_flush_kstack = 3;
  up_to_page = λ n. (n + 8191) / 8192 * 8192;
  down_to_page = λ n. n / 8192 * 8192;
}

-- The context is the number of the process that runs.
abbrev pub machine_on : Hardware → Machine
machine_on hw = record {
  hw = hw;
  kernel_context = λ k. k.current_process;
  context_switch = λ f k. and_then (f k.current_process k) λ r. some (success, r.1);
  copy_page = λ dest source k.
      and_then (frame_of hw k dest)
        λ to. and_then (frame_of hw k source) λ from. some (tt, with_page k to (k.pages from));
  region0_address = 1;
  trap_handlers_address = 2;
}

abbrev pub machine : Machine
machine = machine_on hardware

pub machine-Switches : Switches machine
machine-Switches = record { enters = λ f k k' r run. rw run refl }

pub machine_on-Copies : (hw : Hardware) → Copies (machine_on hw)
machine_on-Copies hw = record { copies = λ k dest source to from at at'. rw (at, at') refl }
