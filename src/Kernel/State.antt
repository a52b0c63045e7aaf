-- ===== src/Kernel/State.antt =====
-- The data types of pcb.h, sync.h and the hardware.
use sasha_jakob.Base.{ℕ, Bool, Option, List, ℤ}
use sasha_jakob.Links.{Links}

-- The constants and the macros that hardware.h defines: NUM_VPN, MAX_PT_LEN, PIPE_BUFFER_LEN, the
-- number of pages of a kernel stack, KERNEL_STACK_MAXSIZE >> PAGESHIFT, its first page,
-- KERNEL_STACK_BASE >> PAGESHIFT, and the page behind it, the size of a page, the number of pages of
-- region 1, VMEM_0_LIMIT, VMEM_1_BASE, VMEM_1_LIMIT, VMEM_REGION_SIZE, the bits of a protection, the values for
-- REG_TLB_FLUSH, and UP_TO_PAGE and DOWN_TO_PAGE.
pub record Hardware : Type 0 where
  pub num_vpn : ℕ
  pub max_pt_len : ℕ
  pub pipe_buffer_len : ℕ
  pub kernel_stack_pages : ℕ
  pub kernel_stack_page : ℕ
  pub kernel_stack_limit : ℕ
  pub page_size : ℕ
  pub region1_pages : ℕ
  pub vmem_0_limit : ℕ
  pub vmem_1_base : ℕ
  pub vmem_1_limit : ℕ
  pub vmem_region_size : ℕ
  pub prot_read : ℕ
  pub prot_write : ℕ
  pub prot_exec : ℕ
  pub tlb_flush_all : ℕ
  pub tlb_flush_1 : ℕ
  pub tlb_flush_kstack : ℕ
  pub up_to_page : ℕ → ℕ
  pub down_to_page : ℕ → ℕ

-- The registers that the kernel writes.
pub data Register : Type 0 where
  reg_ptbr0 reg_ptlr0 reg_ptbr1 reg_ptlr1 : Register
  reg_tlb_flush reg_vm_enable reg_vector_base : Register

-- `state_t`.
pub data ProcessState : Type 0 where
  process_default process_running process_ready process_delayed : ProcessState
  process_blocked process_zombie : ProcessState

-- The number of an enumerator.
abbrev pub state_code : ProcessState → ℕ
state_code process_default = 0
state_code process_running = 1
state_code process_ready = 2
state_code process_delayed = 3
state_code process_blocked = 4
state_code process_zombie = 5

-- `pte_t`, the fields that the kernel uses.
pub record Pte : Type 0 where
  pub valid : ℕ
  pub prot : ℕ
  pub pfn : ℕ

-- `UserContext`, the fields that the kernel uses. A register holds a word, read as an `int`.
pub record UserContext : Type 0 where
  pub code : ℤ
  pub addr : ℕ
  pub pc : ℕ
  pub sp : ℕ
  pub regs : ℕ → ℤ

-- `pcb_t`. The list nodes and the list of children are cells of the links (module Layout). A
-- `KernelContext` is only copied, so it is a value with no structure.
pub record Pcb : Type 0 where
  pub user_context : UserContext
  pub kernel_context : ℕ
  pub pid : ℤ
  pub region1_pt : List Pte
  pub kernel_stack : List Pte
  pub brk : ℕ
  pub state : ProcessState
  pub time_slice : ℤ
  pub run_time : ℤ
  pub delay_ticks : ℤ
  pub exit_code : ℤ
  pub parent : ℕ
  pub waiting_for_children : ℤ
  pub tty_read_buffer : ℕ
  pub tty_read_len : ℤ
  pub tty_read_terminal : ℤ
  pub tty_write_buffer : ℕ
  pub tty_write_len : ℤ
  pub tty_write_terminal : ℤ
  pub tty_write_offset : ℤ
  pub waiting_lock_id : ℤ
  pub waiting_cvar_id : ℤ
  pub waiting_pipe_id : ℤ
  pub pipe_buffer : ℕ
  pub pipe_len : ℤ
  pub write_loc : ℤ
  pub should_fork : Bool

-- `sync_type_t`.
pub data SyncType : Type 0 where
  pipe lock cvar : SyncType

abbrev pub type_code : SyncType → ℕ
type_code pipe = 0
type_code lock = 1
type_code cvar = 2

-- `pipe_t`, `lock_t` and `sync_obj_t`. The lists of waiting processes are cells of the links; a
-- `cvar_t` holds nothing else.
pub record Pipe : Type 0 where
  pub buffer : List ℕ
  pub read_pos : ℕ
  pub write_pos : ℕ
  pub bytes_in_buffer : ℤ
  pub open_for_read : Bool
  pub open_for_write : Bool

pub record Lock : Type 0 where
  pub locked : Bool
  pub owner : ℕ

pub record SyncObj : Type 0 where
  pub type : SyncType
  pub id : ℤ
  pub object : ℕ

-- The globals, and the memory behind the pointers. `bytes` are the buffers of `char`, `ints` the
-- memory of a process that an `int *` of a system call points to. `region0_pt` to `kernel_brk` are
-- the globals of memory.c, `pages` is what the physical frames hold, and `register_writes` the calls
-- of WriteRegister so far, the last one first; the number of a process stands for the address of its
-- region 1 page table.
pub record Kernel : Type 0 where
  pub links : Links
  pub pcbs : ℕ → Option Pcb
  pub current_process : ℕ
  pub idle_process : ℕ
  pub ready_queue : ℕ
  pub delay_queue : ℕ
  pub blocked_queue : ℕ
  pub zombie_queue : ℕ
  pub frame_bitmap : List ℕ
  pub sync_table : List ℕ
  pub id_used : List ℕ
  pub global_sync_counter : ℤ
  pub sync_objs : ℕ → Option SyncObj
  pub pipes : ℕ → Option Pipe
  pub locks : ℕ → Option Lock
  pub cvars : ℕ → Option (Unit {0})
  pub bytes : ℕ → Option ℕ
  pub ints : ℕ → Option ℤ
  pub region0_pt : List Pte
  pub vm_enabled : Bool
  pub kernel_brk : ℕ
  pub pages : ℕ → ℕ
  pub register_writes : List (Register × ℕ)
