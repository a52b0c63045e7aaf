-- ===== src/Lib.antt =====
-- A model of the kernel of Sasha-Jakob, a small Unix-like kernel for the Yalnix machine.
--
-- Parts. Everything a process waits for is a circular list with a sentinel (list.c), whose nodes lie
-- inside the process control blocks. pcb.c keeps the four queues of processes over these lists, the
-- tree of parents and children, and the ways a process ends. sync.c keeps a table of locks,
-- condition variables and pipes, each with its own lists of waiting processes, and wakes a process
-- by moving it from there to the ready queue. frames.c keeps the bitmap of the physical frames, from
-- which the other parts take and return memory. memory.c keeps the page table of the kernel and its
-- break, context_switch.c exchanges the kernel stacks and copies the pages of a process. syscalls.c
-- has the scheduler, which takes the next process from the ready queue, and a handler for each system
-- call, which calls the other parts; traps.c calls these handlers through a table, and moves the
-- clock on. load_program.c fills an address space, and kernel.c makes the first two processes.
--
-- Files, and the code each models.
--   Base: numbers, lists, `int` values, and commands. A command takes a state to a value and a new
--     state, or to `none`, which is a fault of the machine: an access through NULL, or through a
--     pointer to memory that was never given out or was given back.
--   Links: list.c and list.h. A cell is a number, NULL is 0, and the maps `next`, `prev` and `count`
--     give the fields of the cells that are allocated. Links/Chain says what a well-formed list is,
--     Links/Insert, Links/Remove and Links/Walk treat the operations on one list, and Links/Heap
--     all lists of the memory at once.
--   Frames: frames.c, with the bitmap as a list of 0 and 1.
--   Kernel: the structs of pcb.h and sync.h and the globals of pcb.c, frames.c, sync.c and memory.c
--     as the record `Kernel`; Kernel/Layout places the list cells of a PCB and of a sync object, and
--     inverts the `container_of` of pcb.h. Kernel/External has what the machine does for the kernel:
--     KernelContextSwitch, which calls the function that it is given with the saved context, and the
--     copying of a page. WriteRegister only adds to the list of the registers' writes.
--   Memory: memory.c. A page table is a list of entries. Memory/Owned says that a table's frames are
--     marked and its own; Memory/Shrink, Grow and Break follow SetKernelBrk.
--   Switch: context_switch.c. Switch/Stack has the mapping of a kernel stack, Switch/Enter
--     KCSwitch, Switch/CopyOne and Switch/Copy CopyPageTable.
--   Calls: syscalls.c. A handler takes what `*uctxt` holds and returns what it holds at the end.
--     Calls/Schedule has schedule (Switched and Next) and SysDelay (Delay, Single and Wakes),
--     Calls/Family the calls on processes, Calls/Brk SysBrk, Calls/Sync the calls on pipes, locks
--     and condition variables, Calls/Table the table of the handlers and kernel_handler of traps.c.
--   Traps: the other handlers of traps.c.
--   System: syscalls.c, traps.c and pcb.c together. System/Sound is what holds of the kernel between
--     two traps; System/Delay, Tick and Clock keep it, System/Reached follows any sequence of clock
--     traps and SysDelay, System/Turns the turns of the ready processes, and System/Wakeup a delayed
--     process to the clock trap that wakes it.
--   Load: load_program.c. Load/Sections maps one section, Load/Space puts the pages of several
--     together, Load/Built is the address space; Load/Layout is where the arguments stand, Load/Stores
--     where a store into user memory ends and what it leaves as it is, Load/Protect and Load/Filled have the rest, Load/Whole all of it.
--   Boot: kernel.c.
--   Process: pcb.c. Process/Queue has the queues and the invariant that ties a process's state to the
--     list that holds it, Process/Family create_pcb and the children, Process/Scan the loops over
--     the queues (Delay, Ticks and Wakeup for the clock tick, Search for the searches), Process/Exit
--     terminate_process and what it frees (Freed for the frames of region 1).
--   Sync: sync.c. Sync/Table has the ids and the sync objects, Sync/Lock, Sync/Cvar and Sync/Pipe the
--     three kinds of object. Sync/Lock/Spec is what a lock promises, an owner and a queue, which
--     Acquire, HandOver and Release follow; Sync/Waits is a queue of waiting processes, which
--     Sync/Cvar/Wakes and Sync/Cvar/Wait follow; Sync/Pipe/Bytes and Sync/Pipe/Drain are the loops
--     of the pipes, Sync/Pipe/Ring reads a pipe's buffer as a queue of bytes, for Put, Fill and Take,
--     Sync/Pipe/Waiting, Writing, Drained, Drains and Refills follow the draining of the waiting processes,
--     ReadLoop and Read a call of SyncReadPipe, Write one of SyncWritePipe, RoundTrip both.
--   Tests: a kernel in the middle of its work, on which the theorems are applied.
--
-- Bounds and fuel. A loop over a list runs on fuel, one more than the number of entries that the
-- list's `count` claims, and faults when it runs out; the loops of a well-formed list need no more.
-- A loop with a counter runs on the number of rounds left. The mutual recursion of SyncDrainReaders
-- and SyncDrainWriters runs on fuel counted from the processes that wait in the pipe's two lists:
-- each call takes a process out of a list for good, or is followed by one that takes out a reader.
-- An `int` is a mathematical integer here: its overflow, which C leaves undefined, is out of reach of
-- counts that are bounded by the number of processes. The table of ids has MAX_SYNCS = 128 entries;
-- NUM_VPN, MAX_PT_LEN and PIPE_BUFFER_LEN come from the machine's hardware.h and are parameters.
--
-- What `malloc` returns is an argument of the function that calls it, 0 for a failure. A freed
-- struct's fields are gone, so that a later access faults. `TracePrintf` has no effect on the state
-- and is left out, but the fields that its arguments read are read.
--
-- schedule runs in two processes: up to the switch in the one that leaves, behind it in the one that
-- comes in, whose context is in its PCB. The model follows the processor, so one call of `schedule`
-- is both parts, and what a handler does behind its call is a function that takes over when the
-- process is back. `Halt` stops the machine, which is a fault here.
--
-- A process that SysFork has made comes in for the first time behind KCCopy in SysFork, on its copy of
-- the stack, and not behind the switch in schedule. That return is not modelled: for such a process the
-- model's schedule stops being the code's at the switch.
--
-- Not modelled: SysTtyRead and SysTtyWrite, which are empty, and DoIdle, which waits for ever. The files
-- that LoadProgram reads, LoadInfo, and its stores into the memory of the process are arguments; so
-- are the codes of yalnix.h and the sizes and macros of hardware.h.
pub mod Base
pub mod Links
pub mod Frames
pub mod Kernel
pub mod Memory
pub mod Switch
pub mod Calls
pub mod Traps
pub mod Load
pub mod Boot
pub mod Process
pub mod Sync
pub mod System
pub mod Tests
