-- ===== src/Kernel/Access.antt =====
-- Reading and writing the parts of the kernel's state.
use sasha_jakob.Base.{ℕ, Bool, Option, some, List, ◌∷◌, ℤ, ◌==◌, Cmd, and_then, get_elem?, set}
use sasha_jakob.Links.{Links, put, drop_cell}
use sasha_jakob.Kernel.State.{
  Kernel, Pcb, Pte, Pipe, Lock, SyncObj, ProcessState, Register, state_code,
}
use sasha_jakob.Kernel.Layout.{queue_node, children_node, children}

abbrev pub K : Type 0 → Type 0
K A = Cmd Kernel A

-- A list operation, and an operation on the frames' bitmap, as steps of the kernel.
abbrev pub on_links : {A : Type 0} → Cmd Links A → K A
on_links c k = and_then (c k.links) λ (a, s). some (a, record k { links = s })

abbrev pub on_frames : {A : Type 0} → Cmd (List ℕ) A → K A
on_frames c k = and_then (c k.frame_bitmap) λ (a, bits). some (a, record k { frame_bitmap = bits })

-- A global, read.
abbrev pub get : {A : Type 0} → (Kernel → A) → K A
get f k = some (f k, k)

abbrev pub load_pcb : ℕ → K Pcb
load_pcb p k = and_then (k.pcbs p) λ v. some (v, k)

abbrev pub modify_pcb : ℕ → (Pcb → Pcb) → K (Unit {0})
modify_pcb p f k = and_then (k.pcbs p) λ v. some (tt, record k { pcbs = put k.pcbs p (f v) })

abbrev pub load_pipe : ℕ → K Pipe
load_pipe o k = and_then (k.pipes o) λ v. some (v, k)

abbrev pub modify_pipe : ℕ → (Pipe → Pipe) → K (Unit {0})
modify_pipe o f k = and_then (k.pipes o) λ v. some (tt, record k { pipes = put k.pipes o (f v) })

abbrev pub load_lock : ℕ → K Lock
load_lock o k = and_then (k.locks o) λ v. some (v, k)

abbrev pub modify_lock : ℕ → (Lock → Lock) → K (Unit {0})
modify_lock o f k = and_then (k.locks o) λ v. some (tt, record k { locks = put k.locks o (f v) })

abbrev pub load_sync : ℕ → K SyncObj
load_sync o k = and_then (k.sync_objs o) λ v. some (v, k)

-- A byte of a buffer, and an `int` behind a pointer.
abbrev pub load_byte : ℕ → K ℕ
load_byte a k = and_then (k.bytes a) λ v. some (v, k)

abbrev pub store_byte : ℕ → ℕ → K (Unit {0})
store_byte a v k = and_then (k.bytes a) λ _. some (tt, record k { bytes = put k.bytes a v })

abbrev pub store_int : ℕ → ℤ → K (Unit {0})
store_int a v k = and_then (k.ints a) λ _. some (tt, record k { ints = put k.ints a v })

abbrev pub same_state : ProcessState → ProcessState → Bool
same_state a b = state_code a == state_code b

abbrev pub write_register : Register → ℕ → K (Unit {0})
write_register r v k = some (tt, record k { register_writes = (r, v) ∷ k.register_writes })

-- An entry of a page table; an index outside the table is a fault.
abbrev pub entry_of : List Pte → ℕ → K Pte
entry_of table i k = and_then (get_elem? table i) λ e. some (e, k)

-- An entry of the region 0 page table, and of the region 1 page table of a process, changed.
abbrev pub modify_region0 : ℕ → (Pte → Pte) → K (Unit {0})
modify_region0 i f k =
    and_then (get_elem? k.region0_pt i)
      λ e. some (tt, record k { region0_pt = set k.region0_pt i (f e) })

abbrev pub modify_region1 : (process i : ℕ) → (Pte → Pte) → K (Unit {0})
modify_region1 p i f k = and_then (k.pcbs p) λ v. and_then (get_elem? v.region1_pt i) λ e.
    some (tt, record k { pcbs = put k.pcbs p (record v { region1_pt = set v.region1_pt i (f e) }) })

-- `frame_bitMap[pfn] = v`.
abbrev pub mark_frame : ℕ → ℕ → K (Unit {0})
mark_frame f v k =
    and_then (get_elem? k.frame_bitmap f)
      λ _. some (tt, record k { frame_bitmap = set k.frame_bitmap f v })

-- The list cells of a PCB, given back.
abbrev pub unmap_pcb : {A : Type 0} → (ℕ → Option A) → ℕ → ℕ → Option A
unmap_pcb f p = drop_cell (drop_cell (drop_cell f (queue_node p)) (children_node p)) (children p)

-- `free(process)`: the PCB and the list cells in it are no longer allocated.
abbrev pub free_pcb : ℕ → K (Unit {0})
free_pcb p k = and_then (k.pcbs p) λ _. some (
  tt,
  record k {
    pcbs = drop_cell k.pcbs p;
    links = record {
      next = unmap_pcb k.links.next p;
      prev = unmap_pcb k.links.prev p;
      count = drop_cell k.links.count (children p);
    };
  },
)
