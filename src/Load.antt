-- ===== src/Load.antt =====
-- load_program.c: a program is put into the address space of a process. The file, LoadInfo, and the
-- stores into the memory of region 1 are arguments. An address is a word of 32 bits.
pub mod Sections
pub mod Space
pub mod Built
pub mod Layout
pub mod Stores
pub mod Protect
pub mod Filled
pub mod Whole
use sasha_jakob.Base.{
  ℕ, zero, suc, ◌+◌, ◌-◌, ◌*◌, ◌/◌, ◌%◌, ◌^◌, Bool, not, Option, none, some, List, [], ◌∷◌, length,
  ◌==◌, if◌then◌else◌, leb, ltb, ℤ, pos_part, eq_ℤ, error, success, pure, ◌>>=◌, ◌>>◌,
}
use sasha_jakob.Links.{null}
use sasha_jakob.Frames.{allocate_frame}
use sasha_jakob.Kernel.{
  K, Hardware, reg_tlb_flush, modify_pcb, on_frames, modify_region1, write_register,
}
use sasha_jakob.Process.Exit.{free_userspace}
use sasha_jakob.Memory.{read_write, read_exec, mapped, page_address}

-- `struct load_info`, the fields that are used but the offsets in the file.
pub record Program : Type 0 where
  pub entry : ℕ
  pub t_vaddr : ℕ
  pub t_npg : ℕ
  pub id_vaddr : ℕ
  pub id_npg : ℕ
  pub id_end : ℕ
  pub ud_npg : ℕ
  pub ud_end : ℕ

-- `open_program` is open and then LoadInfo, `arguments` the strings behind `args`, `read_text` and
-- `read_data` tell whether lseek and read give the whole segment, `store_word`, `store_string` and `clear`
-- write the memory of region 1 through its table, `argbuf` is what `malloc` returns, and the numbers are those of the headers.
pub record Loader : Type 0 where
  pub hw : Hardware
  pub open_program : ℕ → Option (Option Program)
  pub arguments : ℕ → List (List ℕ)
  pub argbuf : ℕ
  pub read_text : Program → K Bool
  pub read_data : Program → K Bool
  pub store_word : (addr value : ℕ) → K (Unit {0})
  pub store_string : ℕ → List ℕ → K (Unit {0})
  pub clear : (addr size : ℕ) → K (Unit {0})
  pub kill : ℤ
  pub post_argv_null_space : ℕ
  pub initial_stack_frame_size : ℕ

abbrev pub sub_word : ℕ → ℕ → ℕ
sub_word a b = (a + 2 ^ 32 - b % 2 ^ 32) % 2 ^ 32

-- The page of an address, counted from the start of region 1.
abbrev pub region1_page : Hardware → ℕ → ℕ
region1_page hw addr = sub_word addr hw.vmem_1_base / hw.page_size

-- The bytes of the arguments with their terminators.
abbrev pub args_size : List (List ℕ) → ℕ
args_size [] = 0
args_size (s ∷ rest) = length s + 1 + args_size rest

-- `cp`, `cpp`, `cp2` and the number of pages of the stack.
abbrev pub strings_at : Loader → List (List ℕ) → ℕ
strings_at l args = sub_word (l.hw.vmem_1_limit) (args_size args)

abbrev pub argv_at : Loader → List (List ℕ) → ℕ
argv_at l args =
    sub_word (strings_at l args) ((length args + 3 + l.post_argv_null_space) * 4) / 8 * 8

abbrev pub stack_top : Loader → List (List ℕ) → ℕ
stack_top l args = sub_word (argv_at l args) l.initial_stack_frame_size

abbrev pub stack_npg : Loader → List (List ℕ) → ℕ
stack_npg l args =
    sub_word l.hw.vmem_1_limit (l.hw.down_to_page (stack_top l args)) / l.hw.page_size

abbrev pub data_npg : Program → ℕ
data_npg li = li.id_npg + li.ud_npg

-- The pages that are left to map, and the next one.
unfoldable pub section_loop : Hardware → (process left i : ℕ) → K ℤ
section_loop hw process zero i = pure success
section_loop hw process (suc left) i = do
  nf ← on_frames (allocate_frame hw.num_vpn)
  if eq_ℤ nf error then pure error else do
    modify_region1 process i (λ _. mapped (pos_part nf) (read_write hw))
    section_loop hw process left (i + 1)

-- The old pages are given back, and text, data and stack are mapped.
unfoldable pub build_space : Loader → Program → List (List ℕ) → (process : ℕ) → K ℤ
unfolding section_loop free_userspace
build_space l li args process = do
  free_userspace l.hw process
  mapped_text ← section_loop l.hw process li.t_npg (region1_page l.hw li.t_vaddr)
  if eq_ℤ mapped_text error then pure error else do
    mapped_data ← section_loop l.hw process (data_npg li) (region1_page l.hw li.id_vaddr)
    if eq_ℤ mapped_data error then pure error else do
      modify_pcb process
          (λ v. record v { brk = page_address l.hw (region1_page l.hw li.id_vaddr + data_npg li) })
      section_loop l.hw process (stack_npg l args) (l.hw.max_pt_len - stack_npg l args)

-- The text pages that are left to protect, and the next one.
unfoldable pub protect_loop : Hardware → (process left i : ℕ) → K (Unit {0})
protect_loop hw process zero i = pure tt
protect_loop hw process (suc left) i = do
  modify_region1 process i (λ e. record e { prot = read_exec hw })
  write_register reg_tlb_flush (hw.vmem_1_base + page_address hw i)
  protect_loop hw process left (i + 1)

-- The pointers and the strings of the arguments.
unfoldable pub argv_loop : Loader → List (List ℕ) → (cpp cp : ℕ) → K ℕ
argv_loop l [] cpp cp = pure cpp
argv_loop l (s ∷ rest) cpp cp = do
  l.store_word cpp cp
  l.store_string cp s
  argv_loop l rest (cpp + 4) (cp + (length s + 1))

unfoldable pub build_arguments : Loader → List (List ℕ) → K (Unit {0})
unfolding argv_loop
build_arguments l args = do
  l.clear (argv_at l args) (sub_word l.hw.vmem_1_limit (argv_at l args))
  l.store_word (argv_at l args) (length args)
  cpp ← argv_loop l args (argv_at l args + 4) (strings_at l args)
  l.store_word cpp null
  l.store_word (cpp + 4) null

-- What is left when the address space is there. The uninitialised data is cleared twice.
unfoldable pub fill_space : Loader → Program → List (List ℕ) → (process : ℕ) → K ℤ
unfolding protect_loop build_arguments
fill_space l li args process = do
  write_register reg_tlb_flush l.hw.tlb_flush_1
  got_text ← l.read_text li
  if not got_text then pure l.kill else do
    got_data ← l.read_data li
    if not got_data then pure l.kill else do
      protect_loop l.hw process li.t_npg (region1_page l.hw li.t_vaddr)
      l.clear li.id_end (sub_word li.ud_end li.id_end)
      l.clear li.id_end (sub_word li.ud_end li.id_end)
      modify_pcb process
          (λ v. record v { user_context = record (v.user_context) { pc = li.entry } })
      build_arguments l args
      pure success

-- A program that has passed the test of its entry. `argbuf` keeps the strings, so they are the same behind
-- the change of the address space.
load_checked : Loader → Program → List (List ℕ) → (process : ℕ) → K ℤ
unfolding build_space fill_space
load_checked l li args process =
    if leb l.hw.max_pt_len (stack_npg l args + region1_page l.hw li.id_vaddr + data_npg li)
    then pure error
    else do
      modify_pcb process
          (λ v. record v { user_context = record (v.user_context) { sp = stack_top l args } })
      if l.argbuf == null then pure error else do
        built ← build_space l li args process
        if eq_ℤ built error then pure error else fill_space l li args process

-- What `open` and LoadInfo give is tested before anything is changed.
load_opened : Loader → Option (Option Program) → List (List ℕ) → (process : ℕ) → K ℤ
unfolding load_checked
load_opened l none args process = pure error
load_opened l (some none) args process = pure error
load_opened l (some (some li)) args process =
    if ltb li.entry l.hw.vmem_1_base then pure error else load_checked l li args process

unfoldable pub load_program : Loader → (name args process : ℕ) → K ℤ
unfolding load_opened
load_program l name args process = load_opened l (l.open_program name) (l.arguments args) process
