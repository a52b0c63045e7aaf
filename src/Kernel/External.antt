-- ===== src/Kernel/External.antt =====
-- What the kernel calls that is not part of the repository: the machine's KernelContextSwitch, and the
-- copying of a page between two virtual pages. They are parameters; the two records below them say
-- what their documentation promises.
use sasha_jakob.Base.{
  ℕ, ◌-◌, ◌≡◌, Option, none, some, ◌==◌, if◌then◌else◌, ltb, get_elem?, ℤ, success, and_then,
}
use sasha_jakob.Kernel.State.{Kernel, Hardware, Pte}
use sasha_jakob.Kernel.Access.{K}

-- `kernel_context` is the context that KernelContextSwitch saves and hands to its function, and the
-- two addresses are those of the static arrays `region0_pt` and `trap_handlers`.
pub record Machine : Type 0 where
  pub hw : Hardware
  pub kernel_context : Kernel → ℕ
  pub context_switch : (ℕ → K ℕ) → K ℤ
  pub copy_page : (dest source : ℕ) → K (Unit {0})
  pub region0_address : ℕ
  pub trap_handlers_address : ℕ

-- KernelContextSwitch calls the function with the saved context and reports success.
pub record Switches (m : Machine) : Type 0 where
  pub enters :
      (f : ℕ → K ℕ) (k k' : Kernel) (r : ℕ)
      → f (m.kernel_context k) k ≡ some (r, k')
      → m.context_switch f k ≡ some (success, k')

-- The frame of a valid entry.
abbrev pub valid_frame : Pte → Option ℕ
valid_frame e = if e.valid == 0 then none else some e.pfn

-- The frame of a virtual page, by the table of region 0 or by the current process's table.
abbrev pub frame_of : Hardware → Kernel → ℕ → Option ℕ
frame_of hw k page =
    if ltb page hw.region1_pages
    then and_then (get_elem? k.region0_pt page) valid_frame
    else and_then (k.pcbs k.current_process)
        λ v. and_then (get_elem? v.region1_pt (page - hw.region1_pages)) valid_frame

abbrev pub with_page : Kernel → (frame contents : ℕ) → Kernel
with_page k f x = record k { pages = λ g. if g == f then x else k.pages g }

-- A copy changes the frame of its destination, and nothing else.
pub record Copies (m : Machine) : Type 0 where
  pub copies :
      (k : Kernel) (dest source to from : ℕ)
      → frame_of m.hw k dest ≡ some to
      → frame_of m.hw k source ≡ some from
      → m.copy_page dest source k ≡ some (tt, with_page k to (k.pages from))
