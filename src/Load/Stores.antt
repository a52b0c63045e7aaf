-- ===== src/Load/Stores.antt =====
-- load_program.c: the stores into user memory, and what they leave as it is.
use sasha_jakob.Base.{
  ℕ, ◌+◌, ◌-◌, ◌*◌, ◌≤◌, ◌≡◌, refl, ap, ◌∙◌, some, List, [], ◌∷◌, length, get_elem?, Ends, arith,
}
use sasha_jakob.Links.{null}
use sasha_jakob.Kernel.{K, Kernel, Hardware, Pcb, Pte}
use sasha_jakob.Memory.{mapped, read_write}
use sasha_jakob.Load.{
  Loader, Program, argv_loop, build_arguments, sub_word, args_size, strings_at, argv_at,
  region1_page, stack_npg, data_npg,
}
use sasha_jakob.Load.Space.{InPages}
use sasha_jakob.Load.Layout.{Fits, sub_word-fits, strings_at-fits, argv_at-fits}

-- The pages of the text, of the data and of the stack.
abbrev pub InText : Loader → Program → ℕ → Type 0
InText l li j = InPages (region1_page l.hw li.t_vaddr) li.t_npg j

abbrev pub InData : Loader → Program → ℕ → Type 0
InData l li j = InPages (region1_page l.hw li.id_vaddr) (data_npg li) j

abbrev pub InStack : Loader → List (List ℕ) → ℕ → Type 0
InStack l args j = InPages (l.hw.max_pt_len - stack_npg l args) (stack_npg l args) j

-- The pages of `In` can be read and written.
abbrev pub Writable : Hardware → List Pte → (ℕ → Type 0) → Type 0
Writable hw t In = (j : ℕ) → In j → (f : ℕ) × (get_elem? t j ≡ some (mapped f (read_write hw)))

-- Process `p` can read and write the pages of `In`.
abbrev pub Reaches : Hardware → (p : ℕ) → (ℕ → Type 0) → Kernel → Type 0
Reaches hw p In k = (v : Pcb) × (k.pcbs p ≡ some v) × Writable hw v.region1_pt In

-- Nothing but the user memory and the writes of registers has changed.
abbrev pub OnlyMemory : Kernel → Kernel → Type 0
OnlyMemory k k' = k' ≡ record k {
  bytes = k'.bytes;
  ints = k'.ints;
  pages = k'.pages;
  register_writes = k'.register_writes;
}

-- A command that ends where process `p` can write the pages of `In`, and changes only the memory.
abbrev pub Quiet : {A : Type 0} → Hardware → (p : ℕ) → (ℕ → Type 0) → K A → Type 0
Quiet hw p In c = (k : Kernel) → Reaches hw p In k → Ends (c k) λ _ k'. OnlyMemory k k'

-- What the loader relies on of the machine, in the space of process `p`: a store ends where the page that it goes
-- to can be written, and changes nothing but the memory. The text is read into the pages of the text, the data
-- into the pages of the data, where the uninitialised data is, too; and from the pointers to the
-- arguments to the end of region 1 there are pages of the stack.
pub record Stores (l : Loader) (li : Program) (args : List (List ℕ)) (p : ℕ) : Type 0 where
  pub word :
      (a v : ℕ)
      → argv_at l args ≤ a
      → a + 4 ≤ l.hw.vmem_1_limit
      → Quiet l.hw p (InStack l args) (l.store_word a v)
  pub string :
      (a : ℕ) (s : List ℕ)
      → argv_at l args ≤ a
      → a + (length s + 1) ≤ l.hw.vmem_1_limit
      → Quiet l.hw p (InStack l args) (l.store_string a s)
  pub zeros :
      (a n : ℕ)
      → argv_at l args ≤ a
      → a + n ≤ l.hw.vmem_1_limit
      → Quiet l.hw p (InStack l args) (l.clear a n)
  pub uninitialised : Quiet l.hw p (InData l li) (l.clear li.id_end (sub_word li.ud_end li.id_end))
  pub text_read : Quiet l.hw p (InText l li) (l.read_text li)
  pub data_read : Quiet l.hw p (InData l li) (l.read_data li)

OnlyMemory-then : (k k1 k2 : Kernel) → OnlyMemory k k1 → OnlyMemory k1 k2 → OnlyMemory k k2
OnlyMemory-then k k1 k2 first next =
    next
    ∙ ap
        (λ (x : Kernel). record x {
          bytes = k2.bytes;
          ints = k2.ints;
          pages = k2.pages;
          register_writes = k2.register_writes;
        })
        first

Reaches-after :
    (hw : Hardware) (p : ℕ) (In : ℕ → Type 0) (k k' : Kernel)
    → OnlyMemory k k'
    → Reaches hw p In k
    → Reaches hw p In k'
Reaches-after hw p In k k' same (v, here, writable) =
    (v, ap (λ (x : Kernel). x.pcbs p) same ∙ here, writable)

module _ (l : Loader) (li : Program) (args : List (List ℕ)) (p : ℕ) (s : Stores l li args p)
    (fits : Fits l args) where
  -- `rest` are the arguments that are left: their pointers end below the strings.
  argv_loop-Quiet :
      (rest : List (List ℕ)) (cpp cp : ℕ) (k : Kernel)
      → argv_at l args ≤ cpp
      → cpp + length rest * 4 ≤ strings_at l args
      → strings_at l args ≤ cp
      → cp + args_size rest ≤ l.hw.vmem_1_limit
      → Reaches l.hw p (InStack l args) k
      → Ends (argv_loop l rest cpp cp k) λ a k'. OnlyMemory k k' × (a ≡ cpp + length rest * 4)
  unfolding argv_loop
  argv_loop-Quiet [] cpp cp k low room above ends reaches = (cpp, k, refl, (refl, omega arith))
  argv_loop-Quiet (x ∷ rest) cpp cp k low room above ends reaches =
      let (_, k1, run1, same1) = s.word cpp cp low (omega (arith, room, above, ends)) k reaches in
      let reaches1 = Reaches-after l.hw p (InStack l args) k k1 same1 reaches in
      let (_, k2, run2, same2) =
        s.string cp x (omega (arith, low, room, above)) (omega (arith, ends)) k1 reaches1 in
      let reaches2 = Reaches-after l.hw p (InStack l args) k1 k2 same2 reaches1 in
      let (a, k3, run3, (same3, is)) =
        argv_loop-Quiet rest (cpp + 4) (cp + (length x + 1)) k2 (omega (arith, low))
          (omega (arith, room)) (omega (arith, above)) (omega (arith, ends)) reaches2 in
      (
        a,
        k3,
        rw (run1, run2) run3,
        (OnlyMemory-then k k2 k3 (OnlyMemory-then k k1 k2 same1 same2) same3, is ∙ omega arith),
      )

  arguments-run :
      (k k1 k2 k3 k4 k5 : Kernel) (cpp : ℕ)
      → l.clear (argv_at l args) (sub_word l.hw.vmem_1_limit (argv_at l args)) k ≡ some (tt, k1)
      → l.store_word (argv_at l args) (length args) k1 ≡ some (tt, k2)
      → argv_loop l args (argv_at l args + 4) (strings_at l args) k2 ≡ some (cpp, k3)
      → l.store_word cpp null k3 ≡ some (tt, k4)
      → l.store_word (cpp + 4) null k4 ≡ some (tt, k5)
      → build_arguments l args k ≡ some (tt, k5)
  unfolding build_arguments
  arguments-run k k1 k2 k3 k4 k5 cpp run1 run2 run3 run4 run5 = rw (run1, run2, run3, run4) run5

  pub build_arguments-Quiet : Quiet l.hw p (InStack l args) (build_arguments l args)
  build_arguments-Quiet k reaches =
      let a = argv_at l args in
      let below = argv_at-fits l args fits in
      let ends = strings_at-fits l args fits in
      let size = sub_word-fits l.hw.vmem_1_limit a (omega (arith, below, ends)) fits.small in
      let after = Reaches-after l.hw p (InStack l args) in
      let (_, k1, run1, same1) =
        s.zeros a (sub_word l.hw.vmem_1_limit a) (omega arith) (omega (arith, size, below, ends)) k
          reaches in
      let reaches1 = after k k1 same1 reaches in
      let (_, k2, run2, same2) =
        s.word a (length args) (omega arith) (omega (arith, below, ends)) k1 reaches1 in
      let reaches2 = after k1 k2 same2 reaches1 in
      let (cpp, k3, run3, (same3, is)) =
        argv_loop-Quiet args (a + 4) (strings_at l args) k2 (omega arith) (omega (arith, below))
          (omega arith) (omega (arith, ends)) reaches2 in
      let reaches3 = after k2 k3 same3 reaches2 in
      let (_, k4, run4, same4) =
        s.word cpp null (omega (arith, is)) (omega (arith, is, below, ends)) k3 reaches3 in
      let (_, k5, run5, same5) =
        s.word (cpp + 4) null (omega (arith, is)) (omega (arith, is, below, ends)) k4
          (after k3 k4 same4 reaches3) in
      (
        tt,
        k5,
        arguments-run k k1 k2 k3 k4 k5 cpp run1 run2 run3 run4 run5,
        OnlyMemory-then k k4 k5
            (OnlyMemory-then k k3 k4
              (OnlyMemory-then k k2 k3 (OnlyMemory-then k k1 k2 same1 same2) same3) same4)
            same5,
      )
