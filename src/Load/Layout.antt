-- ===== src/Load/Layout.antt =====
-- load_program.c: where the arguments stand above the stack.
use sasha_jakob.Base.{ℕ, ◌+◌, ◌-◌, ◌*◌, ◌/◌, ◌^◌, ◌<◌, ◌≤◌, ◌≡◌, List, length, arith}
use sasha_jakob.Load.{Loader, sub_word, args_size, strings_at, argv_at}

-- A difference of words that does not wrap.
pub sub_word-fits : (a b : ℕ) → b ≤ a → a < 2 ^ 32 → sub_word a b ≡ a - b
sub_word-fits a b fits small = omega (arith, fits, small)

down_to_8 : (n : ℕ) → n / 8 * 8 ≤ n
down_to_8 n = omega arith

-- The arguments, the pointers to them and the frame of the stack fit below the end of region 1.
pub record Fits (l : Loader) (args : List (List ℕ)) : Type 0 where
  pub room :
      args_size args
        + (length args + 3 + l.post_argv_null_space) * 4
        + 8
        + l.initial_stack_frame_size
      ≤ l.hw.vmem_1_limit
  pub small : l.hw.vmem_1_limit < 2 ^ 32

module _ (l : Loader) (args : List (List ℕ)) (fits : Fits l args) where
  pub strings_at-fits : strings_at l args + args_size args ≡ l.hw.vmem_1_limit
  strings_at-fits =
      let is =
        sub_word-fits l.hw.vmem_1_limit (args_size args) (omega (arith, fits.room)) fits.small in
      rw (is) (omega (arith, fits.room))

  pub argv_at-fits :
      argv_at l args + (length args + 3 + l.post_argv_null_space) * 4 ≤ strings_at l args
  argv_at-fits =
      let width = (length args + 3 + l.post_argv_null_space) * 4 in
      let above = strings_at-fits in
      let is =
        sub_word-fits (strings_at l args) width (omega (arith, above, fits.room))
          (omega (arith, above, fits.small)) in
      let down = down_to_8 (strings_at l args - width) in
      rw (is) (omega (arith, down, above, fits.room))
