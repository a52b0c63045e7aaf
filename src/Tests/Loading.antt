-- ===== src/Tests/Loading.antt =====
-- load_program.c on the sample kernel.
use sasha_jakob.Base.{
  ◌+◌, ◌≡◌, refl, some, none, true, ◌∷◌, [], arith, Ends, pos, negsuc, replicate, if◌then◌else◌,
  ◌==◌,
}
use sasha_jakob.Links.{put}
use sasha_jakob.Kernel.{Kernel, process_running}
use sasha_jakob.Process.Exit.{free_userspace}
use sasha_jakob.Process.Exit.Freed.{Frees, free_userspace_lem}
use sasha_jakob.Load.{Program, Loader}
use sasha_jakob.Load.Stores.{Stores}
use sasha_jakob.Tests.Sample.{sample, pcb_in, hardware}

-- A program of one page of text and one of data.
abbrev small_program : Program
small_program = record {
  entry = 65536;
  t_vaddr = 65536;
  t_npg = 1;
  id_vaddr = 65536 + 8192;
  id_npg = 1;
  id_end = 65536 + 8292;
  ud_npg = 0;
  ud_end = 65536 + 8392;
}

-- A machine with nine frames, where a store of a word goes to the words in the memory.
abbrev small_loader : Loader
small_loader = record {
  hw = record hardware { num_vpn = 9 };
  open_program = λ name. if name == 1 then some (some small_program) else none;
  arguments = λ _. (104 ∷ 105 ∷ []) ∷ [];
  argbuf = 700;
  read_text = λ _ k. some (true, k);
  read_data = λ _ k. some (true, k);
  store_word = λ a v k. some (tt, record k { ints = put k.ints a (pos v) });
  store_string = λ a s k. some (tt, k);
  clear = λ a n k. some (tt, k);
  kill = negsuc 1;
  post_argv_null_space = 5;
  initial_stack_frame_size = 24;
}

-- The sample kernel with all but two frames free.
abbrev nearly_free : Kernel
nearly_free = record sample { frame_bitmap = 1 ∷ 0 ∷ 1 ∷ replicate 6 0 }

free_userspace_lem_example : Ends (free_userspace hardware 2 sample) λ _ k'.
    Frees hardware sample (pcb_in process_running 2) 4 0 k'
    × (k'.pcbs 2 ≡ some (pcb_in process_running 2))
free_userspace_lem_example =
    free_userspace_lem hardware sample 2 (pcb_in process_running 2) (omega arith) refl (omega arith)
      (omega arith)
