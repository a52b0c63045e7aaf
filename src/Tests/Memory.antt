-- ===== src/Tests/Memory.antt =====
-- list.c and frames.c: the lists and the bitmap of the sample kernel.
use sasha_jakob.Base.{◌≡◌, refl, some, [], ◌∷◌, arith, pos, Ends}
use sasha_jakob.Links.Chain.{IsList, IsNode}
use sasha_jakob.Links.Heap.{IsFree}
use sasha_jakob.Frames.{allocate_loop, allocate_frame, free_frame}
use sasha_jakob.Frames.Alloc.{Grants, allocate_frame_lem, free_frame-allocate_frame}
use sasha_jakob.Tests.Sample.{sample_links, sample_lists, sample_entries}
use sasha_jakob.Tests.Invariant.{sample-Inv}

-- The list of one process that waits, and the node of a process that waits nowhere.
one-IsList : IsList sample_links 19 (4 ∷ [])
one-IsList = sample-Inv.holds.each 19 refl

fresh-IsNode : IsNode sample_links 20
fresh-IsNode = record { non_null = omega arith; has_next = refl; has_prev = refl }

fresh-IsFree : IsFree sample_lists sample_entries 20
fresh-IsFree = (refl, λ l i. ground arith)

allocate_frame_lem_example :
    Ends (allocate_frame 4 (1 ∷ 0 ∷ 1 ∷ 0 ∷ [])) (Grants (1 ∷ 0 ∷ 1 ∷ 0 ∷ []) 4)
allocate_frame_lem_example = allocate_frame_lem 4 (1 ∷ 0 ∷ 1 ∷ 0 ∷ []) (omega arith)

free_frame-allocate_frame_example :
    free_frame 4 (pos 1) (1 ∷ 1 ∷ 1 ∷ 0 ∷ []) ≡ some (tt, 1 ∷ 0 ∷ 1 ∷ 0 ∷ [])
unfolding allocate_frame allocate_loop
free_frame-allocate_frame_example =
    free_frame-allocate_frame 4 (1 ∷ 0 ∷ 1 ∷ 0 ∷ []) (omega arith) 1 (1 ∷ 1 ∷ 1 ∷ 0 ∷ []) refl
