-- ===== src/Tests/Blocks.antt =====
-- Runs for the allocator.
use ntv2_gst.Prelude.{◌≡◌, refl, List, [], ◌∷◌, ◌++◌, arith, false}
use ntv2_gst.Allocator.{
  Fields, block, Allocator, Effect, allocator_new, new_block, allocator_free, allocator_finalize,
}
use ntv2_gst.Allocator.Reach.{Reach, start, alloc, free, allocates, frees, locks, unlocks, tally}
use ntv2_gst.Allocator.Balance.{IsBalanced, Reach-IsBalanced}
use ntv2_gst.Allocator.Finalize.{finalize-tally_of}

abbrev test_fields : Fields
test_fields = record {
  data_at = 4096;
  flags = 0;
  readonly = false;
  maxsize = 64;
  offset = 0;
  size = 64;
}

-- One block, allocated and given back, and then another one that is made for the occasion.
test_start : Reach 64 (allocator_new 64 (4096 ∷ [])).0 [] (allocator_new 64 (4096 ∷ [])).1
test_start = start (4096 ∷ []) (λ a. ground arith)

abbrev taken : Allocator
taken = record { alloc_size = 64; num_prealloc = 1; num_allocated = 1; free_list = [] }

abbrev log : List Effect
log = (allocator_new 64 (4096 ∷ [])).1 ++ []

test_taken : Reach 64 taken (4096 ∷ []) log
unfolding new_block
test_taken =
    alloc 8192 (allocator_new 64 (4096 ∷ [])).0 [] (allocator_new 64 (4096 ∷ [])).1 test_start refl

test_back :
    Reach 64
      (allocator_free taken (block test_fields)).0
      []
      (log ++ (allocator_free taken (block test_fields)).1)
test_back = free test_fields taken [] [] log test_taken refl

Reach-IsBalanced_example : IsBalanced 64 taken (4096 ∷ []) log
Reach-IsBalanced_example = Reach-IsBalanced 64 taken (4096 ∷ []) log test_taken

finalize-tally_of_example :
    (tally (allocates 4096) (
        (log ++ (allocator_free taken (block test_fields)).1)
        ++ (allocator_finalize (allocator_free taken (block test_fields)).0).1)
      ≡ tally (frees 4096) (
          (log ++ (allocator_free taken (block test_fields)).1)
          ++ (allocator_finalize (allocator_free taken (block test_fields)).0).1))
    × (tally (locks 4096 64) (
          (log ++ (allocator_free taken (block test_fields)).1)
          ++ (allocator_finalize (allocator_free taken (block test_fields)).0).1)
        ≡ tally (unlocks 4096 64) (
            (log ++ (allocator_free taken (block test_fields)).1)
            ++ (allocator_finalize (allocator_free taken (block test_fields)).0).1))
finalize-tally_of_example =
    finalize-tally_of 64 4096 (allocator_free taken (block test_fields)).0
      (log ++ (allocator_free taken (block test_fields)).1) test_back
