-- ===== src/Examples/Heaps.antt =====
-- The theorems on the whole general path at concrete heaps.
use custom_memory_allocator.Base.{◌+◌, ◌<◌, ◌≤◌, ◌⊎◌, [], ◌∷◌, arith}
use custom_memory_allocator.Run.Ends.{Ends}
use custom_memory_allocator.General.{align_up}
use custom_memory_allocator.General.Blocks.{realloc_general}
use custom_memory_allocator.General.Store.{in_use, listed, blk}
use custom_memory_allocator.General.Heap.CoalesceRight.{grown}
use custom_memory_allocator.General.Heap.Regrow.{regrown, InPlace, MustMove, realloc_general-IsHeap}
use custom_memory_allocator.Examples.Stores.{two_blocks, first_arena, one_arena, two_parts-IsHeap}

realloc_general-IsHeap_example :
    Ends
      (λ r w'.
        ((align_up 100 ≤ (grown 48 (blk 4176 48 listed ∷ [])).0)
          × InPlace
              (two_blocks in_use listed)
              one_arena
              []
              first_arena
              []
              (blk 4096 48 in_use ∷ blk 4176 48 listed ∷ [])
              (regrown 4096 48 (align_up 100) (blk 4176 48 listed ∷ []))
              []
              r
              w')
        ⊎ (((grown 48 (blk 4176 48 listed ∷ [])).0 < align_up 100)
            × MustMove (two_blocks in_use listed) one_arena 48 r w'))
      (realloc_general one_arena (4096 + 16) 100 (two_blocks in_use listed))
realloc_general-IsHeap_example =
    realloc_general-IsHeap (two_blocks in_use listed) one_arena [] first_arena [] 4096 48 100
      (blk 4176 48 listed ∷ []) [] two_parts-IsHeap (omega arith)
