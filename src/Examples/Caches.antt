-- ===== src/Examples/Caches.antt =====
-- The theorems on batches and caches at concrete ones.
use custom_memory_allocator.Base.{refl, inl, [], ◌∷◌, arith}
use custom_memory_allocator.Run.Ends.{Ends}
use custom_memory_allocator.Pool.{allocate, allocate_batch}
use custom_memory_allocator.Pool.Slots.{IsStock, IsPool-IsStock}
use custom_memory_allocator.Pool.Restock.{Restock}
use custom_memory_allocator.Pool.Serve.{PoolAllocated, allocate-PoolAllocated}
use custom_memory_allocator.Pool.Batch.{Gathered, allocate_batch-Gathered}
use custom_memory_allocator.ThreadCache.{empty_cache, malloc_cached, free_cached}
use custom_memory_allocator.ThreadCache.Shared.{IsShared}
use custom_memory_allocator.ThreadCache.Malloc.{MallocCached, malloc_cached-MallocCached}
use custom_memory_allocator.ThreadCache.Free.{Freed, free_cached-Freed}
use custom_memory_allocator.Examples.Machine.{machine, machine-IsKernel}
use custom_memory_allocator.Examples.Pools.{small_pool, pool_world, small_pool-IsPool}

allocate-PoolAllocated_example :
    Ends
      (PoolAllocated machine pool_world 0x4000 small_pool (0x1040 ∷ 0x1000 ∷ []) (0x1080 ∷ []))
      (allocate machine 0x4000 small_pool pool_world)
allocate-PoolAllocated_example =
    allocate-PoolAllocated machine pool_world 0x4000 small_pool (0x1040 ∷ 0x1000 ∷ []) (0x1080 ∷ [])
      machine-IsKernel (omega arith) (omega arith) small_pool-IsPool (inl refl, tt)

pub small_pool-IsStock : IsStock pool_world.mem small_pool (0x1040 ∷ 0x1000 ∷ []) (0x1080 ∷ [])
small_pool-IsStock = IsPool-IsStock small_pool-IsPool

-- More slots than are free, so that the pool expands.
allocate_batch-Gathered_example :
    Ends
      (Gathered machine pool_world small_pool (0x1040 ∷ 0x1000 ∷ []) (0x1080 ∷ []) [] 32)
      (allocate_batch machine 32 small_pool pool_world)
allocate_batch-Gathered_example =
    allocate_batch-Gathered machine pool_world small_pool (0x1040 ∷ 0x1000 ∷ []) (0x1080 ∷ []) 32
      machine-IsKernel (omega arith) (omega arith) small_pool-IsStock (inl refl, tt)

-- An empty cache in front of the pool, which is the first of the array.
small_pool-IsShared :
    IsShared pool_world 0x4000 empty_cache small_pool (0x1040 ∷ 0x1000 ∷ []) [] (0x1080 ∷ []) []
small_pool-IsShared = record {
  is_stock = small_pool-IsStock;
  are_mapped = (inl refl, tt);
  is_batch = record { head = refl; tail = refl; count = refl; chain = tt };
  tags = small_pool-IsPool.tags;
  few = omega arith;
}

malloc_cached-MallocCached_example :
    Ends
      (MallocCached machine pool_world 0x4000 small_pool (0x1040 ∷ 0x1000 ∷ []) [] (0x1080 ∷ []) [])
      (malloc_cached machine 0 empty_cache small_pool pool_world)
malloc_cached-MallocCached_example =
    malloc_cached-MallocCached machine pool_world 0 empty_cache small_pool (0x1040 ∷ 0x1000 ∷ []) []
      (0x1080 ∷ []) [] machine-IsKernel (omega arith) (omega arith) refl small_pool-IsShared

free_cached-Freed_example :
    Ends
      (Freed pool_world 0x4000 0x1080 small_pool (0x1040 ∷ 0x1000 ∷ []) [] [] [])
      (free_cached 0x1080 0 empty_cache small_pool pool_world)
free_cached-Freed_example =
    free_cached-Freed pool_world 0x4000 0 0x1080 empty_cache small_pool (0x1040 ∷ 0x1000 ∷ []) [] []
      [] [] refl small_pool-IsShared
