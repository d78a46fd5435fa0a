-- ===== src/ThreadCache.antt =====
-- The thread-local caches of src/allocator.cpp (stage 3): a private chain of free slots for each
-- size class, refilled from its pool and flushed back to it in batches under the pool's mutex.
pub mod Shared
pub mod Refill
pub mod Pop
pub mod Malloc
pub mod Detach
pub mod Flush
pub mod Free
use custom_memory_allocator.Base.{
  ℕ, zero, suc, ◌+◌, ◌*◌, null, add64, sub64, ltb, ◌==◌, if◌then◌else◌,
}
use custom_memory_allocator.Memory.{read_word}
use custom_memory_allocator.Run.{Mutex, Cmd, reads, pure, with_lock, ◌>>=◌, ◌>>◌}
use custom_memory_allocator.Os.{Platform}
use custom_memory_allocator.Pool.{
  Pool, SlotBatch, slot_header_size, tag_slot, allocate_batch, deallocate_batch,
}

pub record ThreadLocalCache : Type 0 where
  pub head : ℕ
  pub tail : ℕ
  pub count : ℕ

abbrev pub empty_cache : ThreadLocalCache
empty_cache = record { head = null; tail = null; count = 0 }

abbrev pub cache_batch_size : ℕ
cache_batch_size = 32

abbrev pub cache_cap : ℕ
cache_cap = 2 * cache_batch_size

-- &pools()[index]
abbrev pub pool_address : Platform → ℕ → ℕ
pool_address p index = p.pool_array + index * p.pool_bytes

unfoldable pub pop_from_cache : Platform → ThreadLocalCache → ℕ → Cmd (ℕ × ThreadLocalCache)
pop_from_cache p cache index = do
  let slot = cache.head
  next ← reads λ m. read_word m slot
  let tail = if next == null then null else cache.tail
  tag_slot slot (pool_address p index)
  pure (slot + slot_header_size, record { head = next; tail = tail; count = sub64 cache.count 1 })

-- What my_malloc_pooled_stage3() does with the cache and the pool at `index`.
unfoldable pub malloc_cached :
    Platform → ℕ → ThreadLocalCache → Pool → Cmd (ℕ × ThreadLocalCache × Pool)
malloc_cached p index cache pool =
    if cache.head == null
    then (do
      (pool', batch) ← with_lock (Mutex.pool index) (allocate_batch p cache_batch_size pool)
      if batch.head == null then pure (null, cache, pool') else (do
        (ptr, cache') ←
            pop_from_cache p (record { head = batch.head; tail = batch.tail; count = batch.count })
              index
        pure (ptr, cache', pool')))
    else (do (ptr, cache') ← pop_from_cache p cache index; pure (ptr, cache', pool))

-- The loop that finds the last slot to detach, with the rounds that `detach_count` leaves.
unfoldable pub detach : ℕ → (tail count : ℕ) → Cmd (ℕ × ℕ)
detach zero tail count = pure (tail, count)
detach (suc k) tail count = do
  next ← reads λ m. read_word m tail
  if next == null then pure (tail, count) else detach k next (add64 count 1)

-- The part of flush_batch_to_pool() before the lock: the first slots leave the cache as a chain.
abbrev pub detach_batch : ThreadLocalCache → Cmd (ThreadLocalCache × SlotBatch)
detach_batch cache = do
  (detach_tail, detach_count) ← detach 31 cache.head 1
  rest ← reads λ m. read_word m detach_tail
  tag_slot detach_tail null
  let tail = if rest == null then null else cache.tail
  pure (
    record { head = rest; tail = tail; count = sub64 cache.count detach_count },
    record { head = cache.head; tail = detach_tail; count = detach_count },
  )

unfoldable pub flush_batch_to_pool : ℕ → ThreadLocalCache → Pool → Cmd (ThreadLocalCache × Pool)
flush_batch_to_pool index cache pool = do
  (cache', batch) ← detach_batch cache
  pool' ← with_lock (Mutex.pool index) (deallocate_batch pool batch.head batch.tail)
  pure (cache', pool')

-- The part of my_free_pooled_stage3() before the cache's length is looked at.
abbrev pub push_to_cache : ℕ → ThreadLocalCache → Cmd ThreadLocalCache
push_to_cache slot cache = do
  tag_slot slot cache.head
  pure (record {
    head = slot;
    tail = if cache.head == null then slot else cache.tail;
    count = add64 cache.count 1;
  })

-- What my_free_pooled_stage3() does with the cache and the pool at `index`.
unfoldable pub free_cached : ℕ → ℕ → ThreadLocalCache → Pool → Cmd (ThreadLocalCache × Pool)
free_cached slot index cache pool = do
  cache' ← push_to_cache slot cache
  if ltb cache_cap cache'.count then flush_batch_to_pool index cache' pool else pure (cache', pool)
