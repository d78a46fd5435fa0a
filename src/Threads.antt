-- ===== src/Threads.antt =====
-- Several threads at stage 3 of src/allocator.cpp, each with its cache in front of the pool of one
-- size class. A step is what one thread does between two points where it meets the others: a part
-- of my_malloc_pooled_stage3() or my_free_pooled_stage3() on the thread's own cache, or a scope of
-- the pool's mutex with its lock and unlock. The steps of the threads come in any order.
pub mod Share
pub mod Take
pub mod Push
pub mod Detach
pub mod Splice
pub mod Acts
pub mod Members
pub mod Together
pub mod Start
use custom_memory_allocator.Base.{ℕ, ◌+◌, ◌≤◌, ◌<◌, ◌≡◌, ◌≢◌, null, List, [], ◌∷◌, ◌++◌}
use custom_memory_allocator.Run.{World, Mutex, done, with_lock}
use custom_memory_allocator.Os.{Platform}
use custom_memory_allocator.Pool.{
  Pool, SlotBatch, slot_header_size, allocate_batch, deallocate_batch,
}
use custom_memory_allocator.ThreadCache.{
  ThreadLocalCache, cache_batch_size, cache_cap, pop_from_cache, push_to_cache, detach_batch,
}

-- Where a thread is: outside the allocator, behind the refill of its cache, behind a push that filled
-- the cache beyond its cap, or with a chain in hand that is to go to the pool.
pub data Phase : Type 0 where
  idle refilled over : Phase
  splicing : SlotBatch → Phase

pub record Thread : Type 0 where
  pub cache : ThreadLocalCache
  pub phase : Phase

-- What the threads share: memory and the pool. `live` are the slots that the program has got from
-- my_malloc and not yet given to my_free, by whichever thread.
pub record Shared : Type 0 where
  pub world : World
  pub pool : Pool
  pub live : List ℕ

abbrev pub thread : ThreadLocalCache → Phase → Thread
thread cache phase = record { cache = cache; phase = phase }

abbrev pub shared : World → Pool → List ℕ → Shared
shared world pool live = record { world = world; pool = pool; live = live }

abbrev pub cache_of : SlotBatch → ThreadLocalCache
cache_of batch = record { head = batch.head; tail = batch.tail; count = batch.count }

pub record Team : Type 0 where
  pub state : Shared
  pub threads : List Thread

module _ (p : Platform) (index : ℕ) where
  -- A step of one thread.
  pub data Act (s : Shared) : Thread → Shared → Thread → Type 0 where
    -- my_malloc_pooled_stage3 finds a slot in the cache and returns its payload.
    hit :
        {cache cache' : ThreadLocalCache} {slot : ℕ} {w' : World}
        → cache.head ≢ null
        → pop_from_cache p cache index s.world ≡ done (slot + slot_header_size, cache') w'
        → Act s
            (thread cache Phase.idle)
            (shared w' s.pool (slot ∷ s.live))
            (thread cache' Phase.idle)
    -- It finds the cache empty and takes a batch off the pool, under the mutex.
    refill :
        {cache : ThreadLocalCache} {pool' : Pool} {batch : SlotBatch} {w' : World}
        → cache.head ≡ null
        → with_lock (Mutex.pool index) (allocate_batch p cache_batch_size s.pool) s.world
          ≡ done (pool', batch) w'
        → batch.head ≢ null
        → Act s
            (thread cache Phase.idle)
            (shared w' pool' s.live)
            (thread (cache_of batch) Phase.refilled)
    -- The same with no slot to be had: it returns null.
    refuse :
        {cache : ThreadLocalCache} {pool' : Pool} {batch : SlotBatch} {w' : World}
        → cache.head ≡ null
        → with_lock (Mutex.pool index) (allocate_batch p cache_batch_size s.pool) s.world
          ≡ done (pool', batch) w'
        → batch.head ≡ null
        → Act s (thread cache Phase.idle) (shared w' pool' s.live) (thread cache Phase.idle)
    -- Behind the refill it returns the first slot of the batch.
    pop :
        {cache cache' : ThreadLocalCache} {slot : ℕ} {w' : World}
        → pop_from_cache p cache index s.world ≡ done (slot + slot_header_size, cache') w'
        → Act s
            (thread cache Phase.refilled)
            (shared w' s.pool (slot ∷ s.live))
            (thread cache' Phase.idle)
    -- my_free_pooled_stage3 puts a live slot in front of the cache.
    push :
        {cache cache' : ThreadLocalCache} {w' : World} (before : List ℕ) (slot : ℕ) (after : List ℕ)
        → s.live ≡ before ++ slot ∷ after
        → push_to_cache slot cache s.world ≡ done cache' w'
        → cache'.count ≤ cache_cap
        → Act s
            (thread cache Phase.idle)
            (shared w' s.pool (before ++ after))
            (thread cache' Phase.idle)
    push_over :
        {cache cache' : ThreadLocalCache} {w' : World} (before : List ℕ) (slot : ℕ) (after : List ℕ)
        → s.live ≡ before ++ slot ∷ after
        → push_to_cache slot cache s.world ≡ done cache' w'
        → cache_cap < cache'.count
        → Act s
            (thread cache Phase.idle)
            (shared w' s.pool (before ++ after))
            (thread cache' Phase.over)
    -- flush_batch_to_pool takes a chain out of the cache, and hands it to the pool under the mutex.
    detach_front :
        {cache cache' : ThreadLocalCache} {batch : SlotBatch} {w' : World}
        → detach_batch cache s.world ≡ done (cache', batch) w'
        → Act s
            (thread cache Phase.over)
            (shared w' s.pool s.live)
            (thread cache' (Phase.splicing batch))
    splice :
        {cache : ThreadLocalCache} {batch : SlotBatch} {pool' : Pool} {w' : World}
        → with_lock (Mutex.pool index) (deallocate_batch s.pool batch.head batch.tail) s.world
          ≡ done pool' w'
        → Act s
            (thread cache (Phase.splicing batch))
            (shared w' pool' s.live)
            (thread cache Phase.idle)

  -- One thread steps, and the others stay where they are.
  pub data Step (t : Team) : Team → Type 0 where
    pick :
        (before : List Thread) {th : Thread} (after : List Thread) {s' : Shared} {th' : Thread}
        → t.threads ≡ before ++ th ∷ after
        → Act t.state th s' th'
        → Step t (record { state = s'; threads = before ++ th' ∷ after })

  pub data Reaches (t : Team) : Team → Type 0 where
    here : Reaches t t
    later : {u v : Team} → Reaches t u → Step u v → Reaches t v
