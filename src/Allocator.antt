-- ===== src/Allocator.antt =====
-- include/allocator.hpp and the public functions of src/allocator.cpp: routing between the pools and
-- the general path, under the locks of the concurrency stage that is compiled in.
pub mod Routing
pub mod Calloc
pub mod Shutdown
use custom_memory_allocator.Base.{
  ℕ, zero, suc, ◌+◌, ◌/◌, List, [], ◌∷◌, map, Bool, false, not, null, size_max, sub64, mul64, ltb,
  leb, ◌==◌, ◌&&◌, ◌||◌, if◌then◌else◌, length, set,
}
use custom_memory_allocator.Memory.{read_word, fill, copy}
use custom_memory_allocator.Run.{Mutex, Cmd, reads, writes, pure, item_at, with_lock, ◌>>=◌, ◌>>◌}
use custom_memory_allocator.Os.{Platform}
use custom_memory_allocator.SizeClass.{
  num_size_classes, size_classes, no_size_class, size_class_for, pool_index_for_size_class,
}
use custom_memory_allocator.Block.{get_size}
use custom_memory_allocator.FreeList
use custom_memory_allocator.FreeList.{free_list_at}
use custom_memory_allocator.Pool.{
  Pool, new_pool, slot_header_size, allocate, deallocate, release_all_arenas,
}
use custom_memory_allocator.ThreadCache.{
  ThreadLocalCache, empty_cache, pool_address, malloc_cached, free_cached,
}
use custom_memory_allocator.General.{General, default_arena_size, carved, release_arenas}
use custom_memory_allocator.General.Neighbors.{right_neighbor_if_free, left_neighbor_if_free}
use custom_memory_allocator.General.Blocks.{
  header_of, malloc_general, free_general, realloc_general, Regrowth, in_place, must_move,
}

-- kConcurrencyStage
pub data Stage : Type 0 where
  global_mutex per_pool thread_cached : Stage

-- The program's variables, with the caches of the calling thread.
pub record Allocator : Type 0 where
  pub general : General
  pub pools : List Pool
  pub tls_caches : List ThreadLocalCache

unfoldable pub initial : Allocator
initial = record {
  general = record { arena_size = default_arena_size; arenas = []; free_list = free_list_at null };
  pools = map new_pool size_classes;
  tls_caches = map (λ _. empty_cache) size_classes;
}

abbrev pub pool_lock : Stage → ℕ → Mutex
pool_lock Stage.global_mutex index = Mutex.global
pool_lock _ index = Mutex.pool index

abbrev pub general_path_lock : Stage → Mutex
general_path_lock Stage.global_mutex = Mutex.global
general_path_lock _ = Mutex.general

module _ (p : Platform) where
  -- The pools are compared from the `i`-th on, `k` of them.
  unfoldable pub known_from : (k i candidate : ℕ) → Bool
  known_from zero i candidate = false
  known_from (suc k) i candidate = pool_address p i == candidate || known_from k (i + 1) candidate

  unfoldable pub is_known_pool : ℕ → Bool
  is_known_pool candidate = known_from num_size_classes 0 candidate

  unfoldable pub pool_index_of : ℕ → ℕ
  pool_index_of pool = sub64 pool p.pool_array / p.pool_bytes

  -- The tag in front of a payload: the owner of a slot, or the size of a block.
  abbrev pub owning_pool : ℕ → Cmd ℕ
  owning_pool ptr = reads λ m. read_word m (sub64 ptr slot_header_size)

module _ (p : Platform) (stage : Stage) where
  unfoldable pub my_malloc_pooled_stage3 : Allocator → ℕ → Cmd (ℕ × Allocator)
  my_malloc_pooled_stage3 a index = do
    cache ← item_at a.tls_caches index
    pool ← item_at a.pools index
    (ptr, cache', pool') ← malloc_cached p index cache pool
    pure (
      ptr,
      record a { pools = set a.pools index pool'; tls_caches = set a.tls_caches index cache' },
    )

  unfoldable pub malloc_pooled : Allocator → ℕ → Cmd (ℕ × Allocator)
  malloc_pooled a index = do
    pool ← item_at a.pools index
    (ptr, pool') ← with_lock (pool_lock stage index) (allocate p (pool_address p index) pool)
    pure (ptr, record a { pools = set a.pools index pool' })

  unfoldable pub malloc_large : Allocator → ℕ → Cmd (ℕ × Allocator)
  malloc_large a size = do
    (ptr, g) ← with_lock (general_path_lock stage) (malloc_general p a.general size)
    pure (ptr, record a { general = g })

  -- Which of the two ways a pooled request goes.
  abbrev malloc_staged : Stage → Allocator → ℕ → Cmd (ℕ × Allocator)
  malloc_staged Stage.thread_cached a index = my_malloc_pooled_stage3 a index
  malloc_staged _ a index = malloc_pooled a index

  unfoldable pub my_malloc : Allocator → ℕ → Cmd (ℕ × Allocator)
  my_malloc a size =
      let size_class = size_class_for size in
      if size_class == no_size_class
      then malloc_large a size
      else malloc_staged stage a (pool_index_for_size_class size_class)

  unfoldable pub my_calloc : Allocator → (count size : ℕ) → Cmd (ℕ × Allocator)
  my_calloc a count size =
      if not (size == 0) && ltb (size_max / size) count then pure (null, a) else (do
        let total = mul64 count size
        (ptr, a') ← my_malloc a total
        if ptr == null
            then pure (null, a')
            else (do writes λ m. fill m ptr 0 total; pure (ptr, a')))

  unfoldable pub my_free_pooled_stage3 : Allocator → (slot index : ℕ) → Cmd Allocator
  my_free_pooled_stage3 a slot index = do
    cache ← item_at a.tls_caches index
    pool ← item_at a.pools index
    (cache', pool') ← free_cached slot index cache pool
    pure (record a { pools = set a.pools index pool'; tls_caches = set a.tls_caches index cache' })

  unfoldable pub free_pooled : Allocator → (ptr index : ℕ) → Cmd Allocator
  free_pooled a ptr index = do
    pool ← item_at a.pools index
    pool' ← with_lock (pool_lock stage index) (deallocate pool ptr)
    pure (record a { pools = set a.pools index pool' })

  abbrev free_staged : Stage → Allocator → (ptr index : ℕ) → Cmd Allocator
  free_staged Stage.thread_cached a ptr index =
      my_free_pooled_stage3 a (sub64 ptr slot_header_size) index
  free_staged _ a ptr index = free_pooled a ptr index

  unfoldable pub free_large : Allocator → ℕ → Cmd Allocator
  free_large a ptr = do
    g ← with_lock (general_path_lock stage) (free_general a.general ptr)
    pure (record a { general = g })

  unfoldable pub my_free : Allocator → ℕ → Cmd Allocator
  my_free a ptr = if ptr == null then pure a else (do
    tag ← owning_pool p ptr
    if is_known_pool p tag then free_staged stage a ptr (pool_index_of p tag) else free_large a ptr)

  -- The fall-back of my_realloc: allocate, copy `copy_size` bytes, free.
  unfoldable pub move_to_new : Allocator → (ptr new_size copy_size : ℕ) → Cmd (ℕ × Allocator)
  move_to_new a ptr new_size copy_size = do
    (new_ptr, a') ← my_malloc a new_size
    if new_ptr == null then pure (null, a') else (do
      writes λ m. copy m new_ptr ptr copy_size
      a'' ← my_free a' ptr
      pure (new_ptr, a''))

  unfoldable pub realloc_pooled : Allocator → (ptr index new_size : ℕ) → Cmd (ℕ × Allocator)
  realloc_pooled a ptr index new_size = do
    pool ← item_at a.pools index
    if leb new_size pool.slot_payload_size
        then pure (ptr, a)
        else move_to_new a ptr new_size pool.slot_payload_size

  unfoldable pub finish_realloc : Allocator → (ptr new_size : ℕ) → Regrowth → Cmd (ℕ × Allocator)
  finish_realloc a ptr new_size in_place = pure (ptr, a)
  finish_realloc a ptr new_size (must_move old_payload_size) =
      move_to_new a ptr new_size
        (if ltb old_payload_size new_size then old_payload_size else new_size)

  unfoldable pub realloc_large : Allocator → (ptr new_size : ℕ) → Cmd (ℕ × Allocator)
  unfolding finish_realloc
  realloc_large a ptr new_size = do
    (grown, g) ← with_lock (general_path_lock stage) (realloc_general a.general ptr new_size)
    finish_realloc (record a { general = g }) ptr new_size grown

  unfoldable pub my_realloc : Allocator → (ptr new_size : ℕ) → Cmd (ℕ × Allocator)
  my_realloc a ptr new_size = if ptr == null then my_malloc a new_size else (do
    tag ← owning_pool p ptr
    if is_known_pool p tag
        then realloc_pooled a ptr (pool_index_of p tag) new_size
        else realloc_large a ptr new_size)

unfoldable release_pools : Platform → List Pool → Cmd (List Pool)
release_pools p [] = pure []
release_pools p (q ∷ qs) = do q' ← release_all_arenas p q; qs' ← release_pools p qs; pure (q' ∷ qs')

unfoldable pub allocator_shutdown : Platform → Allocator → Cmd Allocator
unfolding release_pools
allocator_shutdown p a = do
  release_arenas p a.general.arenas
  pools' ← release_pools p a.pools
  pure (record {
    general = record {
      arena_size = a.general.arena_size;
      arenas = [];
      free_list = free_list_at null;
    };
    pools = pools';
    tls_caches = map (λ _. empty_cache) a.tls_caches;
  })

-- What the header offers to tests.
unfoldable pub set_arena_size_for_testing : Allocator → ℕ → Allocator
set_arena_size_for_testing a size = record a { general = record (a.general) { arena_size = size } }

unfoldable pub reset_arena_size_for_testing : Allocator → Allocator
reset_arena_size_for_testing a = record a {
  general = record (a.general) { arena_size = default_arena_size };
}

unfoldable pub arena_count_for_testing : Allocator → ℕ
arena_count_for_testing a = length a.general.arenas

unfoldable pub right_neighbor_is_free_for_testing : Allocator → ℕ → Cmd Bool
right_neighbor_is_free_for_testing a ptr = do
  right ← right_neighbor_if_free a.general (header_of ptr)
  pure (not (right == null))

unfoldable pub left_neighbor_is_free_for_testing : Allocator → ℕ → Cmd Bool
left_neighbor_is_free_for_testing a ptr = do
  left ← left_neighbor_if_free a.general (header_of ptr)
  pure (not (left == null))

unfoldable pub free_list_size_for_testing : Allocator → Cmd ℕ
free_list_size_for_testing a = FreeList.size (carved a.general.arenas + 1) a.general.free_list

unfoldable pub block_payload_size_for_testing : Platform → Allocator → ℕ → Cmd ℕ
block_payload_size_for_testing p a ptr = do
  tag ← owning_pool p ptr
  if is_known_pool p tag
      then (do pool ← item_at a.pools (pool_index_of p tag); pure pool.slot_payload_size)
      else reads λ m. get_size m (header_of ptr)

unfoldable pub ptr_is_pooled_for_testing : Platform → ℕ → Cmd Bool
ptr_is_pooled_for_testing p ptr = do tag ← owning_pool p ptr; pure (is_known_pool p tag)
