-- ===== src/Pool.antt =====
-- Pool of include/memory_pool.hpp and src/memory_pool.cpp: slots of one size, chained through their
-- headers while they are free. A slot is named by the address of its header; the header's one word
-- is `next_free` or `owning_pool`, and the payload follows at sizeof(PoolSlotHeader).
pub mod Slots
pub mod Carve
pub mod Allocate
pub mod Restock
pub mod Spared
pub mod Batch
pub mod Serve
pub mod Release
use custom_memory_allocator.Base.{
  ℕ, zero, suc, ◌+◌, ◌*◌, ◌/◌, List, [], ◌∷◌, ◌++◌, Option, none, some, Bool, true, false, null,
  add64, sub64, mul64, ◌==◌, if◌then◌else◌,
}
use custom_memory_allocator.Memory.{read_word, write_word}
use custom_memory_allocator.Run.{OsRegion, Cmd, reads, writes, pure, ◌>>=◌, ◌>>◌}
use custom_memory_allocator.Os.{Platform, os_acquire, os_release}

-- sizeof(PoolSlotHeader)
abbrev pub slot_header_size : ℕ
slot_header_size = 16

abbrev pub slots_per_arena : ℕ
slots_per_arena = 256

-- Pool::Arena
pub record PoolArena : Type 0 where
  pub base : ℕ
  pub size : ℕ

pub record Pool : Type 0 where
  pub slot_payload_size : ℕ
  pub slot_total_size : ℕ
  pub free_head : ℕ
  pub arenas : List PoolArena

-- The constructor.
unfoldable pub new_pool : ℕ → Pool
new_pool slot_payload_size = record {
  slot_payload_size = slot_payload_size;
  slot_total_size = add64 slot_header_size slot_payload_size;
  free_head = null;
  arenas = [];
}

pub record SlotBatch : Type 0 where
  pub head : ℕ
  pub tail : ℕ
  pub count : ℕ

abbrev pub empty_batch : SlotBatch
empty_batch = record { head = null; tail = null; count = 0 }

-- slot->next_free and slot->owning_pool are the same word.
abbrev pub tag_slot : ℕ → ℕ → Cmd (Unit {0})
tag_slot slot v = writes λ m. write_word m slot v

-- The loop of expand() that chains `k` slots from the `i`-th on.
unfoldable pub carve : ℕ → ℕ → (base total head : ℕ) → Cmd ℕ
carve zero i base total head = pure head
carve (suc k) i base total head = do
  tag_slot (base + i * total) head
  carve k (i + 1) base total (base + i * total)

module _ (p : Platform) where
  expand_into : Pool → Option OsRegion → Cmd (Bool × Pool)
  expand_into pool none = pure (false, pool)
  expand_into pool (some region) = do
    head ←
        carve (region.size / pool.slot_total_size) 0 region.base pool.slot_total_size pool.free_head
    let arena : PoolArena = record { base = region.base; size = region.size }
    pure (true, record pool { free_head = head; arenas = pool.arenas ++ arena ∷ [] })

  unfoldable pub expand : Pool → Cmd (Bool × Pool)
  unfolding expand_into
  expand pool = do
    region ← os_acquire p (mul64 pool.slot_total_size slots_per_arena)
    expand_into pool region

  -- `free_head_ == nullptr && !expand()` fails.
  unfoldable pub ensure_slot : Pool → Cmd (Bool × Pool)
  ensure_slot pool = if pool.free_head == null then expand pool else pure (true, pool)

  take_slot : ℕ → Bool × Pool → Cmd (ℕ × Pool)
  take_slot this (false, pool) = pure (null, pool)
  take_slot this (true, pool) = do
    let slot = pool.free_head
    next ← reads λ m. read_word m slot
    tag_slot slot this
    pure (slot + slot_header_size, record pool { free_head = next })

  -- `this` is the pool's own address.
  unfoldable pub allocate : ℕ → Pool → Cmd (ℕ × Pool)
  unfolding take_slot
  allocate this pool = do r ← ensure_slot pool; take_slot this r

  -- The slot joins the batch at its tail.
  unfoldable pub join_batch : SlotBatch → ℕ → Cmd SlotBatch
  join_batch batch slot =
      if batch.tail == null
      then pure (record { head = slot; tail = slot; count = add64 batch.count 1 })
      else do
        tag_slot batch.tail slot
        pure (record { head = batch.head; tail = slot; count = add64 batch.count 1 })

  -- The rest of one round of allocate_batch(), with a free slot at hand.
  unfoldable pub move_slot : Pool → SlotBatch → Cmd (Pool × SlotBatch)
  move_slot pool batch = do
    let slot = pool.free_head
    next ← reads λ m. read_word m slot
    tag_slot slot null
    batch' ← join_batch batch slot
    pure (record pool { free_head = next }, batch')

  -- The loop of allocate_batch(), with the rounds left.
  unfoldable pub gather : ℕ → Pool → SlotBatch → Cmd (Pool × SlotBatch)
  gather zero pool batch = pure (pool, batch)
  gather (suc k) pool batch = do
    (ok, pool') ← ensure_slot pool
    if ok
        then (do (pool'', batch') ← move_slot pool' batch; gather k pool'' batch')
        else pure (pool', batch)

  unfoldable pub allocate_batch : ℕ → Pool → Cmd (Pool × SlotBatch)
  allocate_batch max_count pool = gather max_count pool empty_batch

  unfoldable release_each : List PoolArena → Cmd (Unit {0})
  release_each [] = pure tt
  release_each (a ∷ as') = do released ← os_release p a.base a.size; release_each as'

  unfoldable pub release_all_arenas : Pool → Cmd Pool
  unfolding release_each
  release_all_arenas pool = do
    release_each pool.arenas
    pure (record pool { free_head = null; arenas = [] })

unfoldable pub deallocate : Pool → ℕ → Cmd Pool
deallocate pool ptr = do
  let slot = sub64 ptr slot_header_size
  tag_slot slot pool.free_head
  pure (record pool { free_head = slot })

unfoldable pub deallocate_batch : Pool → ℕ → ℕ → Cmd Pool
deallocate_batch pool chain_head chain_tail = do
  tag_slot chain_tail pool.free_head
  pure (record pool { free_head = chain_head })
