-- ===== src/ThreadCache/Refill.antt =====
-- my_malloc_pooled_stage3: the refill of a cache, as a scope of the pool's mutex.
use custom_memory_allocator.Base.{ℕ, ◌<◌, ◌^◌, ◌≡◌, refl, false, List, [], ◌∷◌, arith}
use custom_memory_allocator.Run.{World, Mutex, holds, with_lock}
use custom_memory_allocator.Run.Ends.{Ends}
use custom_memory_allocator.Run.Locks.{locked, unlocked, with_lock-Ends}
use custom_memory_allocator.Os.{Platform}
use custom_memory_allocator.Os.Laws.{IsKernel}
use custom_memory_allocator.Pool.{Pool, SlotBatch, allocate_batch}
use custom_memory_allocator.Pool.Slots.{IsStock}
use custom_memory_allocator.Pool.Restock.{AreMapped}
use custom_memory_allocator.Pool.Batch.{Gathered, allocate_batch-Gathered}

Gathered-unlocked :
    (p : Platform) (m : Mutex) (w w' : World) (pool : Pool) (free used : List ℕ) (k : ℕ)
    (r : Pool × SlotBatch)
    → Gathered p (locked m w) pool free used [] k r w'
    → (w'.process.held ≡ m ∷ w.process.held) × Gathered p w pool free used [] k r (unlocked w w')
Gathered-unlocked p m w w' pool free used k r g = (
  g.spared.held,
  record {
    taken = g.taken;
    rest = g.rest;
    drawn = g.drawn;
    is_batch = g.is_batch;
    is_stock = g.is_stock;
    are_mapped = g.are_mapped;
    spared = record {
      used_same = g.spared.used_same;
      outer = g.spared.outer;
      regions = g.spared.regions;
      held = refl;
      total_same = g.spared.total_same;
    };
    at_most = g.at_most;
    enough = g.enough;
  },
)

-- The refill, as a scope of the pool's mutex.
pub refill-Gathered :
    (p : Platform) (w : World) (index : ℕ) (pool : Pool) (free used : List ℕ)
    → IsKernel p
    → pool.slot_total_size < 2 ^ 40
    → holds (Mutex.pool index) w.process.held ≡ false
    → IsStock w.mem pool free used
    → AreMapped w.process.mapped pool.arenas
    → Ends
        (Gathered p w pool free used [] 32)
        (with_lock (Mutex.pool index) (allocate_batch p 32 pool) w)
refill-Gathered p w index pool free used kernel small unheld i ms =
    with_lock-Ends (Gathered p (locked (Mutex.pool index) w) pool free used [] 32)
      (Gathered p w pool free used [] 32) (Mutex.pool index) (allocate_batch p 32 pool) w unheld
      (allocate_batch-Gathered p (locked (Mutex.pool index) w) pool free used 32 kernel small
        (omega arith) i ms)
      (λ r w' g. Gathered-unlocked p (Mutex.pool index) w w' pool free used 32 r g)
