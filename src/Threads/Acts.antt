-- ===== src/Threads/Acts.antt =====
-- Every step of a thread keeps the slots apart.
use custom_memory_allocator.Base.{ℕ, ◌<◌, ◌^◌, ◌≢◌, null, List, [], ◌∷◌, arith}
use custom_memory_allocator.Os.{Platform}
use custom_memory_allocator.Os.Laws.{IsKernel}
use custom_memory_allocator.ThreadCache.{ThreadLocalCache, pool_address}
use custom_memory_allocator.ThreadCache.Shared.{IsShared}
use custom_memory_allocator.Threads.{
  idle, refilled, over, Thread, thread, Shared, Act, hit, refill, refuse, pop, push, push_over,
  detach_front, splice,
}
use custom_memory_allocator.Threads.Share.{IsPart, Acted, at_rest}
use custom_memory_allocator.Threads.Take.{pop-Acted, refill-Acted}
use custom_memory_allocator.Threads.Push.{push-Acted}
use custom_memory_allocator.Threads.Detach.{detach_batch-Acted}
use custom_memory_allocator.Threads.Splice.{splice-Acted}

-- Behind a refill, too, a thread's view is that of a cache in front of the pool, and the cache has a
-- slot.
pub at_refilled :
    {owner : ℕ} {s : Shared} {cache : ThreadLocalCache} {mine others : List ℕ}
    → (i : IsPart owner s (thread cache refilled) mine others)
    → IsShared s.world owner cache s.pool i.free mine s.live others
at_refilled i =
    let (b, few, _) = i.holds in
    record {
      is_stock = i.is_stock;
      are_mapped = i.are_mapped;
      is_batch = b;
      tags = i.tags;
      few = few;
    }

pub refilled_head :
    {owner : ℕ} {s : Shared} {cache : ThreadLocalCache} {others : List ℕ} (mine : List ℕ)
    → (i : IsPart owner s (thread cache refilled) mine others) → cache.head ≢ null
refilled_head [] i = let (_, _, some_left) = i.holds in absurd (omega arith)
refilled_head (x ∷ xs) i = let (b, _, _) = i.holds in λ e. omega (arith, e, b.head, b.chain.0)

module _ (p : Platform) (index : ℕ) (kernel : IsKernel p)
    (low : pool_address p index < 2 ^ 64) where
  pub Act-Acted :
      {s s' : Shared} {th th' : Thread} (mine others : List ℕ)
      → IsPart (pool_address p index) s th mine others
      → Act p index s th s' th'
      → Acted (pool_address p index) s others s' th'
  Act-Acted {s} mine others i (hit {cache} {cache'} {slot} {w'} some_left run) =
      pop-Acted p index low s cache cache' slot w' i.free mine others some_left (at_rest i) i.unheld
        i.small run
  Act-Acted {s} mine others i (refill {cache} {pool'} {batch} {w'} empty run some_left) =
      (refill-Acted p index kernel s cache pool' batch w' mine others empty i run).0 some_left
  Act-Acted {s} mine others i (refuse {cache} {pool'} {batch} {w'} empty run none_left) =
      (refill-Acted p index kernel s cache pool' batch w' mine others empty i run).1 none_left
  Act-Acted {s} mine others i (pop {cache} {cache'} {slot} {w'} run) =
      pop-Acted p index low s cache cache' slot w' i.free mine others (refilled_head mine i)
        (at_refilled i) i.unheld i.small run
  Act-Acted {s} mine others i (push {cache} {cache'} {w'} before slot after e run fine) =
      push-Acted (pool_address p index) s cache cache' w' mine others before slot after idle e i run
        (λ b. (b, omega (arith, b.count, fine)))
  Act-Acted {s} mine others i (push_over {cache} {cache'} {w'} before slot after e run full) =
      push-Acted (pool_address p index) s cache cache' w' mine others before slot after over e i run
        (λ b. (b, omega (arith, b.count, full, i.holds.1)))
  Act-Acted {s} mine others i (detach_front {cache} {cache'} {batch} {w'} run) =
      detach_batch-Acted (pool_address p index) s cache cache' batch w' mine others i run
  Act-Acted {s} mine others i (splice {cache} {batch} {pool'} {w'} run) =
      splice-Acted (pool_address p index) index s cache batch pool' w' mine others i run
