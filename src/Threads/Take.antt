-- ===== src/Threads/Take.antt =====
-- my_malloc_pooled_stage3: slots come out of a cache, and batches out of the pool.
use custom_memory_allocator.Base.{
  ℕ, ◌+◌, ◌≤◌, ◌<◌, ◌^◌, ◌≡◌, ◌≢◌, refl, sym, ap, subst, ◌∙◌, null, false, List, [], ◌∷◌, ◌++◌,
  arith, All, In-append_left, In-append_right, length, head_or,
}
use custom_memory_allocator.Memory.{Memory, read_word}
use custom_memory_allocator.Run.{World, done, Mutex, with_lock, holds}
use custom_memory_allocator.Run.Ends.{Ends-at}
use custom_memory_allocator.Os.{Platform}
use custom_memory_allocator.Os.Laws.{IsKernel}
use custom_memory_allocator.Pool.{Pool, SlotBatch, allocate_batch}
use custom_memory_allocator.Pool.Slots.{IsStock}
use custom_memory_allocator.Pool.Restock.{AreMapped}
use custom_memory_allocator.Pool.Batch.Chains.{IsBatch}
use custom_memory_allocator.Pool.Spared.{Spared, Spared-weaken, tags-Spared}
use custom_memory_allocator.ThreadCache.{ThreadLocalCache, pool_address, pop_from_cache}
use custom_memory_allocator.ThreadCache.Refill.{refill-Gathered}
use custom_memory_allocator.ThreadCache.Shared.{IsShared}
use custom_memory_allocator.ThreadCache.Pop.{pop_from_cache-Popped}
use custom_memory_allocator.Threads.{idle, refilled, Thread, thread, Shared, shared, cache_of}
use custom_memory_allocator.Threads.Share.{IsPart, Holds, Acted, resting}

module _ (p : Platform) (index : ℕ) (low : pool_address p index < 2 ^ 64) where
  -- The first slot of a cache that is not empty is handed out.
  pub pop-Acted :
      (s : Shared) (cache cache' : ThreadLocalCache) (slot : ℕ) (w' : World)
      (free mine others : List ℕ)
      → cache.head ≢ null
      → IsShared s.world (pool_address p index) cache s.pool free mine s.live others
      → s.world.process.held ≡ []
      → s.pool.slot_total_size < 2 ^ 40
      → pop_from_cache p cache index s.world ≡ done (slot + 16, cache') w'
      → Acted
          (pool_address p index)
          s
          others
          (shared w' s.pool (slot ∷ s.live))
          (thread cache' idle)
  pop-Acted s cache cache' slot w' free [] others some_left i unheld small run =
      absurd (some_left i.is_batch.head)
  pop-Acted s cache cache' slot w' free (x ∷ cs) others some_left i unheld small run =
      let owner = pool_address p index in
      let i' =
        subst (λ y. IsShared s.world owner cache s.pool free (y ∷ cs) s.live others)
          (sym i.is_batch.head) i in
      let popped =
        Ends-at (slot + 16, cache') w' run
          (pop_from_cache-Popped p s.world index cache s.pool free cs s.live others low i') in
      let same : cache.head ≡ slot = omega (arith, popped.payload) in
      let after =
        subst (λ y. IsShared w' owner cache' s.pool free cs (y ∷ s.live) others) same
          popped.shared in
      record {
        mine = cs;
        is_part =
            resting owner (shared w' s.pool (slot ∷ s.live)) cache' free cs others after
              (popped.spared.held ∙ unheld) small;
        spared = Spared-weaken (λ y at. In-append_right s.live others y at) popped.spared;
        live_same =
            λ y a at _ lo hi. popped.spared.used_same y a (In-append_left s.live others y at) lo hi;
      }

pub unheld_free : (m : Mutex) (w : World) → w.process.held ≡ [] → holds m w.process.held ≡ false
unheld_free m w e = ap (λ l. holds m l) e

module _ (p : Platform) (index : ℕ) (kernel : IsKernel p) where
  gathered_view :
      (s : Shared) (pool' : Pool) (batch : SlotBatch) (w' : World) (others slots rest : List ℕ)
      → IsStock w'.mem pool' rest (slots ++ (s.live ++ others))
      → AreMapped w'.process.mapped pool'.arenas
      → Spared (s.live ++ others) s.pool s.world pool' w'
      → 8 ≤ s.pool.slot_total_size
      → s.pool.slot_total_size < 2 ^ 40
      → s.world.process.held ≡ []
      → All (λ y. read_word s.world.mem y ≡ pool_address p index) s.live
      → (th : Thread) → Holds w'.mem th.cache th.phase slots
      → Acted (pool_address p index) s others (shared w' pool' s.live) th
  gathered_view s pool' batch w' others slots rest i ms spared wide small unheld tags th h =
      record {
        mine = slots;
        is_part = record {
          free = rest;
          is_stock = i;
          are_mapped = ms;
          holds = h;
          tags =
              tags-Spared s.live (pool_address p index) s.pool pool' s.world w' wide
                (Spared-weaken (λ y at. In-append_left s.live others y at) spared) tags;
          unheld = spared.held ∙ unheld;
          small = omega (arith, spared.total_same);
        };
        spared = Spared-weaken (λ y at. In-append_right s.live others y at) spared;
        live_same =
            λ y a at _ lo hi. spared.used_same y a (In-append_left s.live others y at) lo hi;
      }

  -- An empty cache takes a batch off the pool, or finds that there is none.
  pub refill-Acted :
      (s : Shared) (cache : ThreadLocalCache) (pool' : Pool) (batch : SlotBatch) (w' : World)
      (mine others : List ℕ)
      → cache.head ≡ null
      → IsPart (pool_address p index) s (thread cache idle) mine others
      → with_lock (Mutex.pool index) (allocate_batch p 32 s.pool) s.world ≡ done (pool', batch) w'
      → (batch.head ≢ null
          → Acted
              (pool_address p index)
              s
              others
              (shared w' pool' s.live)
              (thread (cache_of batch) refilled))
        × (batch.head ≡ null
            → Acted (pool_address p index) s others (shared w' pool' s.live) (thread cache idle))
  refill-Acted s cache pool' batch w' (x ∷ xs) others empty i run =
      absurd (omega (arith, empty, i.holds.0.head, i.holds.0.chain.0))
  refill-Acted s cache pool' batch w' [] others empty i run =
      let g =
        Ends-at (pool', batch) w' run
          (refill-Gathered p s.world index s.pool i.free (s.live ++ others) kernel i.small
            (unheld_free (Mutex.pool index) s.world i.unheld) i.is_stock i.are_mapped) in
      let wide : 8 ≤ s.pool.slot_total_size = omega (arith, i.is_stock.total) in
      (
        λ some_left.
            gathered_view s pool' batch w' others g.taken g.rest g.is_stock g.are_mapped g.spared
              wide i.small i.unheld i.tags (thread (cache_of batch) refilled)
              (g.is_batch, omega (arith, g.at_most), some_slots g.taken g.is_batch.head some_left),
        λ none_left.
            let dry = no_slots w'.mem g.taken batch none_left g.is_batch in
            gathered_view s pool' batch w' others [] g.rest
              (subst (λ l. IsStock w'.mem pool' g.rest (l ++ (s.live ++ others))) dry g.is_stock)
              g.are_mapped g.spared wide i.small i.unheld i.tags (thread cache idle)
              (
                record {
                  head = i.holds.0.head;
                  tail = i.holds.0.tail;
                  count = i.holds.0.count;
                  chain = tt;
                },
                omega arith,
              ),
      )
    where
      some_slots : (xs : List ℕ) → batch.head ≡ head_or null xs → batch.head ≢ null → 0 < length xs
      some_slots [] h ne = absurd (ne h)
      some_slots (x ∷ xs) h ne = omega arith

      no_slots :
          (m : Memory) (xs : List ℕ) (b : SlotBatch) → b.head ≡ null → IsBatch m b xs → xs ≡ []
      no_slots m [] b e h = refl
      no_slots m (x ∷ xs) b e h = absurd (omega (arith, e, h.head, h.chain.0))
