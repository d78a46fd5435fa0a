-- ===== src/ThreadCache/Malloc.antt =====
-- my_malloc_pooled_stage3: a request served from the thread's cache, refilled from the pool.
use custom_memory_allocator.Base.{
  In-append_left, ℕ, ◌+◌, ◌≤◌, ◌<◌, ◌^◌, ◌≡◌, ◌⊎◌, refl, sym, ap, subst, ◌∙◌, suc, inl, inr, true,
  false, null, List, [], ◌∷◌, ◌++◌, arith, All, length, ◌==◌, ==_of_eq, ==_of_ne, if◌then◌else◌,
}
use custom_memory_allocator.Memory.{read_word}
use custom_memory_allocator.Run.{World, Mutex, holds, pure, ◌>>=◌}
use custom_memory_allocator.Run.Ends.{Ends, ends, Ends-continue}
use custom_memory_allocator.Os.{Platform}
use custom_memory_allocator.Os.Laws.{IsKernel}
use custom_memory_allocator.Pool.{Pool, SlotBatch}
use custom_memory_allocator.Pool.Slots.{IsStock}
use custom_memory_allocator.Pool.Restock.{AreMapped, Starved}
use custom_memory_allocator.Pool.Spared.{
  Spared, Spared-refl, Spared-trans, Spared-weaken, tags-Spared,
}
use custom_memory_allocator.Pool.Batch.{Drawn}
use custom_memory_allocator.Pool.Batch.Chains.{IsBatch}
use custom_memory_allocator.ThreadCache.{
  ThreadLocalCache, pool_address, pop_from_cache, malloc_cached,
}
use custom_memory_allocator.ThreadCache.Pop.{pop_from_cache-Popped}
use custom_memory_allocator.ThreadCache.Refill.{refill-Gathered}
use custom_memory_allocator.ThreadCache.Shared.{IsShared, batch_of}

-- Where a slot that is handed out comes from, and what the cache and the pool keep: it is the first
-- cached one; or the cache is empty and takes the pool's first slots in its stead, 32 of them or
-- all that there are, of which it is the first.
abbrev pub IsSourced : (free₀ cached₀ free cached : List ℕ) → ℕ → Type 0
IsSourced free₀ cached₀ free cached slot =
    ((cached₀ ≡ slot ∷ cached) × (free ≡ free₀))
    ⊎ ((cached₀ ≡ [])
        × Drawn free₀ (slot ∷ cached) free 32
        × ((length (slot ∷ cached) ≡ 32) ⊎ (free ≡ [])))

-- A slot handed out, which is live now; `free₀` were the free slots and `cached₀` those in the cache.
pub record Handed (w : World) (owner : ℕ) (pool : Pool) (free₀ cached₀ live others : List ℕ)
    (r : ℕ × ThreadLocalCache × Pool) (w' : World) : Type 0 where
  pub slot : ℕ
  pub free : List ℕ
  pub cached : List ℕ
  pub from : IsSourced free₀ cached₀ free cached slot
  pub payload : r.0 ≡ slot + 16
  pub shared : IsShared w' owner r.1 r.2 free cached (slot ∷ live) others
  pub spared : Spared (live ++ others) pool w r.2 w'

-- No slot: the cache and the pool were empty, and the system gives no more memory.
pub record Dry (p : Platform) (w : World) (owner : ℕ) (pool : Pool)
    (free₀ cached₀ live others : List ℕ) (r : ℕ × ThreadLocalCache × Pool) (w' : World)
    : Type 0 where
  pub none_free : free₀ ≡ []
  pub none_cached : cached₀ ≡ []
  pub starved : Starved p r.2 w'
  pub payload : r.0 ≡ null
  pub shared : IsShared w' owner r.1 r.2 [] [] live others
  pub spared : Spared (live ++ others) pool w r.2 w'

abbrev pub MallocCached :
    Platform
    → World
    → ℕ
    → Pool
    → (free₀ cached₀ live others : List ℕ) → ℕ × ThreadLocalCache × Pool
    → World
    → Type 0
MallocCached p w owner pool free₀ cached₀ live others r w' =
    Handed w owner pool free₀ cached₀ live others r w'
    ⊎ Dry p w owner pool free₀ cached₀ live others r w'

pop_handed :
    (p : Platform) (w0 w : World) (index : ℕ) (cache : ThreadLocalCache) (pool0 pool : Pool)
    (free₀ cached₀ free cs live others : List ℕ)
    → pool_address p index < 2 ^ 64
    → IsShared w (pool_address p index) cache pool free (cache.head ∷ cs) live others
    → IsSourced free₀ cached₀ free cs cache.head
    → Spared (live ++ others) pool0 w0 pool w
    → Ends
        (MallocCached p w0 (pool_address p index) pool0 free₀ cached₀ live others)
        ((pop_from_cache p cache index >>= λ r. pure (r.0, r.1, pool)) w)
pop_handed p w0 w index cache pool0 pool free₀ cached₀ free cs live others low i from s =
    Ends-continue (pop_from_cache-Popped p w index cache pool free cs live others low i)
      λ r w' popped. ends (
        inl (record {
          slot = cache.head;
          free = free;
          cached = cs;
          from = from;
          payload = popped.payload;
          shared = popped.shared;
          spared = Spared-trans (λ y at. at) s popped.spared;
        }))

-- The batch becomes the cache.
refilled :
    (w w' : World) (owner : ℕ) (pool pool' : Pool) (live others slots rest : List ℕ)
    (batch : SlotBatch)
    → 8 ≤ pool.slot_total_size
    → length slots ≤ 64
    → All (λ y. read_word w.mem y ≡ owner) live
    → IsBatch w'.mem batch slots
    → IsStock w'.mem pool' rest (slots ++ (live ++ others))
    → AreMapped w'.process.mapped pool'.arenas
    → Spared (live ++ others) pool w pool' w'
    → IsShared w' owner
        (record { head = batch.head; tail = batch.tail; count = batch.count })
        pool'
        rest
        slots
        live
        others
refilled w w' owner pool pool' live others slots rest batch wide few tags b i ms s = record {
  is_stock = i;
  are_mapped = ms;
  is_batch = b;
  tags =
      tags-Spared live owner pool pool' w w' wide
        (Spared-weaken (λ y at. In-append_left live others y at) s) tags;
  few = few;
}

none_drawn : (free added : List ℕ) → [] ≡ free ++ added → free ≡ []
none_drawn [] added e = refl
none_drawn (x ∷ xs) added e =
    let bad : 0 ≡ suc (length (xs ++ added)) = ap (λ (l : List ℕ). length l) e in
    absurd (omega (arith, bad))

after_refill :
    (p : Platform) (w w1 : World) (index : ℕ) (cache : ThreadLocalCache) (pool pool1 : Pool)
    (batch : SlotBatch) (free live others slots rest : List ℕ)
    → pool_address p index < 2 ^ 64
    → 8 ≤ pool.slot_total_size
    → All (λ y. read_word w.mem y ≡ pool_address p index) live
    → IsBatch w.mem (batch_of cache) []
    → IsBatch w1.mem batch slots
    → IsStock w1.mem pool1 rest (slots ++ (live ++ others))
    → AreMapped w1.process.mapped pool1.arenas
    → Spared (live ++ others) pool w pool1 w1
    → length slots ≤ 32
    → Drawn free slots rest 32
    → (length slots ≡ 32) ⊎ ((rest ≡ []) × Starved p pool1 w1)
    → Ends (MallocCached p w (pool_address p index) pool free [] live others) (
        (if batch.head == null
            then pure (null, cache, pool1)
            else (pop_from_cache p
                  (record { head = batch.head; tail = batch.tail; count = batch.count })
                  index
                >>= λ r. pure (r.0, r.1, pool1)))
          w1)
after_refill p w w1 index cache pool pool1 batch free live others [] rest low wide tags c b i ms s
      few drawn full =
    let (dry, starved) : (rest ≡ []) × Starved p pool1 w1 = elim full [
      | inl e ↦ absurd (omega arith)
      | inr e ↦ e
    ] in
    let empty : (batch.head == 0) ≡ true = ==_of_eq batch.head 0 b.head in
    let i' = subst (λ l. IsStock w1.mem pool1 l (live ++ others)) dry i in
    rw empty (
      ends (
        inr (record {
          none_free = none_drawn free drawn.added (sym dry ∙ drawn.kept);
          none_cached = refl;
          starved = starved;
          payload = refl;
          shared = record {
            is_stock = i';
            are_mapped = ms;
            is_batch = record { head = c.head; tail = c.tail; count = c.count; chain = tt };
            tags =
                tags-Spared live (pool_address p index) pool pool1 w w1 wide
                  (Spared-weaken (λ y at. In-append_left live others y at) s) tags;
            few = omega arith;
          };
          spared = s;
        })))
after_refill p w w1 index cache pool pool1 batch free live others (x ∷ xs) rest low wide tags c b i
      ms s few drawn full =
    let cache1 : ThreadLocalCache = record {
      head = batch.head;
      tail = batch.tail;
      count = batch.count;
    } in
    let nonnull : (batch.head == 0) ≡ false =
      ==_of_ne batch.head 0 (omega (arith, b.head, b.chain.0)) in
    let shared =
      refilled w w1 (pool_address p index) pool pool1 live others (x ∷ xs) rest batch wide
        (omega arith) tags b i ms s in
    let shared' =
      subst (λ y. IsShared w1 (pool_address p index) cache1 pool1 rest (y ∷ xs) live others)
        (sym b.head) shared in
    let source : IsSourced free [] rest xs batch.head = inr (
      refl,
      subst (λ y. Drawn free (y ∷ xs) rest 32) (sym b.head) drawn,
      elim full [ inl e ↦ inl e | inr e ↦ inr e.0 ],
    ) in
    rw nonnull
      (pop_handed p w w1 index cache1 pool pool1 free [] rest xs live others low shared' source s)

-- A request to a size class at stage 3 gets the first slot of the cache, and then the pool's slots stay
-- as they are; or, from an empty cache, the first of the 32 slots that the cache takes off the pool,
-- of the free ones in their order and, when these are fewer, of those of new arenas; fewer than 32
-- only when no slot stays free. It gets null only when no slot was cached or free and mmap refuses
-- one more arena. The tag of the slot names the pool. Each slot of the arenas is free, cached or live
-- after it, and none overlap; live slots and the slots of other caches keep every byte, and so do
-- the mapped bytes outside the pool's arenas; the mutexes that the thread holds are the same.
pub malloc_cached-MallocCached :
    (p : Platform) (w : World) (index : ℕ) (cache : ThreadLocalCache) (pool : Pool)
    (free cached live others : List ℕ)
    → IsKernel p
    → pool_address p index < 2 ^ 64
    → pool.slot_total_size < 2 ^ 40
    → holds (Mutex.pool index) w.process.held ≡ false
    → IsShared w (pool_address p index) cache pool free cached live others
    → Ends
        (MallocCached p w (pool_address p index) pool free cached live others)
        (malloc_cached p index cache pool w)
unfolding malloc_cached
malloc_cached-MallocCached p w index cache pool free [] live others kernel low small unheld i =
    let empty : (cache.head == 0) ≡ true = ==_of_eq cache.head 0 i.is_batch.head in
    rw empty (
      Ends-continue
        (refill-Gathered p w index pool free (live ++ others) kernel small unheld i.is_stock
          i.are_mapped)
        λ r w1 g.
          after_refill p w w1 index cache pool r.0 r.1 free live others g.taken g.rest low
            (omega (arith, i.is_stock.total)) i.tags i.is_batch g.is_batch g.is_stock g.are_mapped
            g.spared (omega (arith, g.at_most)) g.drawn g.enough)
malloc_cached-MallocCached p w index cache pool free (x ∷ cs) live others kernel low small unheld
      i =
    let nonnull : (cache.head == 0) ≡ false =
      ==_of_ne cache.head 0 (omega (arith, i.is_batch.head, i.is_batch.chain.0)) in
    let i' =
      subst (λ y. IsShared w (pool_address p index) cache pool free (y ∷ cs) live others)
        (sym i.is_batch.head) i in
    rw nonnull (
      pop_handed p w w index cache pool pool free (x ∷ cs) free cs live others low i'
        (inl (ap (λ y. y ∷ cs) (sym i.is_batch.head), refl)) (Spared-refl (live ++ others) pool w))
