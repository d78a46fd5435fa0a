-- ===== src/ThreadCache/Pop.antt =====
-- pop_from_cache: the first slot of a cache is handed out.
use custom_memory_allocator.Base.{
  ℕ, ◌+◌, ◌≤◌, ◌<◌, ◌^◌, ◌≡◌, refl, true, false, null, List, [], ◌∷◌, ◌++◌, arith, All, All-left,
  All-right, head_or, last_or, Spaced, ◌==◌, ==_of_eq, ==_of_ne, if◌then◌else◌,
}
use custom_memory_allocator.Memory.{Memory, read_word, write_word}
use custom_memory_allocator.Memory.Access.{read_word-write_word}
use custom_memory_allocator.Run.{World}
use custom_memory_allocator.Run.Ends.{Ends, ends}
use custom_memory_allocator.Os.{Platform}
use custom_memory_allocator.Pool.{Pool}
use custom_memory_allocator.Pool.Slots.{Chain, Chain-write, tags-write}
use custom_memory_allocator.Pool.Spared.{Spared, header-Spared}
use custom_memory_allocator.Pool.Batch.Chains.{retag-IsStock, slot_near}
use custom_memory_allocator.ThreadCache.{ThreadLocalCache, pool_address, pop_from_cache}
use custom_memory_allocator.ThreadCache.Shared.{IsShared, IsStock-shift}

pub next_tail :
    (next tail s : ℕ) (cs : List ℕ)
    → next ≡ head_or null cs
    → All (λ c. 0 < c) cs
    → tail ≡ last_or null (s ∷ cs)
    → (if next == null then null else tail) ≡ last_or null cs
next_tail next tail s [] e pos t =
    let empty : (next == 0) ≡ true = ==_of_eq next 0 e in rw empty refl
next_tail next tail s (c ∷ cs) e pos t =
    let nonnull : (next == 0) ≡ false = ==_of_ne next 0 (omega (arith, pos.0)) in rw nonnull t

pub Chain-pos : (m : Memory) (stop : ℕ) (xs : List ℕ) → Chain m stop xs → All (λ c. 0 < c) xs
Chain-pos m stop [] c = tt
Chain-pos m stop (x ∷ xs) (pos, _, _, rest) = (pos, Chain-pos m stop xs rest)

-- What taking the first cached slot leaves.
pub record Popped (w : World) (owner s : ℕ) (pool : Pool) (free cs live others : List ℕ)
    (r : ℕ × ThreadLocalCache) (w' : World) : Type 0 where
  pub payload : r.0 ≡ s + 16
  pub shared : IsShared w' owner r.1 pool free cs (s ∷ live) others
  pub spared : Spared (live ++ others) pool w pool w'

pub pop_from_cache-Popped :
    (p : Platform) (w : World) (index : ℕ) (cache : ThreadLocalCache) (pool : Pool)
    (free cs live others : List ℕ)
    → pool_address p index < 2 ^ 64
    → IsShared w (pool_address p index) cache pool free (cache.head ∷ cs) live others
    → Ends
        (Popped w (pool_address p index) cache.head pool free cs live others)
        (pop_from_cache p cache index w)
unfolding pop_from_cache
pop_from_cache-Popped p w index cache pool free cs live others low i =
    let s = cache.head in
    let owner = pool_address p index in
    let wide : 8 ≤ pool.slot_total_size = omega (arith, i.is_stock.total) in
    let (pos, _, link, rest) = i.is_batch.chain in
    let (_, placed, _, _, near) =
      slot_near w.mem pool free [] s (cs ++ (live ++ others)) i.is_stock in
    let near_all = All-right (Spaced pool.slot_total_size s) cs (live ++ others) near in
    let near_live = All-left (Spaced pool.slot_total_size s) live others near_all in
    ends (record {
      payload = refl;
      shared = record {
        is_stock =
            IsStock-shift (write_word w.mem s owner) pool free [] (cs ++ (live ++ others)) cs
              (live ++ others) s refl
              (retag-IsStock w.mem pool free [] s (cs ++ (live ++ others)) owner i.is_stock);
        are_mapped = i.are_mapped;
        is_batch = record {
          head = link;
          tail =
              next_tail (read_word w.mem s) cache.tail s cs link (Chain-pos w.mem null cs rest)
                i.is_batch.tail;
          count = omega (arith, i.is_batch.count, i.few);
          chain =
              Chain-write w.mem s owner _ wide null cs (All-left _ cs (live ++ others) near) rest;
        };
        tags = (
          read_word-write_word w.mem s owner low,
          tags-write w.mem s owner _ wide owner live near_live i.tags,
        );
        few = omega (arith, i.few);
      };
      spared = header-Spared (live ++ others) pool pool w s owner wide placed near_all refl refl;
    })
