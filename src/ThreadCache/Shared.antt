-- ===== src/ThreadCache/Shared.antt =====
-- The slots of one size class, shared between the pool, a thread's cache and the program: each slot
-- is free in the pool, waits in the cache, or is handed out, and no two of them overlap.
use mathlib.Core.List.{append_assoc}
use custom_memory_allocator.Base.{
  ℕ, ◌≤◌, ◌*◌, ◌≡◌, sym, ap, subst, ◌∙◌, List, ◌∷◌, ◌++◌, All, All-left, All-right, All-append,
  arith, length, length-append, Spaced, AllSpaced, AllSpaced-drop, AllSpaced-insert, All-swap,
  AllSpaced-swap,
}
use custom_memory_allocator.Memory.{Memory, read_word}
use custom_memory_allocator.Run.{World}
use custom_memory_allocator.Pool.{Pool, SlotBatch}
use custom_memory_allocator.Pool.Slots.{IsStock, IsPlaced}
use custom_memory_allocator.Pool.Restock.{AreMapped}
use custom_memory_allocator.Pool.Batch.Chains.{IsBatch}
use custom_memory_allocator.ThreadCache.{ThreadLocalCache, cache_batch_size}

-- The three fields of a cache are those of a batch.
abbrev pub batch_of : ThreadLocalCache → SlotBatch
batch_of c = record { head = c.head; tail = c.tail; count = c.count }

-- `owner` is the address of the pool; `others` are the slots in the caches of other threads.
pub record IsShared (w : World) (owner : ℕ) (cache : ThreadLocalCache) (pool : Pool)
    (free cached live others : List ℕ) : Type 0 where
  pub is_stock : IsStock w.mem pool free (cached ++ (live ++ others))
  pub are_mapped : AreMapped w.process.mapped pool.arenas
  pub is_batch : IsBatch w.mem (batch_of cache) cached
  pub tags : All (λ y. read_word w.mem y ≡ owner) live
  pub few : length cached ≤ 2 * cache_batch_size

-- A used slot may stand elsewhere among the used ones.
pub IsStock-shift :
    (m : Memory) (pool : Pool) (free before after before' after' : List ℕ) (z : ℕ)
    → before ++ after ≡ before' ++ after'
    → IsStock m pool free (before ++ z ∷ after)
    → IsStock m pool free (before' ++ z ∷ after')
IsStock-shift m pool free before after before' after' z same i =
    let total = pool.slot_total_size in
    let e = sym (append_assoc free before (z ∷ after)) in
    let e' = append_assoc free before' (z ∷ after') in
    let rest : (free ++ before) ++ after ≡ (free ++ before') ++ after' =
      append_assoc free before after
      ∙ ap (λ xs. free ++ xs) same
      ∙ sym (append_assoc free before' after') in
    let (near, apart) =
      AllSpaced-drop total (free ++ before) z after (subst (AllSpaced total) e i.spaced) in
    let placed = subst (All (IsPlaced pool)) e i.placed in
    let others =
      All-append (IsPlaced pool) (free ++ before) after
        (All-left (IsPlaced pool) (free ++ before) (z ∷ after) placed)
        (All-right (IsPlaced pool) (free ++ before) (z ∷ after) placed).1 in
    let at = (All-right (IsPlaced pool) (free ++ before) (z ∷ after) placed).0 in
    let others' = subst (All (IsPlaced pool)) rest others in
    record {
      total = i.total;
      payload = i.payload;
      head = i.head;
      chain = i.chain;
      spaced = subst (AllSpaced total) e' (
          AllSpaced-insert total (free ++ before') z after' (subst (All (Spaced total z)) rest near)
            (subst (AllSpaced total) rest apart));
      placed = subst (All (IsPlaced pool)) e' (
          All-append (IsPlaced pool) (free ++ before') (z ∷ after')
            (All-left (IsPlaced pool) (free ++ before') after' others')
            (at, All-right (IsPlaced pool) (free ++ before') after' others'));
      full = omega (
        arith,
        i.full,
        ap (λ (l : List ℕ). length l) same,
        length-append before after,
        length-append before' after',
        length-append before (z ∷ after),
        length-append before' (z ∷ after'),
      );
    }

-- Two stretches of used slots trade places.
pub IsStock-swap :
    (m : Memory) (pool : Pool) (free xs ys us : List ℕ)
    → IsStock m pool free (xs ++ (ys ++ us))
    → IsStock m pool free (ys ++ (xs ++ us))
IsStock-swap m pool free xs ys us i =
    let total = pool.slot_total_size in
    let e = sym (append_assoc free xs (ys ++ us)) in
    let e' : ys ++ ((free ++ xs) ++ us) ≡ ys ++ (free ++ (xs ++ us)) =
      ap (λ l. ys ++ l) (append_assoc free xs us) in
    record {
      total = i.total;
      payload = i.payload;
      head = i.head;
      chain = i.chain;
      spaced = AllSpaced-swap total ys free (xs ++ us) (
          subst (AllSpaced total) e'
            (AllSpaced-swap total (free ++ xs) ys us (subst (AllSpaced total) e i.spaced)));
      placed = All-swap (IsPlaced pool) ys free (xs ++ us) (
          subst (All (IsPlaced pool)) e'
            (All-swap (IsPlaced pool) (free ++ xs) ys us (subst (All (IsPlaced pool)) e i.placed)));
      full = omega (
        arith,
        i.full,
        length-append xs (ys ++ us),
        length-append ys us,
        length-append ys (xs ++ us),
        length-append xs us,
      );
    }
