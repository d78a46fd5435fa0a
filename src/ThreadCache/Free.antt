-- ===== src/ThreadCache/Free.antt =====
-- my_free_pooled_stage3: a slot goes to the front of the thread's cache, and half of a full cache
-- goes back to the pool.
use mathlib.Core.List.{append_assoc}
use custom_memory_allocator.Base.{
  ℕ, ◌≤◌, ◌<◌, suc, ◌^◌, ◌≡◌, ◌⊎◌, refl, sym, ap, subst, ◌∙◌, inl, inr, true, false, null, List, [],
  ◌∷◌, ◌++◌, arith, All, All-left, All-right, All-append, length, head_or, last_or, Spaced, add64,
  ltb, ltb_of_lt, ltb_of_le, lt_cases, ◌==◌, ==_of_eq, ==_of_ne, if◌then◌else◌,
}
use custom_memory_allocator.Memory.{Memory, read_word, write_word}
use custom_memory_allocator.Memory.Access.{read_word-write_word}
use custom_memory_allocator.Run.{World, Mutex, holds}
use custom_memory_allocator.Run.Ends.{Ends, ends, Ends-weaken}
use custom_memory_allocator.Pool.{Pool}
use custom_memory_allocator.Pool.Slots.{IsStock, Chain, Chain-write, tags-write}
use custom_memory_allocator.Pool.Spared.{Spared, Spared-trans, header-Spared}
use custom_memory_allocator.Pool.Batch.Chains.{IsBatch, retag-IsStock, slot_near}
use custom_memory_allocator.ThreadCache.{ThreadLocalCache, free_cached}
use custom_memory_allocator.ThreadCache.Shared.{IsShared, IsStock-shift}
use custom_memory_allocator.ThreadCache.Flush.{flush_batch_to_pool-Flushed}

-- What a free leaves: the slot waits in the cache, at the front of the others, of which the last
-- half may have stayed alone.
pub record Freed (w : World) (owner s : ℕ) (pool : Pool) (free cached live others : List ℕ)
    (r : ThreadLocalCache × Pool) (w' : World) : Type 0 where
  pub moved : List ℕ
  pub kept : List ℕ
  pub split : s ∷ cached ≡ moved ++ kept
  pub flushed :
      ((length cached < 64) × (length moved ≡ 0)) ⊎ ((length cached ≡ 64) × (length moved ≡ 32))
  pub shared : IsShared w' owner r.0 r.1 (moved ++ free) kept live others
  pub spared : Spared (live ++ others) pool w r.1 w'

Chain-head_fits : (m : Memory) (xs : List ℕ) → Chain m null xs → head_or null xs < 2 ^ 64
Chain-head_fits m [] c = omega arith
Chain-head_fits m (x ∷ xs) c = c.1

push_tail :
    (m : Memory) (head tail s : ℕ) (xs : List ℕ)
    → Chain m null xs
    → head ≡ head_or null xs
    → tail ≡ last_or null xs
    → (if head == null then s else tail) ≡ last_or s xs
push_tail m head tail s [] c h t =
    let empty : (head == 0) ≡ true = ==_of_eq head 0 h in rw empty refl
push_tail m head tail s (x ∷ xs) c h t =
    let nonnull : (head == 0) ≡ false = ==_of_ne head 0 (omega (arith, h, c.0)) in rw nonnull t

-- The cache with the slot at its front, before the length of the cache is looked at.
pub record Pushed (w : World) (owner s : ℕ) (cache : ThreadLocalCache) (pool : Pool)
    (free cached live others : List ℕ) : Type 0 where
  pub is_stock :
      IsStock (write_word w.mem s cache.head) pool free ((s ∷ cached) ++ (live ++ others))
  pub is_batch :
      IsBatch
        (write_word w.mem s cache.head)
        (record {
          head = s;
          tail = if cache.head == null then s else cache.tail;
          count = add64 cache.count 1;
        })
        (s ∷ cached)
  pub tags : All (λ y. read_word (write_word w.mem s cache.head) y ≡ owner) live
  pub spared :
      Spared (live ++ others) pool w pool (record w { mem = write_word w.mem s cache.head })

pub push-Pushed :
    (w : World) (owner s : ℕ) (cache : ThreadLocalCache) (pool : Pool)
    (free cached before after others : List ℕ)
    → IsShared w owner cache pool free cached (before ++ s ∷ after) others
    → Pushed w owner s cache pool free cached (before ++ after) others
push-Pushed w owner s cache pool free cached before after others i =
    let b = i.is_batch in
    let wide : 8 ≤ pool.slot_total_size = omega (arith, i.is_stock.total) in
    let later = after ++ others in
    let e = sym (append_assoc cached before (s ∷ later)) in
    let e' = append_assoc before (s ∷ after) others in
    let back : (cached ++ before) ++ later ≡ cached ++ ((before ++ after) ++ others) =
      append_assoc cached before later
      ∙ ap (λ l. cached ++ l) (sym (append_assoc before after others)) in
    let i1 =
      subst (IsStock w.mem pool free) e
        (subst (λ l. IsStock w.mem pool free (cached ++ l)) e' i.is_stock) in
    let (pos, placed, _, near_front, near_after) =
      slot_near w.mem pool free (cached ++ before) s later i1 in
    let near_cached = All-left (Spaced pool.slot_total_size s) cached before near_front in
    let near_live =
      All-append (Spaced pool.slot_total_size s) before after (All-right _ cached before near_front)
        (All-left _ after others near_after) in
    let near_all =
      All-append (Spaced pool.slot_total_size s) (before ++ after) others near_live
        (All-right _ after others near_after) in
    let tags =
      All-append (λ y. read_word w.mem y ≡ owner) before after
        (All-left _ before (s ∷ after) i.tags)
        (All-right (λ y. read_word w.mem y ≡ owner) before (s ∷ after) i.tags).1 in
    let (_, _, room, _) = placed in
    let low : s < 2 ^ 64 = omega arith in
    let fits : cache.head < 2 ^ 64 = omega (arith, b.head, Chain-head_fits w.mem cached b.chain) in
    record {
      is_stock =
          IsStock-shift (write_word w.mem s cache.head) pool free (cached ++ before) later []
            (cached ++ ((before ++ after) ++ others)) s back
            (retag-IsStock w.mem pool free (cached ++ before) s later cache.head i1);
      is_batch = record {
        head = refl;
        tail = push_tail w.mem cache.head cache.tail s cached b.chain b.head b.tail;
        count = omega (arith, b.count, i.few);
        chain = (
          pos,
          low,
          read_word-write_word w.mem s cache.head fits ∙ b.head,
          Chain-write w.mem s cache.head _ wide null cached near_cached b.chain,
        );
      };
      tags = tags-write w.mem s cache.head _ wide owner (before ++ after) near_live tags;
      spared =
          header-Spared ((before ++ after) ++ others) pool pool w s cache.head wide placed near_all
            refl refl;
    }

-- Freeing a live slot of a size class at stage 3: the slot joins the cache; when the cache then holds
-- more than 64 slots, exactly 32 of them go back to the pool, and the mutexes that the thread holds
-- are the same before and after. Cache, pool, program and the caches of other threads go on sharing
-- the slots with no overlap, the cache never holds more than 64 slots, the slots that stay live and
-- those of other caches keep every byte, and so do the mapped bytes outside the pool's arenas.
pub free_cached-Freed :
    (w : World) (owner index s : ℕ) (cache : ThreadLocalCache) (pool : Pool)
    (free cached before after others : List ℕ)
    → holds (Mutex.pool index) w.process.held ≡ false
    → IsShared w owner cache pool free cached (before ++ s ∷ after) others
    → Ends
        (Freed w owner s pool free cached (before ++ after) others)
        (free_cached s index cache pool w)
unfolding free_cached
free_cached-Freed w owner index s cache pool free cached before after others unheld i =
    let q = push-Pushed w owner s cache pool free cached before after others i in
    let w1 : World = record w { mem = write_word w.mem s cache.head } in
    let cache1 : ThreadLocalCache = record {
      head = s;
      tail = if cache.head == null then s else cache.tail;
      count = add64 cache.count 1;
    } in
    let count : add64 cache.count 1 ≡ suc (length cached) = q.is_batch.count in
    elim (lt_cases 64 (add64 cache.count 1)) [
      | inl over ↦
          let full : ltb 64 (add64 cache.count 1) ≡ true = ltb_of_lt _ _ over in
          rw full (
            Ends-weaken
              (flush_batch_to_pool-Flushed w1 owner index cache1 pool free cached (before ++ after)
                others unheld q.is_stock i.are_mapped q.is_batch q.tags (omega arith)
                (omega (arith, i.few)))
              λ r w2 f. record {
                moved = f.moved;
                kept = f.kept;
                split = f.split;
                flushed = inr (omega (arith, i.few), f.half);
                shared = f.shared;
                spared = Spared-trans (λ y at. at) q.spared f.spared;
              })
      | inr room ↦
          let fine : ltb 64 (add64 cache.count 1) ≡ false = ltb_of_le _ _ room in
          rw fine (
            ends (record {
              moved = [];
              kept = s ∷ cached;
              split = refl;
              flushed = inl (omega arith, refl);
              shared = record {
                is_stock = q.is_stock;
                are_mapped = i.are_mapped;
                is_batch = q.is_batch;
                tags = q.tags;
                few = omega arith;
              };
              spared = q.spared;
            }))
    ]
