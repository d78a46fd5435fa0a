-- ===== src/Threads/Push.antt =====
-- my_free_pooled_stage3: a live slot goes to the front of a thread's cache.
use custom_memory_allocator.Base.{
  ℕ, ◌≡◌, refl, sym, subst, ◌∙◌, List, ◌∷◌, ◌++◌, All, In-append_left, In-append_right,
}
use custom_memory_allocator.Memory.{read_word}
use custom_memory_allocator.Run.{World, done}
use custom_memory_allocator.Run.Ends.{Ends, ends, Ends-at}
use custom_memory_allocator.Pool.{Pool}
use custom_memory_allocator.Pool.Slots.{IsStock}
use custom_memory_allocator.Pool.Restock.{AreMapped}
use custom_memory_allocator.Pool.Batch.Chains.{IsBatch}
use custom_memory_allocator.Pool.Spared.{Spared, Spared-weaken}
use custom_memory_allocator.ThreadCache.{ThreadLocalCache, push_to_cache}
use custom_memory_allocator.ThreadCache.Shared.{IsShared, batch_of}
use custom_memory_allocator.ThreadCache.Free.{push-Pushed}
use custom_memory_allocator.Threads.{Phase, idle, thread, Shared, shared}
use custom_memory_allocator.Threads.Share.{IsPart, Holds, Acted, at_rest}

-- The cache and the world behind push_to_cache.
record InFront (w : World) (owner slot : ℕ) (pool : Pool) (free mine live others : List ℕ)
    (cache' : ThreadLocalCache) (w' : World) : Type 0 where
  is_stock : IsStock w'.mem pool free ((slot ∷ mine) ++ (live ++ others))
  is_batch : IsBatch w'.mem (batch_of cache') (slot ∷ mine)
  tags : All (λ y. read_word w'.mem y ≡ owner) live
  spared : Spared (live ++ others) pool w pool w'
  process : w'.process ≡ w.process

push_to_cache-InFront :
    (w : World) (owner slot : ℕ) (cache : ThreadLocalCache) (pool : Pool)
    (free mine before after others : List ℕ)
    → IsShared w owner cache pool free mine (before ++ slot ∷ after) others
    → Ends
        (InFront w owner slot pool free mine (before ++ after) others)
        (push_to_cache slot cache w)
push_to_cache-InFront w owner slot cache pool free mine before after others i =
    let q = push-Pushed w owner slot cache pool free mine before after others i in
    ends (record {
      is_stock = q.is_stock;
      is_batch = q.is_batch;
      tags = q.tags;
      spared = q.spared;
      process = refl;
    })

pub push-Acted :
    (owner : ℕ) (s : Shared) (cache cache' : ThreadLocalCache) (w' : World)
    (mine others before : List ℕ) (slot : ℕ) (after : List ℕ) (ph : Phase)
    → s.live ≡ before ++ slot ∷ after
    → IsPart owner s (thread cache idle) mine others
    → push_to_cache slot cache s.world ≡ done cache' w'
    → (IsBatch w'.mem (batch_of cache') (slot ∷ mine) → Holds w'.mem cache' ph (slot ∷ mine))
    → Acted owner s others (shared w' s.pool (before ++ after)) (thread cache' ph)
push-Acted owner s cache cache' w' mine others before slot after ph e i run h =
    let i' = subst (λ l. IsShared s.world owner cache s.pool i.free mine l others) e (at_rest i) in
    let q =
      Ends-at cache' w' run (
        push_to_cache-InFront s.world owner slot cache s.pool i.free mine before after others i') in
    record {
      mine = slot ∷ mine;
      is_part = record {
        free = i.free;
        is_stock = q.is_stock;
        are_mapped = subst (λ r. AreMapped r.mapped s.pool.arenas) (sym q.process) i.are_mapped;
        holds = h q.is_batch;
        tags = q.tags;
        unheld = q.spared.held ∙ i.unheld;
        small = i.small;
      };
      spared = Spared-weaken (λ y at. In-append_right (before ++ after) others y at) q.spared;
      live_same = λ y a _ at lo hi.
          q.spared.used_same y a (In-append_left (before ++ after) others y at) lo hi;
    }
