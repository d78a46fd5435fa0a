-- ===== src/Sites/Malloc.antt =====
-- my_malloc of src/allocator.cpp on a whole allocator, with thread-local caches.
use native.Mathlib.Nat.{mul-le-mul_right}
use custom_memory_allocator.Base.{
  ℕ, ◌+◌, ◌*◌, ◌≤◌, ◌<◌, ◌^◌, ◌≡◌, ◌≢◌, ◌⊎◌, inl, inr, sym, ap, ◌∙◌, subst, false, null, List, [],
  ◌∷◌, some, In, In-All, set, ==_of_eq, ==_of_ne, arith,
}
use custom_memory_allocator.Run.{World, Mutex, holds}
use custom_memory_allocator.Run.Ends.{Ends, ends, Ends-continue, Ends-item_at}
use custom_memory_allocator.Os.{Platform}
use custom_memory_allocator.Os.Laws.{IsKernel, Denied}
use custom_memory_allocator.SizeClass.{
  size_classes, no_size_class, size_class_for, pool_index_for_size_class,
}
use custom_memory_allocator.SizeClass.Least.{size_class_for-IsVerdict, get_elem?-pool_index}
use custom_memory_allocator.General.{General}
use custom_memory_allocator.General.Heap.{Part}
use custom_memory_allocator.ThreadCache.{pool_address}
use custom_memory_allocator.ThreadCache.Malloc.{malloc_cached-MallocCached}
use custom_memory_allocator.Allocator.{
  Allocator, Stage, my_malloc, malloc_large, my_malloc_pooled_stage3,
}
use custom_memory_allocator.Sites.{Book, Site, pool_site, heap_site, IsSound}
use custom_memory_allocator.Sites.Steps.{Unmoved, Grown, family_Unmoved, family_Grown}
use custom_memory_allocator.Sites.Family.{update}
use custom_memory_allocator.Sites.Pooled.{book, Handed-Grown, Dry-Unmoved}
use custom_memory_allocator.Sites.Blocks.{malloc_general-LargeMalloc}
use custom_memory_allocator.Sites.Whole.{
  IsPoolSite, IsWhole, Refusal, Grant, changed_pool, changed_heap,
}

abbrev pub Answer : Platform → World → (ℕ → Site) → ℕ → ℕ × Allocator → World → Type 0
Answer p w f size out w' = Refusal p w f size out w' ⊎ Grant p w f size out w'

module _ (p : Platform) (w : World) (a : Allocator) (f : ℕ → Site) (size : ℕ)
    (whole : IsWhole p w a f) where
  -- A pool that hands out a payload.
  granted_pool :
      (i : ℕ) (b b' : Book) (w' : World) (ptr : ℕ)
      → i < 9
      → IsPoolSite a f i b
      → size ≤ b.pool.slot_payload_size
      → b.pool.slot_payload_size ≤ 4096
      → b'.pool.slot_payload_size ≡ b.pool.slot_payload_size
      → Grown p w (pool_site i b) (pool_site i b') w' ptr b.pool.slot_payload_size
      → Grant p w f size
          (
            ptr,
            record a { pools = set a.pools i b'.pool; tls_caches = set a.tls_caches i b'.cache },
          )
          w'
  granted_pool i b b' w' ptr lt at room small same grown =
      let n = b.pool.slot_payload_size in
      let grown' = subst (λ s. Grown p w s (pool_site i b') w' ptr n) (sym at.0) grown in
      let (new, kept, only) =
        family_Grown p f i (pool_site i b') w w' (omega (arith, lt)) whole.sounds whole.aparts ptr n
          grown' in
      record {
        f' = update f i (pool_site i b');
        n = n;
        room = room;
        snug = omega (arith, small);
        whole = changed_pool p w a f whole w' i b b' lt at same grown'.sound grown'.local;
        new = new;
        kept = kept;
        only = only;
      }

  refused_pool :
      (i : ℕ) (b b' : Book) (w' : World) (ptr : ℕ)
      → i < 9
      → IsPoolSite a f i b
      → ptr ≡ null
      → Denied p w' size
      → b'.pool.slot_payload_size ≡ b.pool.slot_payload_size
      → Unmoved p w (pool_site i b) (pool_site i b') w'
      → Refusal p w f size
          (
            ptr,
            record a { pools = set a.pools i b'.pool; tls_caches = set a.tls_caches i b'.cache },
          )
          w'
  refused_pool i b b' w' ptr lt at none_left denied same unmoved =
      let unmoved' = subst (λ s. Unmoved p w s (pool_site i b') w') (sym at.0) unmoved in
      let (kept, only) =
        family_Unmoved p f i (pool_site i b') w w' (omega (arith, lt)) whole.sounds whole.aparts
          unmoved' in
      record {
        f' = update f i (pool_site i b');
        pointer = none_left;
        denied = denied;
        whole = changed_pool p w a f whole w' i b b' lt at same unmoved'.sound unmoved'.local;
        kept = kept;
        only = only;
      }

  pooled-Answer :
      (i : ℕ) (b : Book)
      → IsKernel p
      → pool_address p i < 2 ^ 64
      → i < 9
      → IsPoolSite a f i b
      → size ≤ b.pool.slot_payload_size
      → b.pool.slot_payload_size ≤ 4096
      → Ends (Answer p w f size) (my_malloc_pooled_stage3 p Stage.thread_cached a i w)
  unfolding my_malloc_pooled_stage3
  pooled-Answer i b kernel low lt at room small =
      let (e, at_pool, at_cache, _) = at in
      let sound : IsSound p w (pool_site i b) =
        subst (IsSound p w) e (whole.sounds i (omega (arith, lt))) in
      let total = sound.is_stock.total in
      let unheld : holds (Mutex.pool i) w.process.held ≡ false =
        ap (λ l. holds (Mutex.pool i) l) whole.unlocked in
      Ends-item_at a.tls_caches i b.cache _ w at_cache (
        Ends-item_at a.pools i b.pool _ w at_pool (
          Ends-continue
            (malloc_cached-MallocCached p w i b.cache b.pool b.free b.cached b.live [] kernel low
              (omega (arith, total, small)) unheld sound)
            λ r w' got. ends (elim got [
              | inr dry ↦
                  let after = dry.shared.is_stock.total in
                  let same = dry.spared.total_same in
                  inl (
                    refused_pool i b (book r.2 r.1 [] [] b.live) w' r.0 lt at dry.payload
                      (
                        r.2.slot_total_size * 256,
                        omega (arith, room, total, after, same),
                        dry.starved,
                      )
                      (omega (arith, total, after, same)) (Dry-Unmoved p i b w sound r w' dry))
              | inl h ↦
                  let after = h.shared.is_stock.total in
                  let same = h.spared.total_same in
                  inr (
                    granted_pool i b (book r.2 r.1 h.free h.cached (h.slot ∷ b.live)) w' r.0 lt at
                      room small (omega (arith, total, after, same))
                      (Handed-Grown p i b w sound r w' h))
            ])))

  granted_heap :
      (out : ℕ × General) (w' : World) (parts' : List Part) (n : ℕ)
      → size ≤ n
      → n ≤ size + 4096
      → out.1.arena_size ≡ a.general.arena_size
      → Grown p w (heap_site a.general whole.parts) (heap_site out.1 parts') w' out.0 n
      → Grant p w f size (out.0, record a { general = out.1 }) w'
  granted_heap out w' parts' n room snug same grown =
      let grown' =
        subst (λ s. Grown p w s (heap_site out.1 parts') w' out.0 n) (sym whole.heap) grown in
      let (new, kept, only) =
        family_Grown p f 9 (heap_site out.1 parts') w w' (omega arith) whole.sounds whole.aparts
          out.0 n grown' in
      record {
        f' = update f 9 (heap_site out.1 parts');
        n = n;
        room = room;
        snug = snug;
        whole = changed_heap p w a f whole w' out.1 parts' same grown'.sound grown'.local;
        new = new;
        kept = kept;
        only = only;
      }

  refused_heap :
      (out : ℕ × General) (w' : World)
      → out.0 ≡ null
      → out.1 ≡ a.general
      → w' ≡ w
      → Denied p w size
      → Refusal p w f size (out.0, record a { general = out.1 }) w'
  refused_heap out w' none_left same_general same_world denied = record {
    f' = f;
    pointer = none_left;
    denied = subst (λ u. Denied p u size) (sym same_world) denied;
    whole =
        subst (λ u. IsWhole p u (record a { general = out.1 }) f) (sym same_world)
          (subst (λ g. IsWhole p w (record a { general = g }) f) (sym same_general) whole);
    kept = λ q m h. (h, λ x lo hi. ap (λ u. u.mem x) same_world);
    only = λ q m h. h;
  }

  large-Answer :
      IsKernel p
      → 0 < size
      → size ≤ 2 ^ 62
      → Ends (Answer p w f size) (malloc_large p Stage.thread_cached a size w)
  unfolding malloc_large
  large-Answer kernel pos small =
      let heap = subst (IsSound p w) whole.heap (whole.sounds 9 (omega arith)) in
      let unheld : holds Mutex.general w.process.held ≡ false =
        ap (holds Mutex.general) whole.unlocked in
      Ends-continue
        (malloc_general-LargeMalloc p w a.general whole.parts heap size kernel pos small
          whole.arena_size unheld)
        λ out w' got. ends (elim got [
          | inl (none_left, same_general, same_world, denied) ↦
              inl (refused_heap out w' none_left same_general same_world denied)
          | inr (parts', n, room, snug, same, grown) ↦
              inr (granted_heap out w' parts' n room snug same grown)
        ])

class_small :
    (c : ℕ)
    → In c size_classes
    → (c ≤ 4096) × (pool_index_for_size_class c < 9) × (c ≢ no_size_class)
unfolding pool_index_for_size_class
class_small c i =
    In-All (λ d. (d ≤ 4096) × (pool_index_for_size_class d < 9) × (d ≢ no_size_class)) size_classes
      c i (ground arith)

pub my_malloc-Answer :
    (p : Platform) (w : World) (a : Allocator) (f : ℕ → Site) (size : ℕ)
    → IsKernel p
    → pool_address p 8 < 2 ^ 64
    → IsWhole p w a f
    → 0 < size
    → size ≤ 2 ^ 62
    → Ends (Answer p w f size) (my_malloc p Stage.thread_cached a size w)
unfolding my_malloc
my_malloc-Answer p w a f size kernel low whole pos small = elim (size_class_for-IsVerdict size) [
  | inr (none_fits, _) ↦
      let large = ==_of_eq (size_class_for size) no_size_class none_fits in
      rw large (large-Answer p w a f size whole kernel pos small)
  | inl (at, room, _) ↦
      let class = size_class_for size in
      let (modest, lt, ne) = class_small class at in
      let pooled = ==_of_ne class no_size_class ne in
      let i = pool_index_for_size_class class in
      let (b, site) = whole.pools i lt in
      let (_, _, _, in_class) = site in
      let same : some class ≡ some b.pool.slot_payload_size =
        sym (get_elem?-pool_index class at) ∙ in_class in
      let size_of : class ≡ b.pool.slot_payload_size = cc in
      rw pooled (
        pooled-Answer p w a f size whole i b kernel (below i lt) lt site
          (omega (arith, room, size_of)) (omega (arith, modest, size_of)))
]
  where
    below : (i : ℕ) → i < 9 → pool_address p i < 2 ^ 64
    below i lt =
        let le : i * p.pool_bytes ≤ 8 * p.pool_bytes =
          mul-le-mul_right p.pool_bytes (omega arith) in
        omega (arith, low, le)
