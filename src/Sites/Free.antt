-- ===== src/Sites/Free.antt =====
-- my_free of src/allocator.cpp on a whole allocator, with thread-local caches.
use custom_memory_allocator.Base.{
  ℕ, ◌+◌, ◌<◌, ◌^◌, ◌≡◌, inl, inr, sym, ap, ◌∙◌, subst, false, List, [], ◌∷◌, ◌++◌, In, In-split,
  set, arith, lt_cases,
}
use custom_memory_allocator.Run.{World, Mutex, holds}
use custom_memory_allocator.Run.Ends.{Ends, ends, Ends-continue, Ends-item_at}
use custom_memory_allocator.Os.{Platform}
use custom_memory_allocator.ThreadCache.{pool_address}
use custom_memory_allocator.ThreadCache.Shared.{IsShared}
use custom_memory_allocator.ThreadCache.Free.{free_cached-Freed}
use custom_memory_allocator.General.{General}
use custom_memory_allocator.General.Store.{in_use, blk}
use custom_memory_allocator.General.Heap.{Part, part, bag}
use custom_memory_allocator.General.Heap.Malloc.{bag-split}
use custom_memory_allocator.Allocator.{Allocator, Stage, my_free, free_large, my_free_pooled_stage3}
use custom_memory_allocator.Sites.{Book, Site, pool_site, heap_site, IsSound, Holds}
use custom_memory_allocator.Sites.Steps.{InHand, Shrunk, family_Shrunk}
use custom_memory_allocator.Sites.Family.{update}
use custom_memory_allocator.Sites.Pooled.{book, Freed-Shrunk}
use custom_memory_allocator.Sites.Route.{slot-SlotRoute, block-BlockRoute}
use custom_memory_allocator.Sites.Freed.{free_general-LargeFree}
use custom_memory_allocator.Sites.Whole.{IsPoolSite, IsWhole, Release, changed_pool, changed_heap}

module _ (p : Platform) (w : World) (a : Allocator) (f : ℕ → Site) (ptr n : ℕ)
    (whole : IsWhole p w a f) where
  released_pool :
      (i : ℕ) (b b' : Book) (w' : World)
      → i < 9
      → IsPoolSite a f i b
      → 0 < n
      → Holds (pool_site i b) ptr n
      → b'.pool.slot_payload_size ≡ b.pool.slot_payload_size
      → Shrunk p w (pool_site i b) (pool_site i b') w' ptr n
      → Release p w f ptr n
          (record a { pools = set a.pools i b'.pool; tls_caches = set a.tls_caches i b'.cache })
          w'
  released_pool i b b' w' lt at pos held same shrunk =
      let shrunk' = subst (λ s. Shrunk p w s (pool_site i b') w' ptr n) (sym at.0) shrunk in
      let held' = subst (λ s. Holds s ptr n) (sym at.0) held in
      let (kept, only, gone, back) =
        family_Shrunk p f i (pool_site i b') w w' (omega (arith, lt)) whole.sounds whole.aparts ptr
          n pos held' shrunk' in
      record {
        f' = update f i (pool_site i b');
        whole = changed_pool p w a f whole w' i b b' lt at same shrunk'.sound shrunk'.local;
        kept = kept;
        only = only;
        gone = gone;
        back = back;
      }

  pooled-Release :
      (i : ℕ) (b : Book) (s : ℕ)
      → i < 9
      → IsPoolSite a f i b
      → 0 < n
      → In s b.live
      → ptr ≡ s + 16
      → n ≡ b.pool.slot_payload_size
      → Ends (Release p w f ptr n) (my_free_pooled_stage3 p Stage.thread_cached a s i w)
  unfolding my_free_pooled_stage3
  pooled-Release i b s lt at pos live start size =
      let (e, at_pool, at_cache, _) = at in
      let sound : IsSound p w (pool_site i b) =
        subst (IsSound p w) e (whole.sounds i (omega (arith, lt))) in
      let total = sound.is_stock.total in
      let unheld : holds (Mutex.pool i) w.process.held ≡ false =
        ap (λ l. holds (Mutex.pool i) l) whole.unlocked in
      let (before, after, split) = In-split b.live s live in
      let shared =
        subst (λ l. IsShared w (pool_address p i) b.cache b.pool b.free b.cached l []) split
          sound in
      Ends-item_at a.tls_caches i b.cache _ w at_cache (
        Ends-item_at a.pools i b.pool _ w at_pool (
          Ends-continue
            (free_cached-Freed w (pool_address p i) i s b.cache b.pool b.free b.cached before after
              [] unheld shared)
            λ r w' got.
              let b' = book r.1 r.0 (got.moved ++ b.free) got.kept (before ++ after) in
              let behind = got.shared.is_stock.total in
              let same = got.spared.total_same in
              let shrunk = Freed-Shrunk p i b w before after s split sound r w' got in
              ends (
                released_pool i b b' w' lt at pos (s, live, start, size)
                  (omega (arith, total, behind, same))
                  (subst (λ k. Shrunk p w (pool_site i b) (pool_site i b') w' k n) (sym start)
                    (subst (λ k. Shrunk p w (pool_site i b) (pool_site i b') w' (s + 16) k)
                      (sym size) shrunk)))))

  released_heap :
      (g' : General) (w' : World) (parts' : List Part)
      → 0 < n
      → Holds (f 9) ptr n
      → g'.arena_size ≡ a.general.arena_size
      → Shrunk p w (f 9) (heap_site g' parts') w' ptr n
      → Release p w f ptr n (record a { general = g' }) w'
  released_heap g' w' parts' pos held same shrunk =
      let (kept, only, gone, back) =
        family_Shrunk p f 9 (heap_site g' parts') w w' (omega arith) whole.sounds whole.aparts ptr n
          pos held shrunk in
      record {
        f' = update f 9 (heap_site g' parts');
        whole = changed_heap p w a f whole w' g' parts' same shrunk.sound shrunk.local;
        kept = kept;
        only = only;
        gone = gone;
        back = back;
      }

  large-Release :
      (s : ℕ)
      → 0 < n
      → In (blk s n in_use) (bag whole.parts)
      → ptr ≡ s + 16
      → Ends (Release p w f ptr n) (free_large p Stage.thread_cached a ptr w)
  unfolding free_large
  large-Release s pos at start =
      let (before, arena, ps, qs, behind, split) = bag-split whole.parts (blk s n in_use) at in
      let site : f 9
          ≡ heap_site a.general (before ++ part arena (ps ++ blk s n in_use ∷ qs) ∷ behind) =
        whole.heap ∙ ap (heap_site a.general) split in
      let heap = subst (IsSound p w) site (whole.sounds 9 (omega arith)) in
      let held = subst (λ t. Holds t ptr n) (sym whole.heap) (s, at, start) in
      let unheld : holds Mutex.general w.process.held ≡ false =
        ap (holds Mutex.general) whole.unlocked in
      rw start (
        Ends-continue
          (free_general-LargeFree p w a.general before arena ps s n qs behind heap unheld)
          λ g' w' (parts', same, shrunk). ends (
            subst (λ k. Release p w f k n (record a { general = g' }) w') start
              (released_heap g' w' parts' pos held same (
                subst (λ k. Shrunk p w (f 9) (heap_site g' parts') w' k n) (sym start)
                  (subst (λ t. Shrunk p w t (heap_site g' parts') w' (s + 16) n) (sym site)
                    shrunk)))))

module _ (p : Platform) (w : World) (a : Allocator) (f : ℕ → Site) (ptr n : ℕ)
    (pos : 0 < p.pool_bytes) (low : pool_address p 8 < 2 ^ 64) (whole : IsWhole p w a f) where
  free_slot :
      (i : ℕ) (b : Book)
      → i < 9
      → IsPoolSite a f i b
      → Holds (pool_site i b) ptr n
      → Ends (Release p w f ptr n) (my_free p Stage.thread_cached a ptr w)
  unfolding my_free
  free_slot i b lt at (s, live, start, size) =
      let r = slot-SlotRoute p w a f ptr n i b s pos low whole lt at live start size in
      rw (r.nonnull, r.tag, r.known, r.index, r.header)
        (pooled-Release p w a f ptr n whole i b s lt at r.some_bytes live start size)

  free_block :
      n < p.pool_array
      → Holds (heap_site a.general whole.parts) ptr n
      → Ends (Release p w f ptr n) (my_free p Stage.thread_cached a ptr w)
  unfolding my_free
  free_block small (s, at, start) =
      let heap = subst (IsSound p w) whole.heap (whole.sounds 9 (omega arith)) in
      let r = block-BlockRoute p w a.general whole.parts ptr n s small heap at start in
      rw (r.nonnull, r.tag, r.unknown) (large-Release p w a f ptr n whole s r.some_bytes at start)

  -- my_free, on a whole allocator of which the thread holds no mutex, of a payload that is in hand and
  -- has fewer bytes than the address of the first pool, finds out whether a pool or the general path has
  -- handed it out, and takes it back there: if it was of a pool, its slot is cached or free there, and
  -- if not, its bytes lie in a block on the free list. The allocator is whole then, so that each
  -- slot of a pool is free, cached or in hand; the payload is not in hand any more, the others
  -- still are and hold the same bytes, and no payload is added.
  -- The array of pools ends below 2 ^ 64.
  pub my_free-Release :
      InHand f ptr n
      → n < p.pool_array
      → Ends (Release p w f ptr n) (my_free p Stage.thread_cached a ptr w)
  my_free-Release (i, lt, held) small = elim (lt_cases i 9) [
    | inl slot ↦
        let (b, at) = whole.pools i slot in
        free_slot i b slot at (subst (λ s. Holds s ptr n) at.0 held)
    | inr block ↦
        let last : i ≡ 9 = omega arith in
        let held' = subst (λ k. Holds (f k) ptr n) last held in
        free_block small (subst (λ s. Holds s ptr n) whole.heap held')
  ]
