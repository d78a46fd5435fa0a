-- ===== src/Sites/Realloc.antt =====
-- my_realloc of src/allocator.cpp on a whole allocator, with thread-local caches.
use custom_memory_allocator.Base.{
  ℕ, ◌+◌, ◌≤◌, ◌<◌, ◌^◌, ◌≡◌, ◌⊎◌, inl, inr, refl, sym, ap, ◌∙◌, subst, true, false, List, ◌∷◌,
  ◌++◌, In, leb, ltb_of_lt, ltb_of_le, lt_cases, arith,
}
use custom_memory_allocator.Run.{World, Mutex, holds, with_lock}
use custom_memory_allocator.Run.Ends.{Ends, ends, Ends-continue, Ends-item_at}
use custom_memory_allocator.Os.{Platform}
use custom_memory_allocator.Os.Laws.{IsKernel}
use custom_memory_allocator.ThreadCache.{pool_address}
use custom_memory_allocator.General.{General}
use custom_memory_allocator.General.Blocks.{must_move, realloc_general}
use custom_memory_allocator.General.Store.{in_use, blk}
use custom_memory_allocator.General.Heap.{Part, part, bag}
use custom_memory_allocator.General.Heap.Malloc.{bag-split}
use custom_memory_allocator.Allocator.{
  Allocator, Stage, my_realloc, realloc_pooled, realloc_large, finish_realloc,
}
use custom_memory_allocator.Sites.{Book, Site, heap_site, IsSound, Holds}
use custom_memory_allocator.Sites.Family.{update}
use custom_memory_allocator.Sites.Steps.{InHand, Regrown, family_Regrown}
use custom_memory_allocator.Sites.Whole.{IsPoolSite, IsWhole, Refusal, changed_heap}
use custom_memory_allocator.Sites.Regrown.{LargeRealloc, realloc_general-LargeRealloc}
use custom_memory_allocator.Sites.Route.{slot-SlotRoute, block-BlockRoute}
use custom_memory_allocator.Sites.Move.{Resized, move_to_new-Resized}

module _ (p : Platform) (w : World) (a : Allocator) (f : ℕ → Site) (ptr n new_size : ℕ)
    (kernel : IsKernel p) (pos : 0 < p.pool_bytes) (low : pool_address p 8 < 2 ^ 64)
    (whole : IsWhole p w a f) (in_hand : InHand f ptr n) (small : n < p.pool_array)
    (some_size : 0 < new_size) (modest : new_size ≤ 2 ^ 62) where
  abbrev pub Reply : ℕ × Allocator → World → Type 0
  Reply out w' = Refusal p w f new_size out w' ⊎ Resized p w f ptr n new_size out w'

  -- A slot with room stays as it is.
  slot_stays : new_size ≤ n → Resized p w f ptr n new_size (ptr, a) w
  slot_stays room = record {
    f' = f;
    n' = n;
    room = room;
    snug = inl refl;
    whole = whole;
    new = in_hand;
    bytes = λ k lt lt'. refl;
    kept = λ q m h. inr (h, λ x lo hi. refl);
    only = λ q m h. inr h;
  }

  pooled-Reply :
      (i : ℕ) (b : Book)
      → IsPoolSite a f i b
      → n ≡ b.pool.slot_payload_size
      → 0 < n
      → Ends Reply (realloc_pooled p Stage.thread_cached a ptr i new_size w)
  unfolding realloc_pooled
  pooled-Reply i b (_, at_pool, _, _) size some_bytes =
      Ends-item_at a.pools i b.pool _ w at_pool (elim (lt_cases b.pool.slot_payload_size new_size) [
        | inr room ↦
            let fits : leb new_size b.pool.slot_payload_size ≡ true = ground (arith, room) in
            rw fits (ends (inr (slot_stays (omega (arith, room, size)))))
        | inl less ↦
            let no : leb new_size b.pool.slot_payload_size ≡ false = ground (arith, less) in
            rw no (
              move_to_new-Resized p w a f ptr n new_size b.pool.slot_payload_size kernel pos low
                whole in_hand some_bytes small some_size modest (omega (arith, less))
                (λ k lt lt'. omega (arith, lt, size)))
      ])

  -- A block that stays in place.
  block_stays :
      (parts' : List Part) (g : General) (w' : World) (size : ℕ)
      → new_size ≤ size
      → (size ≡ n) ⊎ (size ≤ new_size + 4096)
      → g.arena_size ≡ a.general.arena_size
      → Regrown p w (f 9) (heap_site g parts') w' ptr n size
      → Resized p w f ptr n new_size (ptr, record a { general = g }) w'
  block_stays parts' g w' size room snug same step =
      let (new, kept, only) =
        family_Regrown p f 9 (heap_site g parts') w w' (omega arith) whole.sounds whole.aparts ptr n
          size step in
      record {
        f' = update f 9 (heap_site g parts');
        n' = size;
        room = room;
        snug = snug;
        whole = changed_heap p w a f whole w' g parts' same step.sound step.local;
        new = new;
        bytes = λ k lt lt'. (kept ptr n in_hand).0 (ptr + k) (omega arith) (omega (arith, lt));
        kept = λ q m h.
            let (bytes, where_now) = kept q m h in
            elim where_now [ inl e ↦ inl e | inr still ↦ inr (still, bytes) ];
        only = only;
      }

  -- The fall-back copies the smaller one of the two sizes.
  block_moves :
      0 < n → Ends Reply (finish_realloc p Stage.thread_cached a ptr new_size (must_move n) w)
  unfolding finish_realloc
  block_moves some_bytes = elim (lt_cases n new_size) [
    | inl less ↦
        let e = ltb_of_lt n new_size less in
        rw e (
          move_to_new-Resized p w a f ptr n new_size n kernel pos low whole in_hand some_bytes small
            some_size modest (omega (arith, less)) (λ k lt lt'. lt))
    | inr more ↦
        let e = ltb_of_le n new_size more in
        rw e (
          move_to_new-Resized p w a f ptr n new_size new_size kernel pos low whole in_hand
            some_bytes small some_size modest (omega arith) (λ k lt lt'. lt'))
  ]

  large-Reply :
      (s : ℕ)
      → 0 < n
      → In (blk s n in_use) (bag whole.parts)
      → ptr ≡ s + 16
      → Ends Reply (realloc_large p Stage.thread_cached a ptr new_size w)
  unfolding realloc_large finish_realloc
  large-Reply s some_bytes at start =
      let (before, arena, ps, qs, behind, split) = bag-split whole.parts (blk s n in_use) at in
      let old = before ++ part arena (ps ++ blk s n in_use ∷ qs) ∷ behind in
      let site : f 9 ≡ heap_site a.general old = whole.heap ∙ ap (heap_site a.general) split in
      let heap = subst (IsSound p w) site (whole.sounds 9 (omega arith)) in
      let unheld : holds Mutex.general w.process.held ≡ false =
        ap (holds Mutex.general) whole.unlocked in
      Ends-continue
        (subst
          (λ k.
            Ends (LargeRealloc p w a.general before arena ps s n qs behind heap new_size)
              (with_lock Mutex.general (realloc_general a.general k new_size) w))
          (sym start)
          (realloc_general-LargeRealloc p w a.general before arena ps s n qs behind heap new_size
            modest unheld))
        λ r w' got. elim got [
          | inl (parts', size, verdict, room, snug, same, step) ↦ rw verdict (
              ends (
                inr (
                  block_stays parts' r.1 w' size room snug same (
                    subst (λ k. Regrown p w (f 9) (heap_site r.1 parts') w' k n size) (sym start)
                      (subst (λ t. Regrown p w t (heap_site r.1 parts') w' (s + 16) n size)
                        (sym site) step)))))
          | inr (verdict, same_general, same_world) ↦
              rw (verdict, same_general, same_world) (block_moves some_bytes)
        ]

  pub my_realloc-Reply : Ends Reply (my_realloc p Stage.thread_cached a ptr new_size w)
  unfolding my_realloc
  my_realloc-Reply = elim (lt_cases in_hand.0 9) [
    | inl slot ↦
        let (b, at) = whole.pools in_hand.0 slot in
        let (s, live, start, size) = subst (λ t. Holds t ptr n) at.0 in_hand.2 in
        let r = slot-SlotRoute p w a f ptr n in_hand.0 b s pos low whole slot at live start size in
        rw (r.nonnull, r.tag, r.known, r.index) (pooled-Reply in_hand.0 b at size r.some_bytes)
    | inr block ↦
        let last : in_hand.0 ≡ 9 = let lt = in_hand.1 in omega (arith, block, lt) in
        let held' = subst (λ k. Holds (f k) ptr n) last in_hand.2 in
        let (s, at, start) = subst (λ t. Holds t ptr n) whole.heap held' in
        let heap = subst (IsSound p w) whole.heap (whole.sounds 9 (omega arith)) in
        let r = block-BlockRoute p w a.general whole.parts ptr n s small heap at start in
        rw (r.nonnull, r.tag, r.unknown) (large-Reply s r.some_bytes at start)
  ]
