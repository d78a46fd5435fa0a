-- ===== src/Threads/Detach.antt =====
-- flush_batch_to_pool before the lock: a chain leaves the cache.
use custom_memory_allocator.Base.{
  suc, All-left, All-right, head_or, last_or-snoc, length-append, Spaced, ◌==◌, if◌then◌else◌, inl,
  inr, ℕ, ◌+◌, ◌≤◌, ◌<◌, ◌^◌, ◌≡◌, refl, sym, ap, subst, ◌∙◌, null, List, [], ◌∷◌, ◌++◌, arith, All,
  In-append_left, In-append_right, length,
}
use custom_memory_allocator.Memory.{Memory, read_word, write_word}
use custom_memory_allocator.Run.{World, done}
use custom_memory_allocator.Run.Ends.{Ends, ends, Ends-at}
use custom_memory_allocator.Pool.{SlotBatch}
use custom_memory_allocator.Pool.Slots.{IsStock}
use custom_memory_allocator.Pool.Restock.{AreMapped}
use custom_memory_allocator.Pool.Batch.Chains.{IsBatch}
use custom_memory_allocator.Pool.Spared.{Spared, Spared-weaken}
use custom_memory_allocator.ThreadCache.{ThreadLocalCache}
use custom_memory_allocator.ThreadCache.Shared.{batch_of}
use mathlib.Core.List.{append_assoc}
use custom_memory_allocator.Memory.Access.{read_word-write_word}
use custom_memory_allocator.Pool.Slots.{Chain-write, tags-write}
use custom_memory_allocator.Pool.Spared.{header-Spared}
use custom_memory_allocator.Pool.Batch.Chains.{
  Chain-append, Chain-left, Chain-right, slot_near, retag-IsStock,
}
use custom_memory_allocator.ThreadCache.{detach_batch}
use custom_memory_allocator.ThreadCache.Pop.{next_tail, Chain-pos}
use custom_memory_allocator.ThreadCache.Detach.{detach-Detached}
use custom_memory_allocator.ThreadCache.Flush.{last_or-append}
use custom_memory_allocator.Threads.{over, splicing, thread, Shared, shared}
use custom_memory_allocator.Threads.Share.{IsPart, InHand, Acted}

pub record Split (s : Shared) (owner : ℕ) (free mine others : List ℕ)
    (r : ThreadLocalCache × SlotBatch) (w' : World) : Type 0 where
  pub is_stock : IsStock w'.mem s.pool free (mine ++ (s.live ++ others))
  pub in_hand : InHand w'.mem r.1 r.0 mine
  pub tags : All (λ y. read_word w'.mem y ≡ owner) s.live
  pub spared : Spared (s.live ++ others) s.pool s.world s.pool w'
  pub process : w'.process ≡ s.world.process

-- The chain up to `y` and the rest of the cache, once the link of `y` is cut.
cut-InHand :
    (m : Memory) (cache : ThreadLocalCache) (gap : ℕ) (ys : List ℕ) (y : ℕ) (rest : List ℕ)
    (count kept : ℕ)
    → 8 ≤ gap
    → IsBatch m (batch_of cache) (ys ++ y ∷ rest)
    → All (Spaced gap y) ys
    → All (Spaced gap y) rest
    → count ≡ length ys + 1
    → kept ≡ length rest
    → length rest ≤ 64
    → InHand
        (write_word m y 0)
        (record { head = cache.head; tail = y; count = count })
        (record {
          head = read_word m y;
          tail = if read_word m y == null then null else cache.tail;
          count = kept;
        })
        (ys ++ y ∷ rest)
cut-InHand m cache gap ys y rest count kept wide b near_ys near_rest counted left few =
    let (pos, low, link, tail_chain) = Chain-right m null ys (y ∷ rest) b.chain in
    record {
      front = ys ++ y ∷ [];
      back = rest;
      split = sym (append_assoc ys (y ∷ []) rest);
      hand = record {
        head = b.head ∙ head_kept ys;
        tail = sym (last_or-snoc null ys y);
        count = omega (arith, counted, length-append ys (y ∷ []));
        chain =
            Chain-append (write_word m y 0) null ys (y ∷ [])
              (Chain-write m y 0 gap wide y ys near_ys (Chain-left m null ys (y ∷ rest) b.chain))
              (pos, low, read_word-write_word m y 0 (omega arith), tt);
      };
      rest = record {
        head = link;
        tail =
            next_tail (read_word m y) cache.tail y rest link (Chain-pos m null rest tail_chain)
              (b.tail ∙ last_or-append null ys y rest);
        count = left;
        chain = Chain-write m y 0 gap wide null rest near_rest tail_chain;
      };
      some_front = omega (arith, length-append ys (y ∷ []));
      few = few;
    }
  where
    head_kept : (ys : List ℕ) → head_or null (ys ++ y ∷ rest) ≡ head_or null (ys ++ y ∷ [])
    head_kept [] = refl
    head_kept (x ∷ xs) = refl

pub detach_batch-Split :
    (owner : ℕ) (s : Shared) (cache : ThreadLocalCache) (free zs others : List ℕ)
    → IsStock s.world.mem s.pool free ((cache.head ∷ zs) ++ (s.live ++ others))
    → IsBatch s.world.mem (batch_of cache) (cache.head ∷ zs)
    → length zs ≡ 64
    → All (λ y. read_word s.world.mem y ≡ owner) s.live
    → Ends (Split s owner free (cache.head ∷ zs) others) (detach_batch cache s.world)
detach_batch-Split owner s cache free zs others i b long tags =
    let w = s.world in
    let used = s.live ++ others in
    let d = detach-Detached 31 1 w cache.head zs (omega arith) b.chain in
    let y = d.last in
    let size : suc (length zs) ≡ length d.before + suc (length d.rest) =
      ap length d.split ∙ length-append d.before (d.last ∷ d.rest) in
    let full : length d.before ≡ 31 = elim d.full [
      | inl h ↦ h
      | inr h ↦
          let none_left : length d.rest ≡ 0 = ap length h in
          absurd (omega (arith, size, d.at_most, none_left, long))
    ] in
    let back = sym d.split in
    let i' = subst (λ l. IsStock w.mem s.pool free (l ++ used)) d.split i in
    let b' = subst (IsBatch w.mem (batch_of cache)) d.split b in
    let i1 = subst (IsStock w.mem s.pool free) (append_assoc d.before (y ∷ d.rest) used) i' in
    let (_, placed, _, near_ys, near) =
      slot_near w.mem s.pool free d.before y (d.rest ++ used) i1 in
    let wide : 8 ≤ s.pool.slot_total_size = omega (arith, i.total) in
    let near_used = All-right (Spaced s.pool.slot_total_size y) d.rest used near in
    let m' = write_word w.mem y 0 in
    let hand =
      cut-InHand w.mem cache s.pool.slot_total_size d.before y d.rest (1 + length d.before) _ wide
        b' near_ys (All-left _ d.rest used near) (omega arith)
        (omega (arith, b.count, size, long, full)) (omega (arith, size, long)) in
    rw d.run (
      ends (record {
        is_stock =
            subst (λ l. IsStock m' s.pool free (l ++ used)) back
              (subst (IsStock m' s.pool free) (sym (append_assoc d.before (y ∷ d.rest) used))
                (retag-IsStock w.mem s.pool free d.before y (d.rest ++ used) 0 i1));
        in_hand = subst (InHand m' _ _) back hand;
        tags = tags-write w.mem y 0 _ wide owner s.live (All-left _ s.live others near_used) tags;
        spared = header-Spared used s.pool s.pool w y 0 wide placed near_used refl refl;
        process = refl;
      }))

cut_view :
    (owner : ℕ) (s : Shared) (cache cache' : ThreadLocalCache) (batch : SlotBatch) (w' : World)
    (free mine others : List ℕ)
    → AreMapped s.world.process.mapped s.pool.arenas
    → s.world.process.held ≡ []
    → s.pool.slot_total_size < 2 ^ 40
    → Split s owner free mine others (cache', batch) w'
    → Acted owner s others (shared w' s.pool s.live) (thread cache' (splicing batch))
cut_view owner s cache cache' batch w' free mine others ms unheld small q = record {
  mine = mine;
  is_part = record {
    free = free;
    is_stock = q.is_stock;
    are_mapped = subst (λ r. AreMapped r.mapped s.pool.arenas) (sym q.process) ms;
    holds = q.in_hand;
    tags = q.tags;
    unheld = q.spared.held ∙ unheld;
    small = small;
  };
  spared = Spared-weaken (λ y at. In-append_right s.live others y at) q.spared;
  live_same = λ y a at _ lo hi. q.spared.used_same y a (In-append_left s.live others y at) lo hi;
}

-- The first 32 slots of a cache of 65 leave it as a chain.
pub detach_batch-Acted :
    (owner : ℕ) (s : Shared) (cache cache' : ThreadLocalCache) (batch : SlotBatch) (w' : World)
    (mine others : List ℕ)
    → IsPart owner s (thread cache over) mine others
    → detach_batch cache s.world ≡ done (cache', batch) w'
    → Acted owner s others (shared w' s.pool s.live) (thread cache' (splicing batch))
detach_batch-Acted owner s cache cache' batch w' [] others i run = absurd (omega (arith, i.holds.1))
detach_batch-Acted owner s cache cache' batch w' (z ∷ zs) others i run =
    let at = sym i.holds.0.head in
    let stock =
      subst (λ y. IsStock s.world.mem s.pool i.free ((y ∷ zs) ++ (s.live ++ others))) at
        i.is_stock in
    let b = subst (λ y. IsBatch s.world.mem (batch_of cache) (y ∷ zs)) at i.holds.0 in
    cut_view owner s cache cache' batch w' i.free (cache.head ∷ zs) others i.are_mapped i.unheld
      i.small
      (Ends-at (cache', batch) w' run
        (detach_batch-Split owner s cache i.free zs others stock b (omega (arith, i.holds.1))
          i.tags))
