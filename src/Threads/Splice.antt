-- ===== src/Threads/Splice.antt =====
-- flush_batch_to_pool under the lock: the chain in hand joins the pool's.
use custom_memory_allocator.Base.{
  true, All-left, All-right, head_or, last_or-snoc, snoc_cases, Spaced, ==_of_eq, ◌==◌, inl, inr, ℕ,
  ◌≤◌, ◌≡◌, refl, ap, subst, ◌∙◌, null, List, [], ◌∷◌, ◌++◌, arith, All, In-append_left,
  In-append_right, length,
}
use custom_memory_allocator.Memory.{read_word}
use custom_memory_allocator.Run.{World, done, Mutex, with_lock}
use custom_memory_allocator.Run.Ends.{Ends, ends, Ends-at}
use custom_memory_allocator.Pool.{Pool, SlotBatch}
use custom_memory_allocator.Pool.Slots.{IsStock}
use custom_memory_allocator.Pool.Restock.{AreMapped}
use custom_memory_allocator.Pool.Batch.Chains.{IsBatch}
use custom_memory_allocator.Pool.Spared.{Spared, Spared-weaken}
use custom_memory_allocator.ThreadCache.{ThreadLocalCache}
use custom_memory_allocator.ThreadCache.Shared.{IsShared, batch_of}
use mathlib.Core.List.{append_assoc}
use custom_memory_allocator.Pool.Slots.{Chain-write, tags-write}
use custom_memory_allocator.Pool.Spared.{header-Spared}
use custom_memory_allocator.Pool.Batch.Chains.{slot_near}
use custom_memory_allocator.Pool.{deallocate_batch}
use custom_memory_allocator.Threads.Take.{unheld_free}
use custom_memory_allocator.ThreadCache.Detach.{give_back-IsStock}
use custom_memory_allocator.Threads.{idle, splicing, thread, Shared, shared}
use custom_memory_allocator.Threads.Share.{IsPart, Acted, resting}

pub record Spliced (s : Shared) (owner : ℕ) (cache : ThreadLocalCache) (others : List ℕ)
    (pool' : Pool) (w' : World) : Type 0 where
  pub free : List ℕ
  pub back : List ℕ
  pub shares : IsShared w' owner cache pool' free back s.live others
  pub spared : Spared (s.live ++ others) s.pool s.world pool' w'

splice_last :
    (owner index : ℕ) (s : Shared) (cache : ThreadLocalCache) (batch : SlotBatch) (free ys : List ℕ)
    (y : ℕ) (back others : List ℕ)
    → s.world.process.held ≡ []
    → AreMapped s.world.process.mapped s.pool.arenas
    → IsStock s.world.mem s.pool free ((ys ++ y ∷ []) ++ (back ++ (s.live ++ others)))
    → IsBatch s.world.mem batch (ys ++ y ∷ [])
    → IsBatch s.world.mem (batch_of cache) back
    → length back ≤ 64
    → All (λ x. read_word s.world.mem x ≡ owner) s.live
    → Ends
        (Spliced s owner cache others)
        (with_lock (Mutex.pool index) (deallocate_batch s.pool batch.head batch.tail) s.world)
unfolding with_lock deallocate_batch
splice_last owner index s cache batch free ys y back others unheld ms i b c few tags =
    let w = s.world in
    let used = s.live ++ others in
    let open_lock = unheld_free (Mutex.pool index) w unheld in
    let own : (index == index) ≡ true = ==_of_eq index index refl in
    let at : batch.tail ≡ y = b.tail ∙ last_or-snoc null ys y in
    let head : batch.head ≡ head_or y ys = b.head ∙ head_of_snoc ys in
    let i1 = subst (IsStock w.mem s.pool free) (append_assoc ys (y ∷ []) (back ++ used)) i in
    let (_, placed, _, _, near) = slot_near w.mem s.pool free ys y (back ++ used) i1 in
    let wide : 8 ≤ s.pool.slot_total_size = omega (arith, i.total) in
    let near_used = All-right (Spaced s.pool.slot_total_size y) back used near in
    let v = s.pool.free_head in
    rw (open_lock, own, at)
      (ends (record {
        free = ys ++ y ∷ free;
        back = back;
        shares = record {
          is_stock =
              give_back-IsStock w.mem s.pool free ys y back used null batch.head i1 b.chain head;
          are_mapped = ms;
          is_batch = record {
            head = c.head;
            tail = c.tail;
            count = c.count;
            chain = Chain-write w.mem y v _ wide null back (All-left _ back used near) c.chain;
          };
          tags = tags-write w.mem y v _ wide owner s.live (All-left _ s.live others near_used) tags;
          few = few;
        };
        spared =
            header-Spared used s.pool (record (s.pool) { free_head = batch.head }) w y v wide placed
              near_used refl refl;
      }))
  where
    head_of_snoc : (ys : List ℕ) → head_or null (ys ++ y ∷ []) ≡ head_or y ys
    head_of_snoc [] = refl
    head_of_snoc (x ∷ xs) = refl

pub splice-Spliced :
    (owner index : ℕ) (s : Shared) (cache : ThreadLocalCache) (batch : SlotBatch)
    (mine others : List ℕ)
    → IsPart owner s (thread cache (splicing batch)) mine others
    → Ends
        (Spliced s owner cache others)
        (with_lock (Mutex.pool index) (deallocate_batch s.pool batch.head batch.tail) s.world)
splice-Spliced owner index s cache batch mine others i =
    let h = i.holds in
    let used = s.live ++ others in
    let stock =
      subst (IsStock s.world.mem s.pool i.free) (append_assoc h.front h.back used)
        (subst (λ l. IsStock s.world.mem s.pool i.free (l ++ used)) h.split i.is_stock) in
    elim (snoc_cases h.front) [
      | inl e ↦
          let none_left : length h.front ≡ 0 = ap length e in
          absurd (omega (arith, none_left, h.some_front))
      | inr (ys, y, e) ↦
          let stock' =
            subst (λ l. IsStock s.world.mem s.pool i.free (l ++ (h.back ++ used))) e stock in
          let b = subst (IsBatch s.world.mem batch) e h.hand in
          splice_last owner index s cache batch i.free ys y h.back others i.unheld i.are_mapped
            stock' b h.rest h.few i.tags
    ]

-- The chain in hand joins the pool's.
pub splice-Acted :
    (owner index : ℕ) (s : Shared) (cache : ThreadLocalCache) (batch : SlotBatch) (pool' : Pool)
    (w' : World) (mine others : List ℕ)
    → IsPart owner s (thread cache (splicing batch)) mine others
    → with_lock (Mutex.pool index) (deallocate_batch s.pool batch.head batch.tail) s.world
      ≡ done pool' w'
    → Acted owner s others (shared w' pool' s.live) (thread cache idle)
splice-Acted owner index s cache batch pool' w' mine others i run =
    let q = Ends-at pool' w' run (splice-Spliced owner index s cache batch mine others i) in
    record {
      mine = q.back;
      is_part =
          resting owner (shared w' pool' s.live) cache q.free q.back others q.shares
            (q.spared.held ∙ i.unheld) (omega (arith, i.small, q.spared.total_same));
      spared = Spared-weaken (λ y at. In-append_right s.live others y at) q.spared;
      live_same =
          λ y a at _ lo hi. q.spared.used_same y a (In-append_left s.live others y at) lo hi;
    }
