-- ===== src/Pool/Batch.antt =====
-- Pool::allocate_batch: a private chain of slots, taken off the pool in one go.
pub mod Chains
pub mod Join
use mathlib.Core.List.{append-nil, append_assoc}
use custom_memory_allocator.Base.{
  ℕ, zero, suc, ◌+◌, ◌≤◌, ◌<◌, ◌^◌, ◌≡◌, ◌⊎◌, refl, sym, ap, subst, ◌∙◌, inl, inr, Bool, true,
  false, null, List, [], ◌∷◌, ◌++◌, arith, All, All-left, All-right, All-append, length,
  length-append, In, In-All, In-append_left, In-append_right, head_or, last_or, last_or-snoc,
  snoc_cases, Spaced, AllSpaced, AllSpaced-drop, AllSpaced-right, if◌then◌else◌, ◌==◌, ==_of_eq,
  ==_of_ne, add64,
}
use custom_memory_allocator.Memory.{Memory, read_word, write_word}
use custom_memory_allocator.Memory.Access.{read_word-write_word}
use custom_memory_allocator.Run.{World, pure, ◌>>=◌}
use custom_memory_allocator.Run.Ends.{Ends, ends, Ends-continue, Ends-weaken}
use custom_memory_allocator.Os.{Platform}
use custom_memory_allocator.Os.Laws.{IsKernel}
use custom_memory_allocator.Pool.{
  Pool, SlotBatch, empty_batch, join_batch, move_slot, gather, allocate_batch,
}
use custom_memory_allocator.Pool.Slots.{IsStock, IsPlaced, Chain}
use custom_memory_allocator.Pool.Restock.{AreMapped, Starved}
use custom_memory_allocator.Pool.Spared.{
  Spared, Spared-refl, Spared-trans, Spared-weaken, header-Spared, Supplied, Ready, Ensured,
  ensure_slot-Ensured, pop-IsStock,
}
use custom_memory_allocator.Pool.Batch.Chains.{
  IsBatch, IsBatch-Spared, Chain-extend, Chain-Spared, retag-IsStock, slot_near,
}
use custom_memory_allocator.Pool.Batch.Join.{Moved, move_slot-Moved}

-- Where the slots `taken` and the free ones behind them come from: the free slots `free` in their
-- order and then those of new arenas, of which there are none as long as `free` has the `k` slots
-- that are asked for.
pub record Drawn (free taken rest : List ℕ) (k : ℕ) : Type 0 where
  pub added : List ℕ
  pub kept : taken ++ rest ≡ free ++ added
  pub needed : (added ≡ []) ⊎ (length free < k)

-- What the loop leaves, from a batch of `xs` with `k` rounds left: a batch of `xs` and of the first
-- slots of the pool, as many as asked for unless no slot is free and the system has no memory.
pub record Gathered (p : Platform) (w : World) (pool : Pool) (free used xs : List ℕ) (k : ℕ)
    (r : Pool × SlotBatch) (w' : World) : Type 0 where
  pub taken : List ℕ
  pub rest : List ℕ
  pub drawn : Drawn free taken rest k
  pub is_batch : IsBatch w'.mem r.1 (xs ++ taken)
  pub is_stock : IsStock w'.mem r.0 rest ((xs ++ taken) ++ used)
  pub are_mapped : AreMapped w'.process.mapped r.0.arenas
  pub spared : Spared used pool w r.0 w'
  pub at_most : length taken ≤ k
  pub enough : (length taken ≡ k) ⊎ ((rest ≡ []) × Starved p r.0 w')

-- The loop leaves all as it is.
Gathered-none :
    (p : Platform) (k : ℕ) (w : World) (pool : Pool) (free xs used : List ℕ) (batch : SlotBatch)
    → IsStock w.mem pool free (xs ++ used)
    → AreMapped w.process.mapped pool.arenas
    → IsBatch w.mem batch xs
    → (k ≡ 0) ⊎ ((free ≡ []) × Starved p pool w)
    → Gathered p w pool free used xs k (pool, batch) w
Gathered-none p k w pool free xs used batch i ms b last =
    let e = sym (append-nil xs) in
    record {
      taken = [];
      rest = free;
      drawn = record { added = []; kept = sym (append-nil free); needed = inl refl };
      is_batch = subst (IsBatch w.mem batch) e b;
      is_stock = subst (λ l. IsStock w.mem pool free (l ++ used)) e i;
      are_mapped = ms;
      spared = Spared-refl used pool w;
      at_most = omega arith;
      enough = elim last [ inl full ↦ inl (sym full) | inr dry ↦ inr dry ];
    }

-- One slot, and then the others.
Drawn-cons :
    (free others taken rest : List ℕ) (s k : ℕ)
    → Supplied free (s ∷ others)
    → Drawn others taken rest k
    → Drawn free (s ∷ taken) rest (suc k)
Drawn-cons free others taken rest s k (inl e) d = record {
  added = d.added;
  kept = ap (λ l. s ∷ l) d.kept ∙ ap (λ l. l ++ d.added) e;
  needed = elim d.needed [
    | inl none_added ↦ inl none_added
    | inr few ↦ inr (omega (arith, few, ap (λ (l : List ℕ). length l) e))
  ];
}
Drawn-cons free others taken rest s k (inr (none_free, _)) d = record {
  added = s ∷ (others ++ d.added);
  kept = ap (λ l. s ∷ l) d.kept ∙ ap (λ l. l ++ s ∷ (others ++ d.added)) (sym none_free);
  needed = inr (omega (arith, ap (λ (l : List ℕ). length l) none_free));
}

-- One round, when the rounds after it do as they should.
round :
    (p : Platform) (k : ℕ) (w : World) (pool : Pool) (free xs used : List ℕ) (batch : SlotBatch)
    → pool.slot_total_size < 2 ^ 40
    → length xs + suc k < 2 ^ 64
    → IsStock w.mem pool free (xs ++ used)
    → AreMapped w.process.mapped pool.arenas
    → IsBatch w.mem batch xs
    → ((w2 : World) (pool2 : Pool) (others ys : List ℕ) (batch2 : SlotBatch)
        → pool2.slot_total_size < 2 ^ 40
        → length ys + k < 2 ^ 64
        → IsStock w2.mem pool2 others (ys ++ used)
        → AreMapped w2.process.mapped pool2.arenas
        → IsBatch w2.mem batch2 ys
        → Ends (Gathered p w2 pool2 others used ys k) (gather p k pool2 batch2 w2))
    → (r : Bool × Pool) (w1 : World) → Ensured p w pool free (xs ++ used) r w1
    → Ends (Gathered p w pool free used xs (suc k)) (
        (if r.0 then (move_slot p r.1 batch >>= λ s. gather p k s.0 s.1) else pure (r.1, batch)) w1)
round p k w pool free xs used batch small few i ms b later (false, pool1) w1
      (dry, same_pool, same_world, starved) =
    subst (λ q. Ends (Gathered p w pool free used xs (suc k)) (pure (q, batch) w1)) (sym same_pool)
      (subst (λ v. Ends (Gathered p w pool free used xs (suc k)) (pure (pool, batch) v))
        (sym same_world)
        (ends (Gathered-none p (suc k) w pool free xs used batch i ms b (inr (dry, starved)))))
round p k w pool free xs used batch small few i ms b later (true, pool1) w1 e =
    Ends-continue
      (move_slot-Moved p w1 pool1 e.others xs used batch (omega arith) e.is_stock e.are_mapped (
        IsBatch-Spared (xs ++ used) pool pool1 w w1 batch xs (omega (arith, i.total)) e.spared
          (λ x at. In-append_left xs used x at) b))
      λ s w2 v.
        let n = length-append xs (pool1.free_head ∷ []) in
        let same = e.spared.total_same in
        let same' = v.spared.total_same in
        Ends-weaken
          (later w2 s.0 e.others (xs ++ pool1.free_head ∷ []) s.1 (omega arith) (omega arith)
            v.is_stock v.are_mapped v.is_batch)
          λ r' w3 g.
            let one = append_assoc xs (pool1.free_head ∷ []) g.taken in
            record {
              taken = pool1.free_head ∷ g.taken;
              rest = g.rest;
              drawn = Drawn-cons free e.others g.taken g.rest pool1.free_head k e.from g.drawn;
              is_batch = subst (IsBatch w3.mem r'.1) one g.is_batch;
              is_stock = subst (λ l. IsStock w3.mem r'.0 g.rest (l ++ used)) one g.is_stock;
              are_mapped = g.are_mapped;
              spared =
                  Spared-trans (λ y at. at)
                    (Spared-trans (λ y at. at)
                      (Spared-weaken (λ y at. In-append_right xs used y at) e.spared) v.spared)
                    g.spared;
              at_most = omega (arith, g.at_most);
              enough = elim g.enough [ inl full ↦ inl (omega arith) | inr dry ↦ inr dry ];
            }

module _ (p : Platform) (kernel : IsKernel p) where
  gather-Gathered :
      (k : ℕ) (w : World) (pool : Pool) (free xs used : List ℕ) (batch : SlotBatch)
      → pool.slot_total_size < 2 ^ 40
      → length xs + k < 2 ^ 64
      → IsStock w.mem pool free (xs ++ used)
      → AreMapped w.process.mapped pool.arenas
      → IsBatch w.mem batch xs
      → Ends (Gathered p w pool free used xs k) (gather p k pool batch w)
  unfolding gather
  gather-Gathered zero w pool free xs used batch small few i ms b =
      ends (Gathered-none p 0 w pool free xs used batch i ms b (inl refl))
  gather-Gathered (suc k) w pool free xs used batch small few i ms b =
      Ends-continue (ensure_slot-Ensured p w pool free (xs ++ used) kernel small i ms) (λ r w1 e.
        round p k w pool free xs used batch small few i ms b
          (λ w2 pool2 others ys batch2. gather-Gathered k w2 pool2 others ys used batch2) r w1 e)

-- allocate_batch hands out the chain of the pool's first slots, with its last slot and its length: of
-- the free ones in their order and, when these are fewer than `max_count`, of those of new arenas.
-- There are `max_count` of them, or no slot stays free and mmap refuses one more arena. The slots
-- behind them stay free in their order, so that each slot of the arenas is handed out, free or in use
-- as before; the slots in use keep every byte, and so do the mapped bytes outside the pool's arenas.
pub allocate_batch-Gathered :
    (p : Platform) (w : World) (pool : Pool) (free used : List ℕ) (max_count : ℕ)
    → IsKernel p
    → pool.slot_total_size < 2 ^ 40
    → max_count < 2 ^ 64
    → IsStock w.mem pool free used
    → AreMapped w.process.mapped pool.arenas
    → Ends (Gathered p w pool free used [] max_count) (allocate_batch p max_count pool w)
unfolding allocate_batch
allocate_batch-Gathered p w pool free used max_count kernel small few i ms =
    gather-Gathered p kernel max_count w pool free [] used empty_batch small (omega arith) i ms
      (record { head = refl; tail = refl; count = refl; chain = tt })
