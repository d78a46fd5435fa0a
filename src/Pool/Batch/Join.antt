-- ===== src/Pool/Batch/Join.antt =====
-- One round of allocate_batch: a slot moves from the pool to the end of the batch.
use mathlib.Core.List.{append_assoc}
use custom_memory_allocator.Base.{
  ℕ, ◌+◌, ◌≤◌, ◌<◌, ◌^◌, ◌≡◌, refl, sym, subst, ◌∙◌, inl, inr, true, false, null, List, [], ◌∷◌,
  ◌++◌, arith, All-right, length, length-append, In-append_left, head_or, last_or-snoc, snoc_cases,
  Spaced, ◌==◌, ==_of_eq, ==_of_ne, add64,
}
use custom_memory_allocator.Memory.{read_word, write_word}
use custom_memory_allocator.Memory.Access.{read_word-write_word}
use custom_memory_allocator.Run.{World}
use custom_memory_allocator.Run.Ends.{Ends, ends, Ends-continue}
use custom_memory_allocator.Os.{Platform}
use custom_memory_allocator.Pool.{Pool, SlotBatch, join_batch, move_slot}
use custom_memory_allocator.Pool.Slots.{IsStock}
use custom_memory_allocator.Pool.Restock.{AreMapped}
use custom_memory_allocator.Pool.Spared.{
  Spared, Spared-refl, Spared-trans, header-Spared, pop-IsStock,
}
use custom_memory_allocator.Pool.Batch.Chains.{
  IsBatch, IsBatch-Spared, Chain-extend, retag-IsStock, slot_near,
}

record Joined (w : World) (pool : Pool) (free xs used : List ℕ) (s : ℕ) (batch : SlotBatch)
    (w' : World) : Type 0 where
  is_batch : IsBatch w'.mem batch (xs ++ s ∷ [])
  is_stock : IsStock w'.mem pool free (xs ++ s ∷ used)
  spared : Spared used pool w pool w'
  process : w'.process ≡ w.process

module _ (p : Platform) (w : World) (pool : Pool) (free used : List ℕ) (s : ℕ)
    (batch : SlotBatch) where
  join_first :
      IsStock w.mem pool free (s ∷ used)
      → IsBatch w.mem batch []
      → 0 < s
      → s < 2 ^ 64
      → read_word w.mem s ≡ 0
      → Ends (Joined w pool free [] used s) (join_batch p batch s w)
  unfolding join_batch
  join_first i b pos low link =
      let empty : (batch.tail == 0) ≡ true = ==_of_eq batch.tail 0 b.tail in
      rw empty (
        ends (record {
          is_batch = record {
            head = refl;
            tail = refl;
            count = omega (arith, b.count);
            chain = (pos, low, link, tt);
          };
          is_stock = i;
          spared = Spared-refl used pool w;
          process = refl;
        }))

  join_later :
      (zs : List ℕ) (z : ℕ)
      → IsStock w.mem pool free ((zs ++ z ∷ []) ++ s ∷ used)
      → IsBatch w.mem batch (zs ++ z ∷ [])
      → 0 < s
      → s < 2 ^ 64
      → length (zs ++ z ∷ []) + 1 < 2 ^ 64
      → read_word w.mem s ≡ 0
      → Ends (Joined w pool free (zs ++ z ∷ []) used s) (join_batch p batch s w)
  unfolding join_batch
  join_later zs z i b pos low few link =
      let e : batch.tail ≡ z = b.tail ∙ last_or-snoc null zs z in
      let e1 = append_assoc zs (z ∷ []) (s ∷ used) in
      let i1 = subst (IsStock w.mem pool free) e1 i in
      let (z_pos, z_placed, z_free, z_before, z_after) =
        slot_near w.mem pool free zs z (s ∷ used) i1 in
      let wide : 8 ≤ pool.slot_total_size = omega (arith, i.total) in
      let nonnull : (batch.tail == 0) ≡ false = ==_of_ne batch.tail 0 (omega arith) in
      let w1 : World = record { mem = write_word w.mem z s; process = w.process } in
      let chain = Chain-extend w.mem s z _ wide zs low pos z_before z_after.0 link b.chain in
      let count = length-append (zs ++ z ∷ []) (s ∷ []) in
      let few' : add64 batch.count 1 ≡ length ((zs ++ z ∷ []) ++ s ∷ []) =
        omega (arith, b.count, count) in
      rw (nonnull, e)
        (ends (record {
          is_batch = record {
            head = b.head ∙ head_kept zs z;
            tail = sym (last_or-snoc null (zs ++ z ∷ []) s);
            count = few';
            chain = chain;
          };
          is_stock =
              subst (IsStock w1.mem pool free) (sym e1)
                (retag-IsStock w.mem pool free zs z (s ∷ used) s i1);
          spared = header-Spared used pool pool w z s wide z_placed z_after.1 refl refl;
          process = refl;
        }))
    where
      head_kept :
          (zs : List ℕ) (z : ℕ)
          → head_or null (zs ++ z ∷ []) ≡ head_or null ((zs ++ z ∷ []) ++ s ∷ [])
      head_kept [] z = refl
      head_kept (y ∷ ys) z = refl

join_batch-Joined :
    (p : Platform) (w : World) (pool : Pool) (free xs used : List ℕ) (s : ℕ) (batch : SlotBatch)
    → IsStock w.mem pool free (xs ++ s ∷ used)
    → IsBatch w.mem batch xs
    → 0 < s
    → s < 2 ^ 64
    → length xs + 1 < 2 ^ 64
    → read_word w.mem s ≡ 0
    → Ends (Joined w pool free xs used s) (join_batch p batch s w)
join_batch-Joined p w pool free xs used s batch i b pos low few link = elim (snoc_cases xs) [
  | inl e ↦
      let i' = subst (λ ys. IsStock w.mem pool free (ys ++ s ∷ used)) e i in
      let b' = subst (IsBatch w.mem batch) e b in
      subst (λ ys. Ends (Joined w pool free ys used s) (join_batch p batch s w)) (sym e)
        (join_first p w pool free used s batch i' b' pos low link)
  | inr (zs, z, e) ↦
      let i' = subst (λ ys. IsStock w.mem pool free (ys ++ s ∷ used)) e i in
      let b' = subst (IsBatch w.mem batch) e b in
      let few' = subst (λ ys. length ys + 1 < 2 ^ 64) e few in
      subst (λ ys. Ends (Joined w pool free ys used s) (join_batch p batch s w)) (sym e)
        (join_later p w pool free used s batch zs z i' b' pos low few' link)
]

-- One more slot in the batch.
pub record Moved (w : World) (pool : Pool) (others xs used : List ℕ) (s : ℕ) (r : Pool × SlotBatch)
    (w' : World) : Type 0 where
  pub is_batch : IsBatch w'.mem r.1 (xs ++ s ∷ [])
  pub is_stock : IsStock w'.mem r.0 others ((xs ++ s ∷ []) ++ used)
  pub are_mapped : AreMapped w'.process.mapped r.0.arenas
  pub spared : Spared used pool w r.0 w'

pub move_slot-Moved :
    (p : Platform) (w : World) (pool : Pool) (others xs used : List ℕ) (batch : SlotBatch)
    → length xs + 1 < 2 ^ 64
    → IsStock w.mem pool (pool.free_head ∷ others) (xs ++ used)
    → AreMapped w.process.mapped pool.arenas
    → IsBatch w.mem batch xs
    → Ends (Moved w pool others xs used pool.free_head) (move_slot p pool batch w)
unfolding move_slot
move_slot-Moved p w pool others xs used batch few i ms b =
    let s = pool.free_head in
    let wide : 8 ≤ pool.slot_total_size = omega (arith, i.total) in
    let (pos, low, _, _) = i.chain in
    let near = All-right (Spaced pool.slot_total_size s) others (xs ++ used) i.spaced.0 in
    let next = read_word w.mem s in
    let pool1 : Pool = record pool { free_head = next } in
    let w1 : World = record w { mem = write_word w.mem s 0 } in
    let i1 = pop-IsStock w pool s 0 others xs used i in
    let all_spared = header-Spared (xs ++ used) pool pool1 w s 0 wide i.placed.0 near refl refl in
    let b1 =
      IsBatch-Spared (xs ++ used) pool pool1 w w1 batch xs wide all_spared
        (λ x at. In-append_left xs used x at) b in
    let spared =
      header-Spared used pool pool1 w s 0 wide i.placed.0 (All-right _ xs used near) refl refl in
    Ends-continue
      (join_batch-Joined p w1 pool1 others xs used s batch i1 b1 pos low few
        (read_word-write_word w.mem s 0 (omega arith)))
      λ batch' w2 j. ends (record {
        is_batch = j.is_batch;
        is_stock =
            subst (IsStock w2.mem pool1 others) (sym (append_assoc xs (s ∷ []) used)) j.is_stock;
        are_mapped = subst (λ q. AreMapped q.mapped pool.arenas) (sym j.process) ms;
        spared = Spared-trans (λ y at. at) spared j.spared;
      })
