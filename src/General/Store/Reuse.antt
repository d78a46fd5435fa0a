-- ===== src/General/Store/Reuse.antt =====
-- The branch of my_malloc that reuses a free block.
use custom_memory_allocator.Base.{
  ℕ, ◌+◌, ◌-◌, ◌≤◌, ◌%◌, ◌≡◌, ◌≢◌, inl, inr, false, List, [], ◌∷◌, refl, ◌∙◌, ltb, Bool-cases,
}
use custom_memory_allocator.Run.{World, done}
use custom_memory_allocator.Run.Ends.{Ends, ends, Ends-continue}
use custom_memory_allocator.Block.{payload, set_free}
use custom_memory_allocator.Block.Tags.{IsBlock-is_free}
use custom_memory_allocator.FreeList.{FreeList}
use custom_memory_allocator.General.{General}
use custom_memory_allocator.General.Blocks.{reuse, with_list}
use custom_memory_allocator.General.Store.{
  in_use, listed, detached, Blk, blk, IsStore, Foreign-outside, Foreign-rekind, listed-in_use,
}
use custom_memory_allocator.General.Store.Order.{IsStore-front}
use custom_memory_allocator.General.Store.Flag.{set_free-IsStore, set_free-Foreign}
use custom_memory_allocator.General.Store.Step.{Leaves}
use custom_memory_allocator.General.Store.Listing.{remove-detached, detached-listed}
use custom_memory_allocator.General.Store.Split.{
  after_split, after_split-Foreign, maybe_split-Leaves,
}

pub in_use-listed : in_use ≢ listed
in_use-listed e = cc

-- Clearing the flag of the block that was cut.
claim-IsStore :
    (w : World) (list : FreeList) (a s n : ℕ) (rest : List Blk) (xs : List ℕ)
    → IsStore w.mem list (after_split a s n detached rest) xs
    → IsStore (set_free a false w.mem) list (after_split a s n in_use rest) xs
unfolding after_split
claim-IsStore w list a s n rest xs st = elim (Bool-cases (ltb (s - n) 48)) [
  | inl e ↦ rw e (
      set_free-IsStore w.mem list a s detached in_use rest xs detached-listed in_use-listed
        (rw e at st))
  | inr e ↦
      let left = blk (a + 32 + n) (s - n - 32) listed in
      rw e (
        IsStore-front (set_free a false w.mem) list (blk a n in_use ∷ []) left rest xs (
          set_free-IsStore w.mem list a n detached in_use (left ∷ rest) xs detached-listed
            in_use-listed
            (IsStore-front w.mem list (left ∷ []) (blk a n detached) rest xs (rw e at st))))
]

-- The payload of a block in use is right behind its header.
payload-done :
    (w : World) (list : FreeList) (a s n : ℕ) (rest : List Blk) (xs : List ℕ)
    → IsStore w.mem list (after_split a s n in_use rest) xs
    → payload a w ≡ done (a + 16) w
unfolding payload after_split
payload-done w list a s n rest xs st = elim (Bool-cases (ltb (s - n) 48)) [
  | inl e ↦ let st' = rw e at st in rw (IsBlock-is_free st'.good.0.tags) refl
  | inr e ↦ let st' = rw e at st in rw (IsBlock-is_free st'.good.1.0.tags) refl
]

-- reuse of a listed block with room for an aligned size ends with the pointer to its payload. The
-- block is in use and cut down to that size, what is left of it is free, and the bag of blocks is
-- well-formed, with the others as they were.
pub reuse-Leaves :
    (w : World) (g : General) (a s n : ℕ) (rest : List Blk) (xs : List ℕ)
    → IsStore w.mem g.free_list (blk a s listed ∷ rest) xs
    → n % 16 ≡ 0
    → 16 ≤ n
    → n ≤ s
    → Ends
        (λ (ptr, g') w'.
          (ptr ≡ a + 16) × Leaves g w (blk a s listed ∷ rest) (after_split a s n in_use rest) g' w')
        (reuse g a n w)
unfolding reuse
reuse-Leaves w g a s n rest xs st aligned room fits =
    Ends-continue (remove-detached w g.free_list a s rest xs st) λ list w1 l.
      Ends-continue
        (maybe_split-Leaves w1 (with_list g list) a s n detached rest l.xs l.store detached-listed
          aligned room fits)
        λ g2 w2 cut.
          let claimed = claim-IsStore w2 g2.free_list a s n rest cut.xs cut.store in
          rw
            (payload-done (record w2 { mem = set_free a false w2.mem }) g2.free_list a s n rest
              cut.xs claimed)
            (ends (
              refl,
              record {
                xs = cut.xs;
                store = claimed;
                spares = record {
                  byte = λ x h.
                      let out = Foreign-outside x (blk a s listed) listed-in_use h.0 in
                      let listed' = Foreign-rekind x a s listed detached listed-in_use h.0 in
                      let (e1, _) = l.spares.byte x (listed', h.1) in
                      let (e2, _) =
                        cut.spares.byte x
                          (after_split-Foreign x a s n detached rest out fits h.1) in
                      (
                        set_free-Foreign w2.mem a s x false listed h.0 ∙ e2 ∙ e1,
                        after_split-Foreign x a s n in_use rest out fits h.1,
                      );
                };
                arenas = cut.arenas;
                arena_size = cut.arena_size;
                process = cut.process ∙ l.process;
              },
            ))
