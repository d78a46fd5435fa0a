-- ===== src/General/Heap/CoalesceRight.antt =====
-- my_free's step to the right: the block takes in the free block behind it, if there is one.
use custom_memory_allocator.Base.{
  ℕ, ◌+◌, ◌≡◌, sym, subst, true, false, List, [], ◌∷◌, ◌++◌, All, arith, inl, inr, Bool-cases, ◌==◌,
  ==_of_ne, if◌then◌else◌,
}
use custom_memory_allocator.Run.{World}
use custom_memory_allocator.Run.Ends.{Ends, ends, Ends-weaken}
use custom_memory_allocator.General.{Arena, General}
use custom_memory_allocator.General.Blocks.{coalesce_right, absorb_right_neighbor}
use custom_memory_allocator.General.Store.{flag, detached, Foreign, Blk, blk, IsStore}
use custom_memory_allocator.General.Store.Listing.{detached-listed}
use custom_memory_allocator.General.Store.Merge.{absorb_right_neighbor-Leaves}
use custom_memory_allocator.General.Heap.{Part, Tiles, IsAssigned}
use custom_memory_allocator.General.Heap.Place.{Tiles-join}
use custom_memory_allocator.General.Heap.Adjacent.{right_neighbor_if_free-right_of}
use custom_memory_allocator.General.Heap.Middle.{
  around, Middle, Middle-goods, Middle-Tiles, IsLayout-part, Kept, Kept-refl, blk-listed,
  next_second, next_second-All,
}

-- The size of a block and the blocks behind it, once it has taken in the first of them if that is free.
abbrev pub grown : ℕ → List Blk → ℕ × List Blk
grown s [] = (s, [])
grown s (c ∷ qs) = if flag c.kind then (s + 32 + c.size, qs) else (s, c ∷ qs)

module _ (w : World) (g : General) (before : List Part) (arena : Arena) (ps : List Blk) (a s : ℕ)
    (behind : List Part) where
  -- The state that absorbing the free block behind leaves.
  absorbed :
      (c : Blk) (qs : List Blk)
      → Middle w g before arena ps a s (c ∷ qs) behind
      → IsAssigned c
      → flag c.kind ≡ true
      → Ends
          (λ g' w'.
            Middle w' g' before arena ps a (s + 32 + c.size) qs behind
            × Kept
                (blk a s detached ∷ around before ps (c ∷ qs) behind)
                (blk a (s + 32 + c.size) detached ∷ around before ps qs behind)
                g
                w
                g'
                w')
          (absorb_right_neighbor g a c.addr w)
  absorbed c qs mid assigned free =
      let (front, back) = Middle-Tiles mid in
      let pair =
        next_second before ps (blk a s detached) c qs behind w.mem g.free_list mid.xs mid.store in
      let is_c = blk-listed c (a + 32 + s) assigned free back.0 in
      let store =
        subst
          (λ x.
            IsStore w.mem g.free_list (blk a s detached ∷ x ∷ around before ps qs behind) mid.xs)
          is_c pair in
      let further : a + 32 + s + 32 + c.size ≡ a + 32 + (s + 32 + c.size) = omega arith in
      subst
        (λ x.
          Ends
            (λ g' w'.
              Middle w' g' before arena ps a (s + 32 + c.size) qs behind
              × Kept (blk a s detached ∷ around before ps (c ∷ qs) behind)
                  (blk a (s + 32 + c.size) detached ∷ around before ps qs behind) g w g' w')
            (absorb_right_neighbor g a x w))
        (sym back.0)
        (Ends-weaken
          (absorb_right_neighbor-Leaves w g a s c.size detached (around before ps qs behind) mid.xs
            detached-listed store)
          λ g' w' l. (
            record {
              xs = l.xs;
              store = l.store;
              layout =
                  IsLayout-part g g' before arena (ps ++ blk a s detached ∷ c ∷ qs)
                    (ps ++ blk a (s + 32 + c.size) detached ∷ qs) behind l.arenas
                    (Tiles-join arena.base ps (blk a (s + 32 + c.size) detached) qs
                      (arena.base + arena.used) front
                      (subst (λ x. Tiles x qs (arena.base + arena.used)) further back.1))
                    mid.layout;
            },
            record {
              spares = record {
                byte = λ x h.
                    let (f, f', fs) =
                      next_second-All before ps (blk a s detached) c qs behind (Foreign x) h in
                    l.spares.byte x (f, (subst (Foreign x) is_c f', fs));
              };
              arenas = l.arenas;
              arena_size = l.arena_size;
              process = l.process;
            },
          ))

  pub coalesce_right-grown :
      (qs : List Blk)
      → Middle w g before arena ps a s qs behind
      → All IsAssigned qs
      → Ends
          (λ g' w'.
            Middle w' g' before arena ps a (grown s qs).0 (grown s qs).1 behind
            × Kept
                (blk a s detached ∷ around before ps qs behind)
                (blk a (grown s qs).0 detached ∷ around before ps (grown s qs).1 behind)
                g
                w
                g'
                w')
          (coalesce_right g a w)
  unfolding coalesce_right
  coalesce_right-grown [] mid assigned =
      let found =
        right_neighbor_if_free-right_of w g before behind arena ps (blk a s detached) [] mid.layout
          (Middle-goods mid) in
      rw found (ends (mid, Kept-refl))
  coalesce_right-grown (c ∷ qs) mid assigned =
      let found =
        right_neighbor_if_free-right_of w g before behind arena ps (blk a s detached) (c ∷ qs)
          mid.layout (Middle-goods mid) in
      elim (Bool-cases (flag c.kind)) [
        | inl e ↦
            let at = (Middle-Tiles mid).1.0 in
            let nonnull : (c.addr == 0) ≡ false = ==_of_ne c.addr 0 (omega arith) in
            rw (found, e, nonnull) (absorbed c qs mid assigned.0 e)
        | inr e ↦ rw (found, e) (ends (mid, Kept-refl))
      ]
