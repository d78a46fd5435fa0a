-- ===== src/General/Heap/Reuse.antt =====
-- The branch of my_malloc that reuses a free block keeps the heap whole.
use custom_memory_allocator.Base.{
  ℕ, ◌+◌, ◌-◌, ◌≤◌, ◌%◌, ◌≡◌, ◌≢◌, refl, subst, List, [], ◌∷◌, ◌++◌, All, inl, inr, arith, ltb,
  Bool-cases, if◌then◌else◌,
}
use custom_memory_allocator.Memory.{Memory}
use custom_memory_allocator.Run.{World}
use custom_memory_allocator.Run.Ends.{Ends, Ends-weaken}
use custom_memory_allocator.FreeList.{FreeList}
use custom_memory_allocator.General.{Arena, General}
use custom_memory_allocator.General.Blocks.{reuse}
use custom_memory_allocator.General.Store.{Foreign, in_use, listed, detached, Blk, blk, IsStore}
use custom_memory_allocator.General.Store.Order.{IsStore-back, All-back}
use custom_memory_allocator.General.Store.Split.{after_split}
use custom_memory_allocator.General.Store.Reuse.{reuse-Leaves, in_use-listed}
use custom_memory_allocator.General.Heap.{
  Part, part, bag, Tiles, Settled, PartTiles, PartSettled, IsAssigned, IsHeap,
}
use custom_memory_allocator.General.Heap.Place.{Tiles-split, Tiles-join, held_part}
use custom_memory_allocator.General.Heap.Middle.{
  around, take_out, put_back, take_out-All, put_back-All, IsHeap-part, Kept,
}
use custom_memory_allocator.General.Heap.Settle.{Settled-left, Settled-right, Settled-tail}

-- What a block of `s` bytes becomes that has been handed out for `n`: a block in use of `n` bytes and a
-- free one of what is left, or the whole block in use where no block fits into what is left.
unfoldable pub handed_out : (a s n : ℕ) → List Blk → List Blk
handed_out a s n qs =
    if ltb (s - n) 48
    then blk a s in_use ∷ qs
    else blk a n in_use ∷ blk (a + 32 + n) (s - n - 32) listed ∷ qs

pub in_use-detached : in_use ≢ detached
in_use-detached e = cc

listed-detached : listed ≢ detached
listed-detached e = cc

-- A block that is not free stands anywhere.
pub Settled-busy :
    (ps : List Blk) (b : Blk) (qs : List Blk)
    → Settled ps
    → b.kind ≢ listed
    → Settled (b ∷ qs)
    → Settled (ps ++ b ∷ qs)
Settled-busy [] b qs t ne u = u
Settled-busy (p ∷ []) b qs t ne u = (inr ne, u)
Settled-busy (p ∷ q ∷ ps) b qs t ne u = (t.0, Settled-busy (q ∷ ps) b qs t.1 ne u)

busy-Settled : (b : Blk) (qs : List Blk) → b.kind ≢ listed → Settled qs → Settled (b ∷ qs)
busy-Settled b [] ne t = tt
busy-Settled b (c ∷ qs) ne t = (inl ne, t)

-- Only the kinds matter.
pub Settled-moved :
    (a s a' s' : ℕ) (qs : List Blk)
    → Settled (blk a s listed ∷ qs)
    → Settled (blk a' s' listed ∷ qs)
Settled-moved a s a' s' [] t = tt
Settled-moved a s a' s' (c ∷ qs) t = t

pub handed_out-Settled :
    (ps : List Blk) (a s n : ℕ) (qs : List Blk)
    → Settled ps
    → Settled (blk a s listed ∷ qs)
    → Settled (ps ++ handed_out a s n qs)
unfolding handed_out
handed_out-Settled ps a s n qs front back = elim (Bool-cases (ltb (s - n) 48)) [
  | inl e ↦ rw e (
      Settled-busy ps (blk a s in_use) qs front in_use-listed
        (busy-Settled (blk a s in_use) qs in_use-listed (Settled-tail (blk a s listed) qs back)))
  | inr e ↦
      let left = blk (a + 32 + n) (s - n - 32) listed in
      rw e (
        Settled-busy ps (blk a n in_use) (left ∷ qs) front in_use-listed
          (inl in_use-listed, Settled-moved a s (a + 32 + n) (s - n - 32) qs back))
]

module _ (before : List Part) (arena : Arena) (ps : List Blk) (a s n : ℕ) (qs : List Blk)
    (behind : List Part) where
  pub handed_out-IsStore :
      (m : Memory) (list : FreeList) (xs : List ℕ)
      → IsStore m list (after_split a s n in_use (around before ps qs behind)) xs
      → IsStore m list (bag (before ++ part arena (ps ++ handed_out a s n qs) ∷ behind)) xs
  unfolding after_split handed_out
  handed_out-IsStore m list xs st = elim (Bool-cases (ltb (s - n) 48)) [
    | inl e ↦ rw e (put_back before arena ps (blk a s in_use) qs behind m list xs (rw e at st))
    | inr e ↦
        let left = blk (a + 32 + n) (s - n - 32) listed in
        let placed =
          IsStore-back m list (blk a n in_use ∷ (bag before ++ ps)) left (qs ++ bag behind) xs
            (rw e at st) in
        rw e (put_back before arena ps (blk a n in_use) (left ∷ qs) behind m list xs placed)
  ]

  pub handed_out-Tiles :
      n ≤ s
      → Tiles arena.base (ps ++ blk a s listed ∷ qs) (arena.base + arena.used)
      → Tiles arena.base (ps ++ handed_out a s n qs) (arena.base + arena.used)
  unfolding handed_out
  handed_out-Tiles fits tiles =
      let hi = arena.base + arena.used in
      let (front, back) = Tiles-split arena.base ps (blk a s listed) qs hi tiles in
      elim (Bool-cases (ltb (s - n) 48)) [
        | inl e ↦ rw e (Tiles-join arena.base ps (blk a s in_use) qs hi front back)
        | inr e ↦
            let left = blk (a + 32 + n) (s - n - 32) listed in
            let far : a + 32 + s ≡ a + 32 + n + 32 + (s - n - 32) = ground arith in
            rw e (
              Tiles-join arena.base ps (blk a n in_use) (left ∷ qs) hi front
                (refl, subst (λ x. Tiles x qs hi) far back))
      ]

  -- What holds of each block before the bag is put back in place holds of each after.
  pub handed_out-All :
      (P : Blk → Type 0)
      → All P (after_split a s n in_use (around before ps qs behind))
      → All P (bag (before ++ part arena (ps ++ handed_out a s n qs) ∷ behind))
  unfolding after_split handed_out
  handed_out-All P h = elim (Bool-cases (ltb (s - n) 48)) [
    | inl e ↦ rw e (put_back-All before arena ps (blk a s in_use) qs behind P (rw e at h))
    | inr e ↦
        let left = blk (a + 32 + n) (s - n - 32) listed in
        let placed =
          All-back (blk a n in_use ∷ (bag before ++ ps)) left (qs ++ bag behind) P (rw e at h) in
        rw e (put_back-All before arena ps (blk a n in_use) (left ∷ qs) behind P placed)
  ]

  pub handed_out-IsAssigned :
      All IsAssigned (around before ps qs behind)
      → All IsAssigned (after_split a s n in_use (around before ps qs behind))
  unfolding after_split
  handed_out-IsAssigned rest = elim (Bool-cases (ltb (s - n) 48)) [
    | inl e ↦ rw e (in_use-detached, rest)
    | inr e ↦ rw e (listed-detached, (in_use-detached, rest))
  ]

  -- reuse of a free block with room for an aligned size, on a heap that is whole, ends with the pointer
  -- to its payload and leaves a whole heap, in which the block is in use, what was left of it is
  -- free, and the other blocks are as they were. The payloads of the blocks in use and all memory
  -- outside the blocks keep their bytes. It fails no assertion.
  pub reuse-IsHeap :
      (w : World) (g : General)
      → IsHeap w g (before ++ part arena (ps ++ blk a s listed ∷ qs) ∷ behind)
      → n % 16 ≡ 0
      → 16 ≤ n
      → n ≤ s
      → Ends
          (λ (ptr, g') w'.
            (ptr ≡ a + 16)
            × IsHeap w' g' (before ++ part arena (ps ++ handed_out a s n qs) ∷ behind)
            × Kept
                (bag (before ++ part arena (ps ++ blk a s listed ∷ qs) ∷ behind))
                (bag (before ++ part arena (ps ++ handed_out a s n qs) ∷ behind))
                g
                w
                g'
                w')
          (reuse g a n w)
  reuse-IsHeap w g heap aligned room fits =
      let here = part arena (ps ++ blk a s listed ∷ qs) in
      let tiles = held_part before here behind PartTiles heap.layout.tiles in
      let settled = held_part before here behind PartSettled heap.settled in
      let front =
        take_out before arena ps (blk a s listed) qs behind w.mem g.free_list heap.xs heap.store in
      let others =
        (take_out-All before arena ps (blk a s listed) qs behind IsAssigned heap.assigned).1 in
      Ends-weaken
        (reuse-Leaves w g a s n (around before ps qs behind) heap.xs front aligned room fits)
        λ out w' (at, l). (
          at,
          IsHeap-part w' out.1 before arena here.blocks (ps ++ handed_out a s n qs) behind l.xs heap
              (handed_out-IsStore w'.mem out.1.free_list l.xs l.store) l.arenas l.process
              (handed_out-Tiles fits tiles)
              (handed_out-Settled ps a s n qs (Settled-left ps (blk a s listed ∷ qs) settled)
                (Settled-right ps (blk a s listed ∷ qs) settled))
              (handed_out-All IsAssigned (handed_out-IsAssigned others)),
          record {
            spares = record {
              byte = λ x h.
                  let h0 = take_out-All before arena ps (blk a s listed) qs behind (Foreign x) h in
                  let (e, h1) = l.spares.byte x h0 in (e, handed_out-All (Foreign x) h1);
            };
            arenas = l.arenas;
            arena_size = l.arena_size;
            process = l.process;
          },
        )
