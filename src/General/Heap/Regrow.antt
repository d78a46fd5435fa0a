-- ===== src/General/Heap/Regrow.antt =====
-- The part of my_realloc behind the general path's lock: a block that fits stays, and one that does
-- not takes in the free block behind it if that is enough.
use custom_memory_allocator.Base.{
  ℕ, ◌+◌, ◌-◌, ◌≤◌, ◌<◌, ◌^◌, ◌%◌, ◌≡◌, ◌⊎◌, refl, sym, ◌∙◌, subst, true, false, List, [], ◌∷◌,
  ◌++◌, All, inl, inr, arith, leb, ◌==◌, add64, sub64, Bool-cases, lt_cases, if◌then◌else◌,
  ==_of_ne,
}
use custom_memory_allocator.Run.{World, pure, ◌>>=◌}
use custom_memory_allocator.Run.Ends.{Ends, ends, Ends-continue, Ends-weaken}
use custom_memory_allocator.Block.Tags.{IsBlock-get_size}
use custom_memory_allocator.General.{Arena, General, align_up}
use custom_memory_allocator.General.Align.{align_up_least}
use custom_memory_allocator.General.Blocks.{
  combined_payload_size, absorb_right_neighbor, maybe_split, grow_right, realloc_general, Regrowth,
  in_place, must_move,
}
use custom_memory_allocator.General.Store.{
  Foreign, Foreign-outside, listed-in_use, flag, in_use, listed, Blk, blk, IsGood, IsStore,
}
use custom_memory_allocator.General.Store.Merge.{absorb_right_neighbor-Leaves}
use custom_memory_allocator.General.Store.Reuse.{in_use-listed}
use custom_memory_allocator.General.Store.Split.{
  after_split, maybe_split-Leaves, after_split-Foreign, after_split-payload,
}
use custom_memory_allocator.General.Heap.{
  Part, part, bag, Tiles, Settled, PartTiles, PartSettled, IsAssigned, IsHeap,
}
use custom_memory_allocator.General.Heap.Place.{Tiles-split, Tiles-join, held_part}
use custom_memory_allocator.General.Heap.Adjacent.{owner-arena, right_neighbor_if_free-right_of}
use custom_memory_allocator.General.Heap.CoalesceRight.{grown}
use custom_memory_allocator.General.Heap.Middle.{
  around, take_out, take_out-All, Kept, Kept-refl, Kept-refl, next_second, next_second-All,
  blk-listed, IsHeap-part,
}
use custom_memory_allocator.General.Heap.Settle.{Settled-left, Settled-right, Settled-tail}
use custom_memory_allocator.General.Heap.Reuse.{
  handed_out, handed_out-IsStore, handed_out-Tiles, handed_out-Settled, handed_out-All,
  handed_out-IsAssigned, Settled-moved,
}

-- A byte foreign to a block in use and to the free one behind it is foreign to what comes of both.
regrown-Foreign :
    (x a s t n : ℕ) (rest : List Blk)
    → s < n
    → n ≤ s + 32 + t
    → Foreign x (blk a s in_use)
    → Foreign x (blk (a + 32 + s) t listed)
    → All (Foreign x) rest
    → All (Foreign x) (after_split a (s + 32 + t) n in_use rest)
regrown-Foreign x a s t n rest more fits (inl h) g hs =
    after_split-Foreign x a (s + 32 + t) n in_use rest (inl h) fits hs
regrown-Foreign x a s t n rest more fits (inr (inl h)) g hs =
    let out = Foreign-outside x (blk (a + 32 + s) t listed) listed-in_use g in
    after_split-Foreign x a (s + 32 + t) n in_use rest (inr (ground arith)) fits hs
regrown-Foreign x a s t n rest more fits (inr (inr (e, lo, hi))) g hs =
    after_split-payload x a (s + 32 + t) n rest lo (omega arith) fits hs

-- The blocks of the arena from the block on, once it has been made to hold `n` bytes.
unfoldable pub regrown : (a s n : ℕ) → List Blk → List Blk
regrown a s n qs =
    if leb n s then blk a s in_use ∷ qs else handed_out a (grown s qs).0 n (grown s qs).1

-- The blocks from there on have given way to others, and no byte that a caller owns has changed.
pub record InPlace (w : World) (g : General) (before : List Part) (arena : Arena)
    (ps qs qs' : List Blk) (behind : List Part) (r : Regrowth × General) (w' : World) : Type 0 where
  pub verdict : r.0 ≡ in_place
  pub heap : IsHeap w' r.1 (before ++ part arena (ps ++ qs') ∷ behind)
  pub kept :
      Kept
        (bag (before ++ part arena (ps ++ qs) ∷ behind))
        (bag (before ++ part arena (ps ++ qs') ∷ behind))
        g
        w
        r.1
        w'

pub record MustMove (w : World) (g : General) (s : ℕ) (r : Regrowth × General) (w' : World)
    : Type 0 where
  pub verdict : r.0 ≡ must_move s
  pub general : r.1 ≡ g
  pub world : w' ≡ w

module _ (w : World) (g : General) (before : List Part) (arena : Arena) (ps : List Blk) (a s n : ℕ)
    (behind : List Part) (aligned : n % 16 ≡ 0) (more : s < n) where
  -- Taking in the block behind and giving back what is too much.
  absorbed_and_cut :
      (c : Blk) (qs : List Blk)
      → IsHeap w g (before ++ part arena (ps ++ blk a s in_use ∷ c ∷ qs) ∷ behind)
      → flag c.kind ≡ true
      → n ≤ s + 32 + c.size
      → Ends
          (InPlace w g before arena ps
            (blk a s in_use ∷ c ∷ qs)
            (handed_out a (s + 32 + c.size) n qs)
            behind)
          ((do g1 ← absorb_right_neighbor g a c.addr; g2 ← maybe_split g1 a n; pure (in_place, g2))
            w)
  absorbed_and_cut c qs heap free fits =
      let here = part arena (ps ++ blk a s in_use ∷ c ∷ qs) in
      let total = s + 32 + c.size in
      let (front, back) =
        Tiles-split arena.base ps (blk a s in_use) (c ∷ qs) (arena.base + arena.used)
          (held_part before here behind PartTiles heap.layout.tiles) in
      let settled = held_part before here behind PartSettled heap.settled in
      let assigned =
        take_out-All before arena ps (blk a s in_use) (c ∷ qs) behind IsAssigned heap.assigned in
      let (_, assigned_c, others) =
        next_second-All before ps (blk a s in_use) c qs behind IsAssigned assigned in
      let is_c = blk-listed c (a + 32 + s) assigned_c free back.0 in
      let store =
        take_out before arena ps (blk a s in_use) (c ∷ qs) behind w.mem g.free_list heap.xs
          heap.store in
      let room = store.good.0.room in
      let pair =
        subst
          (λ x. IsStore w.mem g.free_list (blk a s in_use ∷ x ∷ around before ps qs behind) heap.xs)
          is_c
          (next_second before ps (blk a s in_use) c qs behind w.mem g.free_list heap.xs store) in
      let from_c =
        subst (λ x. Settled (x ∷ qs)) is_c
          (Settled-tail (blk a s in_use) (c ∷ qs)
            (Settled-right ps (blk a s in_use ∷ c ∷ qs) settled)) in
      let further : a + 32 + s + 32 + c.size ≡ a + 32 + total = omega arith in
      subst
        (λ x.
          Ends
            (InPlace w g before arena ps (blk a s in_use ∷ c ∷ qs)
              (handed_out a (s + 32 + c.size) n qs) behind)
            ((do g1 ← absorb_right_neighbor g a x; g2 ← maybe_split g1 a n; pure (in_place, g2)) w))
        (sym back.0)
        (Ends-continue
          (absorb_right_neighbor-Leaves w g a s c.size in_use (around before ps qs behind) heap.xs
            in_use-listed pair)
          λ g1 w1 l.
            Ends-continue
              (maybe_split-Leaves w1 g1 a total n in_use (around before ps qs behind) l.xs l.store
                in_use-listed aligned (omega arith) fits)
              λ g2 w2 cut. ends (record {
                verdict = refl;
                heap =
                    IsHeap-part w2 g2 before arena here.blocks (ps ++ handed_out a total n qs)
                      behind cut.xs heap
                      (handed_out-IsStore before arena ps a total n qs behind w2.mem g2.free_list
                        cut.xs cut.store)
                      (cut.arenas ∙ l.arenas) (cut.process ∙ l.process)
                      (handed_out-Tiles before arena ps a total n qs behind fits (
                        Tiles-join arena.base ps (blk a total listed) qs (arena.base + arena.used)
                          front (subst (λ x. Tiles x qs (arena.base + arena.used)) further back.1)))
                      (handed_out-Settled ps a total n qs
                        (Settled-left ps (blk a s in_use ∷ c ∷ qs) settled)
                        (Settled-moved (a + 32 + s) c.size a total qs from_c))
                      (handed_out-All before arena ps a total n qs behind IsAssigned
                        (handed_out-IsAssigned before arena ps a total n qs behind others));
                kept = record {
                  spares = record {
                    byte = λ x h.
                        let h0 =
                          take_out-All before arena ps (blk a s in_use) (c ∷ qs) behind (Foreign x)
                            h in
                        let (f, f', fs) =
                          next_second-All before ps (blk a s in_use) c qs behind (Foreign x) h0 in
                        let fc = subst (Foreign x) is_c f' in
                        let (e1, _) = l.spares.byte x (f, (fc, fs)) in
                        let after =
                          regrown-Foreign x a s c.size n (around before ps qs behind) more fits f fc
                            fs in
                        let (e2, _) = cut.spares.byte x after in
                        (
                          e2 ∙ e1,
                          handed_out-All before arena ps a total n qs behind (Foreign x) after,
                        );
                  };
                  arenas = cut.arenas ∙ l.arenas;
                  arena_size = cut.arena_size ∙ l.arena_size;
                  process = cut.process ∙ l.process;
                };
              }))

  grow_right-Ends :
      (qs : List Blk)
      → IsHeap w g (before ++ part arena (ps ++ blk a s in_use ∷ qs) ∷ behind)
      → Ends
          (λ r w'.
            ((n ≤ (grown s qs).0)
              × InPlace w g before arena ps
                  (blk a s in_use ∷ qs)
                  (handed_out a (grown s qs).0 n (grown s qs).1)
                  behind
                  r
                  w')
            ⊎ (((grown s qs).0 < n) × MustMove w g s r w'))
          (grow_right g a s n w)
  unfolding grow_right combined_payload_size
  grow_right-Ends [] heap =
      let found =
        right_neighbor_if_free-right_of w g before behind arena ps (blk a s in_use) [] heap.layout
          heap.store.good in
      rw found (ends (inr (more, record { verdict = refl; general = refl; world = refl })))
  grow_right-Ends (c ∷ qs) heap =
      let found =
        right_neighbor_if_free-right_of w g before behind arena ps (blk a s in_use) (c ∷ qs)
          heap.layout heap.store.good in
      let goods =
        take_out-All before arena ps (blk a s in_use) (c ∷ qs) behind (IsGood w.mem)
          heap.store.good in
      let (good, good_c, _) =
        next_second-All before ps (blk a s in_use) c qs behind (IsGood w.mem) goods in
      elim (Bool-cases (flag c.kind)) [
        | inr e ↦
            rw (found, e)
              (ends (inr (more, record { verdict = refl; general = refl; world = refl })))
        | inl e ↦
            let low = good_c.low in
            let low_a = good.low in
            let pos = good_c.pos in
            let nonnull : (c.addr == 0) ≡ false = ==_of_ne c.addr 0 (omega arith) in
            let sum : add64 (add64 (add64 s 16) 16) c.size ≡ s + 32 + c.size = omega arith in
            let size_a = IsBlock-get_size good.tags in
            let size_c = IsBlock-get_size good_c.tags in
            elim (lt_cases (s + 32 + c.size) n) [
              | inl short ↦
                  let no : leb n (s + 32 + c.size) ≡ false = ground arith in
                  rw (found, e, nonnull, size_a, size_c, sum, no)
                    (ends (inr (short, record { verdict = refl; general = refl; world = refl })))
              | inr fits ↦
                  let yes : leb n (s + 32 + c.size) ≡ true = ground arith in
                  rw (found, e, nonnull, size_a, size_c, sum, yes)
                    (Ends-weaken (absorbed_and_cut c qs heap e fits) λ r w' p. inl (fits, p))
            ]
      ]

grown_le : (s : ℕ) (qs : List Blk) → s ≤ (grown s qs).0
grown_le s [] = omega arith
grown_le s (c ∷ qs) = elim (Bool-cases (flag c.kind)) [
  | inl e ↦ rw e (omega arith)
  | inr e ↦ rw e (omega arith)
]

-- realloc_general of a block in use, on a heap that is whole, for a size up to
-- 2 ^ 64 - 16: if the block, with the free block behind it where there is one, has room for the
-- aligned size, it stays in place, its payload and those of the other blocks in use keep their bytes,
-- what it does not need is free, and the heap is whole; else nothing changes and the answer is
-- that the block's payload has to move. It fails no assertion.
pub realloc_general-IsHeap :
    (w : World) (g : General) (before : List Part) (arena : Arena) (ps : List Blk)
    (a s new_size : ℕ) (qs : List Blk) (behind : List Part)
    → IsHeap w g (before ++ part arena (ps ++ blk a s in_use ∷ qs) ∷ behind)
    → new_size ≤ 2 ^ 64 - 16
    → Ends
        (λ r w'.
          ((align_up new_size ≤ (grown s qs).0)
            × InPlace w g before arena ps
                (blk a s in_use ∷ qs)
                (regrown a s (align_up new_size) qs)
                behind
                r
                w')
          ⊎ (((grown s qs).0 < align_up new_size) × MustMove w g s r w'))
        (realloc_general g (a + 16) new_size w)
unfolding realloc_general regrown
realloc_general-IsHeap w g before arena ps a s new_size qs behind heap fits =
    let good =
      (take_out-All before arena ps (blk a s in_use) qs behind (IsGood w.mem) heap.store.good).0 in
    let low = good.low in
    let header : sub64 (a + 16) 16 ≡ a = omega arith in
    let size = IsBlock-get_size good.tags in
    let found =
      owner-arena w g before behind arena ps (blk a s in_use) qs heap.layout heap.store.good in
    let aligned = (align_up_least new_size fits).0 in
    elim (lt_cases s (align_up new_size)) [
      | inl more ↦
          let no : leb (align_up new_size) s ≡ false = ground arith in
          rw (header, found, size, no)
            (grow_right-Ends w g before arena ps a s (align_up new_size) behind aligned more qs
              heap)
      | inr less ↦
          let yes : leb (align_up new_size) s ≡ true = ground arith in
          let le = grown_le s qs in
          rw (header, found, size, yes)
            (ends (inl (omega arith, record { verdict = refl; heap = heap; kept = Kept-refl })))
    ]
