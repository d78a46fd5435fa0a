-- ===== src/General/Heap/Free.antt =====
-- The part of my_free behind the general path's lock keeps the heap whole.
use custom_memory_allocator.Base.{
  ℕ, ◌+◌, ◌≡◌, ◌≢◌, refl, ◌∙◌, true, List, ◌∷◌, ◌++◌, All, All-left, All-right, All-append, arith,
  sub64,
}
use custom_memory_allocator.Run.{World, pure, ◌>>=◌}
use custom_memory_allocator.Run.Ends.{Ends, ends, Ends-continue}
use custom_memory_allocator.Block.{set_free}
use custom_memory_allocator.FreeList.{insert}
use custom_memory_allocator.General.{Arena, General}
use custom_memory_allocator.General.Blocks.{free_general, with_list}
use custom_memory_allocator.General.Store.{
  Foreign, Foreign-rekind, detached-in_use, in_use, listed, detached, Blk, blk, IsStore,
}
use custom_memory_allocator.General.Store.Flag.{set_free-IsStore, set_free-Foreign}
use custom_memory_allocator.General.Store.Listing.{insert-listed, detached-listed}
use custom_memory_allocator.General.Store.Reuse.{in_use-listed}
use custom_memory_allocator.General.Heap.{
  Part, part, bag, Tiles, Settled, PartTiles, PartSettled, IsAssigned, IsHeap,
}
use custom_memory_allocator.General.Heap.Place.{Tiles-split, Tiles-join, held_part}
use custom_memory_allocator.General.Heap.Adjacent.{owner-arena}
use custom_memory_allocator.General.Heap.Middle.{
  around, take_out, put_back, take_out-All, put_back-All, Middle, Middle-Tiles, IsLayout-part,
  IsHeap-part, Kept, Kept-trans,
}
use custom_memory_allocator.General.Heap.CoalesceRight.{grown, coalesce_right-grown}
use custom_memory_allocator.General.Heap.CoalesceLeft.{widened, Widened, coalesce_left-widened}
use custom_memory_allocator.General.Heap.Settle.{
  Settled-left, Settled-right, Settled-tail, Settled-join, grown-HeadBusy, widened-LastBusy,
}

-- The blocks of an arena once the block of `s` bytes at `a` is free: it has taken in the block behind
-- it if that was free, the block in front of it has taken in both if that was free, and the result is free.
unfoldable pub freed : List Blk → ℕ → ℕ → List Blk → List Blk
freed ps a s qs =
    let (s1, qs1) = grown s qs in
    let (a2, s2, ps2) = widened a s1 ps in ps2 ++ blk a2 s2 listed ∷ qs1

listed-detached : listed ≢ detached
listed-detached e = cc

module _ (w : World) (g : General) (before : List Part) (arena : Arena) (ps : List Blk) (a s : ℕ)
    (qs : List Blk) (behind : List Part)
    (heap : IsHeap w g (before ++ part arena (ps ++ blk a s in_use ∷ qs) ∷ behind)) where
  abbrev here : Part
  here = part arena (ps ++ blk a s in_use ∷ qs)

  marked-Middle : Middle (record w { mem = set_free a true w.mem }) g before arena ps a s qs behind
  marked-Middle =
      let (front, back) =
        Tiles-split arena.base ps (blk a s in_use) qs (arena.base + arena.used)
          (held_part before here behind PartTiles heap.layout.tiles) in
      record {
        xs = heap.xs;
        store =
            set_free-IsStore w.mem g.free_list a s in_use detached (around before ps qs behind)
              heap.xs in_use-listed detached-listed
              (take_out before arena ps (blk a s in_use) qs behind w.mem g.free_list heap.xs
                heap.store);
        layout =
            IsLayout-part g g before arena (ps ++ blk a s in_use ∷ qs) (ps ++ blk a s detached ∷ qs)
              behind refl
              (Tiles-join arena.base ps (blk a s detached) qs (arena.base + arena.used) front back)
              heap.layout;
      }

  around_this : All IsAssigned (around before ps qs behind)
  around_this = (take_out-All before arena ps (blk a s in_use) qs behind IsAssigned heap.assigned).1

  fronts : All IsAssigned (bag before ++ ps)
  fronts = All-left IsAssigned (bag before ++ ps) (qs ++ bag behind) around_this

  backs : All IsAssigned (qs ++ bag behind)
  backs = All-right IsAssigned (bag before ++ ps) (qs ++ bag behind) around_this

  here-Settled : Settled (ps ++ blk a s in_use ∷ qs)
  here-Settled = held_part before here behind PartSettled heap.settled

  -- The heap once the coalesced block is on the list.
  freed-IsHeap :
      (w' : World) (g' : General)
      → (xs : List ℕ)
      → IsStore w'.mem g'.free_list
          (blk (widened a (grown s qs).0 ps).0 (widened a (grown s qs).0 ps).1 listed
            ∷ around before (widened a (grown s qs).0 ps).2 (grown s qs).1 behind)
          xs
      → Tiles arena.base (freed ps a s qs) (arena.base + arena.used)
      → g'.arenas ≡ g.arenas
      → w'.process ≡ w.process
      → IsHeap w' g' (before ++ part arena (freed ps a s qs) ∷ behind)
  unfolding freed
  freed-IsHeap w' g' xs store tiles same_arenas same_process =
      let ps2 = (widened a (grown s qs).0 ps).2 in
      let qs1 = (grown s qs).1 in
      let b = blk (widened a (grown s qs).0 ps).0 (widened a (grown s qs).0 ps).1 listed in
      let (t_q, h, a_q) =
        grown-HeadBusy s qs (All-left IsAssigned qs (bag behind) backs) (
          Settled-tail (blk a s in_use) qs (Settled-right ps (blk a s in_use ∷ qs) here-Settled)) in
      let (t_p, l, a_p) =
        widened-LastBusy a (grown s qs).0 ps (All-right IsAssigned (bag before) ps fronts)
          (Settled-left ps (blk a s in_use ∷ qs) here-Settled) in
      let assigned = put_back-All before arena ps2 b qs1 behind IsAssigned (
        listed-detached,
        All-append IsAssigned (bag before ++ ps2) (qs1 ++ bag behind)
            (All-append IsAssigned (bag before) ps2 (All-left IsAssigned (bag before) ps fronts)
              a_p)
            (All-append IsAssigned qs1 (bag behind) a_q
              (All-right IsAssigned qs (bag behind) backs)),
      ) in
      IsHeap-part w' g' before arena here.blocks (ps2 ++ b ∷ qs1) behind xs heap
        (put_back before arena ps2 b qs1 behind w'.mem g'.free_list xs store) same_arenas
        same_process tiles (Settled-join ps2 b qs1 t_p l t_q h) assigned

  -- The last step of free_general.
  insert-Ends :
      {g1 : General} {w1 : World} (out : ℕ × General) (w2 : World)
      → Widened g1 w1
          (blk a (grown s qs).0 detached ∷ around before ps (grown s qs).1 behind)
          before
          arena
          (widened a (grown s qs).0 ps)
          (grown s qs).1
          behind
          out
          w2
      → Kept
          (blk a s detached ∷ around before ps qs behind)
          (blk (widened a (grown s qs).0 ps).0 (widened a (grown s qs).0 ps).1 detached
            ∷ around before (widened a (grown s qs).0 ps).2 (grown s qs).1 behind)
          g
          (record w { mem = set_free a true w.mem })
          out.1
          w2
      → Ends
          (λ g' w'.
            IsHeap w' g' (before ++ part arena (freed ps a s qs) ∷ behind)
            × Kept
                (bag (before ++ part arena (ps ++ blk a s detached ∷ qs) ∷ behind))
                (bag (before ++ part arena (freed ps a s qs) ∷ behind))
                g
                w
                g'
                w')
          ((do list ← insert out.1.free_list out.0; pure (with_list out.1 list)) w2)
  unfolding freed
  insert-Ends out w2 wide kept =
      let r = widened a (grown s qs).0 ps in
      let qs1 = (grown s qs).1 in
      let mid = wide.mid in
      let (front, back) = Middle-Tiles mid in
      rw wide.block (
        Ends-continue
          (insert-listed w2 out.1.free_list r.0 r.1 (around before r.2 qs1 behind) mid.xs mid.store)
          λ list w3 l.
            let b = blk r.0 r.1 listed in
            ends (
              freed-IsHeap w3 (with_list out.1 list) l.xs l.store
                  (Tiles-join arena.base r.2 b qs1 (arena.base + arena.used) front back) kept.arenas
                  (l.process ∙ kept.process),
              record {
                spares = record {
                  byte = λ x h.
                      let h0 =
                        take_out-All before arena ps (blk a s detached) qs behind (Foreign x) h in
                      let (e1, h1) = kept.spares.byte x h0 in
                      let h1' = Foreign-rekind x r.0 r.1 detached listed detached-in_use h1.0 in
                      let (e2, h2) = l.spares.byte x (h1', h1.1) in
                      (
                        e2 ∙ e1 ∙ set_free-Foreign w.mem a s x true detached h0.0,
                        put_back-All before arena r.2 b qs1 behind (Foreign x) h2,
                      );
                };
                arenas = kept.arenas;
                arena_size = kept.arena_size;
                process = l.process ∙ kept.process;
              },
            ))

  -- free_general of a block in use, on a heap that is whole, leaves a whole heap. In it the block has
  -- merged with its neighbours that were free and is free itself, and the other blocks are as
  -- they were. The payloads of the other blocks in use and all memory outside the blocks keep their
  -- bytes. It fails no assertion.
  pub free_general-IsHeap :
      Ends
        (λ g' w'.
          IsHeap w' g' (before ++ part arena (freed ps a s qs) ∷ behind)
          × Kept
              (bag (before ++ part arena (ps ++ blk a s detached ∷ qs) ∷ behind))
              (bag (before ++ part arena (freed ps a s qs) ∷ behind))
              g
              w
              g'
              w')
        (free_general g (a + 16) w)
  unfolding free_general
  free_general-IsHeap =
      let low =
        (take_out before arena ps (blk a s in_use) qs behind w.mem g.free_list heap.xs
          heap.store).good.0.low in
      let header : sub64 (a + 16) 16 ≡ a = omega arith in
      let found =
        owner-arena w g before behind arena ps (blk a s in_use) qs heap.layout heap.store.good in
      rw (header, found)
        (Ends-continue
          (coalesce_right-grown (record w { mem = set_free a true w.mem }) g before arena ps a s
            behind qs marked-Middle (All-left IsAssigned qs (bag behind) backs))
          λ g1 w1 (mid1, kept1).
            Ends-continue
              (coalesce_left-widened w1 g1 before arena a (grown s qs).0 (grown s qs).1 behind ps
                mid1 (All-right IsAssigned (bag before) ps fronts))
              λ out w2 wide. insert-Ends out w2 wide (Kept-trans kept1 wide.kept))
