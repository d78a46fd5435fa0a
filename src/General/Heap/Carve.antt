-- ===== src/General/Heap/Carve.antt =====
-- The bump pointer: a new block behind the others of the last arena, and a new arena behind the others.
use custom_memory_allocator.Base.{
  ℕ, ◌+◌, ◌≤◌, ◌%◌, ◌≡◌, ◌⊎◌, refl, sym, ap, ◌∙◌, subst, false, List, [], ◌∷◌, ◌++◌, some, All,
  All-append, inl, arith, add64,
}
use custom_memory_allocator.Memory.{Memory}
use custom_memory_allocator.Run.{World}
use custom_memory_allocator.Run.Ends.{Ends, ends}
use custom_memory_allocator.Block.{payload}
use custom_memory_allocator.Block.Tags.{IsBlock-is_free}
use custom_memory_allocator.General.{Arena, General, back, set_back}
use custom_memory_allocator.General.Blocks.{carve_block}
use custom_memory_allocator.General.Store.{Foreign, in_use, Blk, blk, IsGood, IsStore, OffRange}
use custom_memory_allocator.General.Store.Replace.{IsStore-replace}
use custom_memory_allocator.General.Store.Reuse.{in_use-listed}
use custom_memory_allocator.General.Store.Tagged.{
  tagged, tagged-IsBlock, tagged-SameBut, tagged-Foreign, construct-tagged,
}
use custom_memory_allocator.General.Heap.{
  Part, part, bag, arenas_of, Tiles, IsArena, ArenaOff, AllArenaOff, PartTiles, PartSettled,
  IsAssigned, IsMapped, IsHeap,
}
use custom_memory_allocator.General.Heap.Place.{
  Tiles-join, Tiles-le, held_part, held_arena, held_blocks,
}
use custom_memory_allocator.General.Heap.Middle.{
  around, append_assoc, put_back, put_back-All, All-part,
}
use custom_memory_allocator.General.Heap.Reuse.{Settled-busy, in_use-detached}

-- Tiled blocks lie off any bytes behind them and in front of them.
Tiles-OffRange :
    (start : ℕ) (bs : List Blk) (end lo hi : ℕ)
    → Tiles start bs end
    → (end ≤ lo) ⊎ (hi ≤ start)
    → All (OffRange lo hi) bs
Tiles-OffRange start [] end lo hi t out = tt
Tiles-OffRange start (b ∷ bs) end lo hi t out =
    let le = Tiles-le (start + 32 + b.size) bs end t.1 in
    let at = t.0 in
    (ground arith, Tiles-OffRange (start + 32 + b.size) bs end lo hi t.1 (ground arith))

-- The used bytes of the arena lie off the range.
abbrev pub ArenaClear : ℕ → ℕ → Arena → Type 0
ArenaClear lo hi a = (a.base + a.used ≤ lo) ⊎ (hi ≤ a.base)

pub bag-OffRange :
    (lo hi : ℕ) (parts : List Part)
    → All PartTiles parts
    → All (ArenaClear lo hi) (arenas_of parts)
    → All (OffRange lo hi) (bag parts)
bag-OffRange lo hi [] t c = tt
bag-OffRange lo hi (p ∷ parts) t c =
    All-append (OffRange lo hi) p.blocks (bag parts)
      (Tiles-OffRange p.arena.base p.blocks (p.arena.base + p.arena.used) lo hi t.0 c.0)
      (bag-OffRange lo hi parts t.1 c.1)

pub bag-snoc :
    (before : List Part) (arena : Arena) (ps : List Blk)
    → bag (before ++ part arena ps ∷ []) ≡ around before ps [] []
bag-snoc [] arena ps = refl
bag-snoc (p ∷ before) arena ps =
    ap (λ l. p.blocks ++ l) (bag-snoc before arena ps)
    ∙ sym (append_assoc p.blocks (bag before ++ ps) [])
    ∙ ap (λ l. l ++ []) (sym (append_assoc p.blocks (bag before) ps))

-- The bytes of tiled blocks end at a multiple of 16.
Tiles-aligned :
    (m : Memory) (lo : ℕ) (bs : List Blk) (hi : ℕ)
    → All (IsGood m) bs
    → lo % 16 ≡ 0
    → Tiles lo bs hi
    → hi % 16 ≡ 0
Tiles-aligned m lo [] hi good e t = subst (λ x. x % 16 ≡ 0) t e
Tiles-aligned m lo (b ∷ bs) hi good e t =
    let even = good.0.tags.aligned in
    Tiles-aligned m (lo + 32 + b.size) bs hi good.1 (omega arith) t.1

pub back-arenas_of :
    (before : List Part) (arena : Arena) (ps : List Blk)
    → back (arenas_of (before ++ part arena ps ∷ [])) ≡ some arena
back-arenas_of [] arena ps = refl
back-arenas_of (p ∷ []) arena ps = refl
back-arenas_of (p ∷ q ∷ before) arena ps = back-arenas_of (q ∷ before) arena ps

set_back-arenas_of :
    (before : List Part) (arena arena' : Arena) (ps ps' : List Blk)
    → set_back (arenas_of (before ++ part arena ps ∷ [])) arena'
      ≡ arenas_of (before ++ part arena' ps' ∷ [])
set_back-arenas_of [] arena arena' ps ps' = refl
set_back-arenas_of (p ∷ []) arena arena' ps ps' = refl
set_back-arenas_of (p ∷ q ∷ before) arena arena' ps ps' =
    ap (λ l. p.arena ∷ l) (set_back-arenas_of (q ∷ before) arena arena' ps ps')

-- The last arena with another bump pointer.
abbrev pub with_used : Arena → ℕ → Arena
with_used arena used = record { base = arena.base; size = arena.size; used = used }

module _ (arena : Arena) (u : ℕ) (ps ps' : List Blk) where
  All-last :
      (P : Arena → Type 0) (before : List Part)
      → P (with_used arena u)
      → All P (arenas_of (before ++ part arena ps ∷ []))
      → All P (arenas_of (before ++ part (with_used arena u) ps' ∷ []))
  All-last P [] h hs = (h, tt)
  All-last P (q ∷ before) h hs = (hs.0, All-last P before h hs.1)

  AllArenaOff-last :
      (before : List Part)
      → AllArenaOff (arenas_of (before ++ part arena ps ∷ []))
      → AllArenaOff (arenas_of (before ++ part (with_used arena u) ps' ∷ []))
  AllArenaOff-last [] off = off
  AllArenaOff-last (q ∷ before) off = (
    All-last (ArenaOff q.arena) before
        (held_arena before (part arena ps) [] (ArenaOff q.arena) off.0) off.0,
    AllArenaOff-last before off.1,
  )

-- Free room of the last arena lies off the used bytes of every arena.
room-ArenaClear :
    (lo hi : ℕ) (before : List Part) (arena : Arena) (ps : List Blk)
    → arena.base + arena.used ≤ lo
    → hi ≤ arena.base + arena.size
    → All IsArena (arenas_of (before ++ part arena ps ∷ []))
    → AllArenaOff (arenas_of (before ++ part arena ps ∷ []))
    → All (ArenaClear lo hi) (arenas_of (before ++ part arena ps ∷ []))
room-ArenaClear lo hi [] arena ps from upto each off = (inl from, tt)
room-ArenaClear lo hi (q ∷ before) arena ps from upto each off =
    let apart = held_arena before (part arena ps) [] (ArenaOff q.arena) off.0 in
    let used = each.0.used in
    (ground arith, room-ArenaClear lo hi before arena ps from upto each.1 off.1)

All-snoc :
    (P : Part → Type 0) (before : List Part) (p p' : Part)
    → P p'
    → All P (before ++ p ∷ [])
    → All P (before ++ p' ∷ [])
All-snoc P before p p' h hs = All-part P before p p' [] h hs

-- What carving a block of `n` bytes leaves.
pub record Carved (w : World) (before : List Part) (arena : Arena) (ps : List Blk) (n : ℕ)
    (g : General) (out : ℕ × General) (w' : World) : Type 0 where
  pub pointer : out.0 ≡ arena.base + arena.used + 16
  pub heap : IsHeap w' out.1 (
      before
      ++ part
          (with_used arena (arena.used + (32 + n)))
          (ps ++ blk (arena.base + arena.used) n in_use ∷ [])
        ∷ [])
  pub same : (x : ℕ) → Foreign x (blk (arena.base + arena.used) n in_use) → w'.mem x ≡ w.mem x
  pub arena_size : out.1.arena_size ≡ g.arena_size
  pub process : w'.process ≡ w.process

module _ (w : World) (g : General) (before : List Part) (arena : Arena) (ps : List Blk) (n : ℕ)
    (heap : IsHeap w g (before ++ part arena ps ∷ [])) (room : arena.used + (32 + n) ≤ arena.size)
    (aligned : n % 16 ≡ 0) (wide : 16 ≤ n) where
  last_IsArena : IsArena arena
  last_IsArena = held_arena before (part arena ps) [] IsArena heap.layout.each

  tiled : Tiles arena.base ps (arena.base + arena.used)
  tiled = held_part before (part arena ps) [] PartTiles heap.layout.tiles

  carved_IsGood :
      IsGood
        (tagged w.mem (arena.base + arena.used) n false)
        (blk (arena.base + arena.used) n in_use)
  carved_IsGood =
      let a = last_IsArena in
      let pos = a.pos in
      let low = a.low in
      record {
        tags = tagged-IsBlock w.mem (arena.base + arena.used) n false aligned (omega arith);
        room = wide;
        pos = omega arith;
        low = omega arith;
        aligned =
            Tiles-aligned w.mem arena.base ps (arena.base + arena.used)
              (held_blocks before (part arena ps) [] (IsGood w.mem) heap.store.good) a.aligned
              tiled;
      }

  carved-IsStore :
      IsStore
        (tagged w.mem (arena.base + arena.used) n false)
        g.free_list
        (blk (arena.base + arena.used) n in_use ∷ around before ps [] [])
        heap.xs
  carved-IsStore =
      let low = last_IsArena.low in
      let lo = arena.base + arena.used in
      let hi = arena.base + arena.used + 32 + n in
      subst (λ l. IsStore (tagged w.mem lo n false) g.free_list (blk lo n in_use ∷ l) heap.xs)
        (bag-snoc before arena ps)
        (IsStore-replace w.mem (tagged w.mem lo n false) g.free_list [] (blk lo n in_use ∷ [])
          (bag (before ++ part arena ps ∷ [])) heap.xs lo hi heap.store tt
          (bag-OffRange lo hi (before ++ part arena ps ∷ []) heap.layout.tiles (
            room-ArenaClear lo hi before arena ps (omega arith) (omega arith) heap.layout.each
              heap.layout.off))
          (tagged-SameBut w.mem lo n false aligned (omega arith)) (carved_IsGood, tt)
          (in_use-listed, tt) (tt, tt) ((omega arith, omega arith), tt))

  -- carve_block puts a block in use behind the others of the last arena, which has room for it.
  pub carve_block-Carved :
      Ends (Carved w before arena ps n g) (carve_block g (some arena) n (32 + n) w)
  unfolding carve_block payload
  carve_block-Carved =
      let low = last_IsArena.low in
      let lo = arena.base + arena.used in
      let b = blk lo n in_use in
      let arena' = with_used arena (arena.used + (32 + n)) in
      let made = construct-tagged w.mem lo n false aligned (omega arith) in
      let taken = IsBlock-is_free carved_IsGood.tags in
      let next_used : add64 arena.used (32 + n) ≡ arena.used + (32 + n) = omega arith in
      let end : lo + 32 + n ≡ arena.base + (arena.used + (32 + n)) = omega arith in
      let is_arena : IsArena arena' = record {
        pos = last_IsArena.pos;
        aligned = last_IsArena.aligned;
        used = room;
        low = low;
      } in
      let others = bag-snoc before arena ps in
      rw (made, taken, next_used)
        (ends (record {
          pointer = refl;
          heap = record {
            xs = heap.xs;
            store = put_back before arena' ps b [] [] _ g.free_list heap.xs carved-IsStore;
            layout = record {
              arenas =
                  ap (λ l. set_back l arena') heap.layout.arenas
                  ∙ set_back-arenas_of before arena arena' ps (ps ++ b ∷ []);
              tiles =
                  All-snoc PartTiles before (part arena ps) (part arena' (ps ++ b ∷ []))
                    (Tiles-join arena.base ps b [] (arena.base + (arena.used + (32 + n))) tiled end)
                    heap.layout.tiles;
              each =
                  All-last arena (arena.used + (32 + n)) ps (ps ++ b ∷ []) IsArena before is_arena
                    heap.layout.each;
              off =
                  AllArenaOff-last arena (arena.used + (32 + n)) ps (ps ++ b ∷ []) before
                    heap.layout.off;
            };
            settled =
                All-snoc PartSettled before (part arena ps) (part arena' (ps ++ b ∷ []))
                  (Settled-busy ps b []
                    (held_part before (part arena ps) [] PartSettled heap.settled) in_use-listed tt)
                  heap.settled;
            assigned =
                put_back-All before arena' ps b [] [] IsAssigned
                  (in_use-detached, subst (λ l. All IsAssigned l) others heap.assigned);
            mapped =
                All-last arena (arena.used + (32 + n)) ps (ps ++ b ∷ []) (IsMapped w) before
                  (held_arena before (part arena ps) [] (IsMapped w) heap.mapped) heap.mapped;
          };
          same = λ x f. tagged-Foreign w.mem lo n false aligned (omega arith) in_use x f;
          arena_size = refl;
          process = refl;
        }))
