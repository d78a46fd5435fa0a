-- ===== src/General/Heap/Place.antt =====
-- Where a block stands among the others: its bytes lie in its arena, which `owner` finds.
use custom_memory_allocator.Base.{
  ℕ, ◌+◌, ◌≤◌, ◌<◌, ◌≡◌, refl, sym, ap, ◌∙◌, subst, true, false, some, List, [], ◌∷◌, ◌++◌, All,
  All-right, All-left, arith, leb, ltb, ◌&&◌,
}
use custom_memory_allocator.Run.{World, done}
use custom_memory_allocator.General.{Arena, General, arena_owning, owner}
use custom_memory_allocator.General.Store.{Blk}
use custom_memory_allocator.General.Heap.{
  Part, bag, arenas_of, Tiles, IsArena, ArenaOff, AllArenaOff, IsLayout,
}

-- A block that is tiled with others lies within their bytes, and so do those before and behind it.
pub Tiles-split :
    (lo : ℕ) (ps : List Blk) (b : Blk) (qs : List Blk) (hi : ℕ)
    → Tiles lo (ps ++ b ∷ qs) hi
    → Tiles lo ps b.addr × Tiles (b.addr + 32 + b.size) qs hi
Tiles-split lo [] b qs hi t = (sym t.0, subst (λ a. Tiles (a + 32 + b.size) qs hi) (sym t.0) t.1)
Tiles-split lo (p ∷ ps) b qs hi t =
    let (before, behind) = Tiles-split (lo + 32 + p.size) ps b qs hi t.1 in ((t.0, before), behind)

pub Tiles-join :
    (lo : ℕ) (ps : List Blk) (b : Blk) (qs : List Blk) (hi : ℕ)
    → Tiles lo ps b.addr
    → Tiles (b.addr + 32 + b.size) qs hi
    → Tiles lo (ps ++ b ∷ qs) hi
Tiles-join lo [] b qs hi t u = (sym t, subst (λ a. Tiles (a + 32 + b.size) qs hi) (sym t) u)
Tiles-join lo (p ∷ ps) b qs hi t u = (t.0, Tiles-join (lo + 32 + p.size) ps b qs hi t.1 u)

pub Tiles-le : (lo : ℕ) (bs : List Blk) (hi : ℕ) → Tiles lo bs hi → lo ≤ hi
Tiles-le lo [] hi t = omega arith
Tiles-le lo (b ∷ bs) hi t = let rest = Tiles-le (lo + 32 + b.size) bs hi t.1 in omega arith

pub held_arena :
    (before : List Part) (p : Part) (behind : List Part) (P : Arena → Type 0)
    → All P (arenas_of (before ++ p ∷ behind))
    → P p.arena
held_arena [] p behind P h = h.0
held_arena (q ∷ before) p behind P h = held_arena before p behind P h.1

-- Another part in the same place.
pub exchange_arena :
    (before : List Part) (p q : Part) (behind : List Part) (P : Arena → Type 0)
    → (P p.arena → P q.arena)
    → All P (arenas_of (before ++ p ∷ behind))
    → All P (arenas_of (before ++ q ∷ behind))
exchange_arena [] p q behind P f h = (f h.0, h.1)
exchange_arena (r ∷ before) p q behind P f h = (h.0, exchange_arena before p q behind P f h.1)

pub held_part :
    (before : List Part) (p : Part) (behind : List Part) (P : Part → Type 0)
    → All P (before ++ p ∷ behind)
    → P p
held_part [] p behind P h = h.0
held_part (q ∷ before) p behind P h = held_part before p behind P h.1

pub held_blocks :
    (before : List Part) (p : Part) (behind : List Part) (P : Blk → Type 0)
    → All P (bag (before ++ p ∷ behind))
    → All P p.blocks
held_blocks [] p behind P h = All-left P p.blocks (bag behind) h
held_blocks (q ∷ before) p behind P h =
    held_blocks before p behind P (All-right P q.blocks (bag (before ++ p ∷ behind)) h)

-- The arena of a part is the first one that an address of its used bytes lies in.
arena_owning-part :
    (before : List Part) (p : Part) (behind : List Part) (x : ℕ)
    → All IsArena (arenas_of (before ++ p ∷ behind))
    → AllArenaOff (arenas_of (before ++ p ∷ behind))
    → p.arena.base ≤ x
    → x < p.arena.base + p.arena.used
    → arena_owning (arenas_of (before ++ p ∷ behind)) x ≡ some p.arena
unfolding arena_owning
arena_owning-part [] p behind x each off lo hi =
    let from : leb p.arena.base x ≡ true = ground arith in
    let upto : ltb x (p.arena.base + p.arena.used) ≡ true = ground arith in rw (from, upto) refl
arena_owning-part (q ∷ before) p behind x each off lo hi =
    let other : ArenaOff q.arena p.arena = held_arena before p behind (ArenaOff q.arena) off.0 in
    let mine : IsArena p.arena = held_arena before p behind IsArena each.1 in
    let u = mine.used in
    let v = each.0.used in
    let miss : (leb q.arena.base x && ltb x (q.arena.base + q.arena.used)) ≡ false = ground arith in
    rw miss (arena_owning-part before p behind x each.1 off.1 lo hi)

pub owner-part :
    (w : World) (g : General) (before : List Part) (p : Part) (behind : List Part) (x : ℕ)
    → IsLayout g (before ++ p ∷ behind)
    → p.arena.base ≤ x
    → x < p.arena.base + p.arena.used
    → owner g x w ≡ done p.arena w
unfolding owner
owner-part w g before p behind x layout lo hi =
    let e : arena_owning g.arenas x ≡ some p.arena =
      ap (λ as'. arena_owning as' x) layout.arenas
      ∙ arena_owning-part before p behind x layout.each layout.off lo hi in
    rw (owner, e) refl
