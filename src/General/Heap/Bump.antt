-- ===== src/General/Heap/Bump.antt =====
-- The branch of my_malloc that carves a new block, in the last arena or in a new one.
use mathlib.Core.List.{append-nil}
use custom_memory_allocator.Base.{
  ℕ, ◌+◌, ◌-◌, ◌≤◌, ◌^◌, ◌%◌, ◌≡◌, ◌⊎◌, refl, sym, ap, ◌∙◌, subst, true, false, null, List, [], ◌∷◌,
  ◌++◌, Option, none, some, All, All-map, All-append, In, In-All, inl, inr, arith, ltb, add64,
  Bool-cases, lt_cases, if◌then◌else◌, snoc_cases,
}
use custom_memory_allocator.Run.{OsRegion, World, pure, ◌>>=◌}
use custom_memory_allocator.Run.Ends.{Ends, ends, Ends-continue, Ends-weaken}
use custom_memory_allocator.Os.{Platform, os_acquire}
use custom_memory_allocator.Os.Laws.{
  Denied, Refuses, IsKernel, IsDisjoint, IsAcquired, Acquired, os_acquire-Acquired, MappedByte,
}
use custom_memory_allocator.General.{Arena, General, back, arena_with_room, has_room, push_arena}
use custom_memory_allocator.General.Blocks.{carve_block, bump}
use custom_memory_allocator.General.Store.{Foreign, in_use, Blk, blk, IsStore}
use custom_memory_allocator.General.Store.Replace.{IsStore-replace}
use custom_memory_allocator.General.Heap.{
  Part, part, bag, arenas_of, area, IsArena, ArenaOff, OffArena, AllArenaOff, PartTiles,
  PartSettled, IsMapped, IsAssigned, IsHeap,
}
use custom_memory_allocator.General.Heap.Place.{held_arena, exchange_arena}
use custom_memory_allocator.General.Heap.Middle.{append_assoc}
use custom_memory_allocator.General.Heap.Carve.{
  ArenaClear, bag-OffRange, bag-snoc, back-arenas_of, with_used, carve_block-Carved,
}

module _ (parts : List Part) (arena : Arena) (bs : List Blk) where
  arenas_of-snoc : arenas_of (parts ++ part arena bs ∷ []) ≡ arenas_of parts ++ arena ∷ []
  arenas_of-snoc = snoc_arena parts
    where
      snoc_arena :
          (parts : List Part)
          → arenas_of (parts ++ part arena bs ∷ []) ≡ arenas_of parts ++ arena ∷ []
      snoc_arena [] = refl
      snoc_arena (p ∷ parts) = ap (λ l. p.arena ∷ l) (snoc_arena parts)

All-arenas_of-snoc :
    (P : Arena → Type 0) (parts : List Part) (arena : Arena) (bs : List Blk)
    → All P (arenas_of parts)
    → P arena
    → All P (arenas_of (parts ++ part arena bs ∷ []))
All-arenas_of-snoc P [] arena bs hs h = (h, tt)
All-arenas_of-snoc P (p ∷ parts) arena bs hs h = (hs.0, All-arenas_of-snoc P parts arena bs hs.1 h)

AllArenaOff-snoc :
    (parts : List Part) (arena : Arena) (bs : List Blk)
    → AllArenaOff (arenas_of parts)
    → All (λ a. ArenaOff a arena) (arenas_of parts)
    → AllArenaOff (arenas_of (parts ++ part arena bs ∷ []))
AllArenaOff-snoc [] arena bs off hs = (tt, tt)
AllArenaOff-snoc (p ∷ parts) arena bs off hs = (
  All-arenas_of-snoc (ArenaOff p.arena) parts arena bs off.0 hs.0,
  AllArenaOff-snoc parts arena bs off.1 hs.1,
)

-- A fresh area is clear of the arenas, which are mapped.
fresh-ArenaOff :
    (w : World) (region : OsRegion) (arenas : List Arena)
    → All (IsMapped w) arenas
    → All (IsDisjoint region.base region.size) w.process.mapped
    → All (λ a. ArenaOff a (record { base = region.base; size = region.size; used = 0 })) arenas
fresh-ArenaOff w region [] mapped clear = tt
fresh-ArenaOff w region (a ∷ arenas) mapped clear =
    let apart =
      In-All (IsDisjoint region.base region.size) w.process.mapped (area a) mapped.0 clear in
    (ground arith, fresh-ArenaOff w region arenas mapped.1 clear)

fresh-ArenaClear :
    (region : OsRegion) (arenas : List Arena)
    → All (λ a. ArenaOff a (record { base = region.base; size = region.size; used = 0 })) arenas
    → All IsArena arenas
    → All (ArenaClear region.base (region.base + region.size)) arenas
fresh-ArenaClear region [] off each = tt
fresh-ArenaClear region (a ∷ arenas) off each =
    let used = each.0.used in
    let apart = off.0 in (ground arith, fresh-ArenaClear region arenas off.1 each.1)

abbrev fresh_arena : OsRegion → Arena
fresh_arena region = record { base = region.base; size = region.size; used = 0 }

-- A new arena without blocks behind the others.
pushed-IsHeap :
    (w w1 : World) (g : General) (parts : List Part) (need : ℕ) (region : OsRegion)
    → IsHeap w g parts
    → IsAcquired need w region w1
    → IsHeap w1
        (record g { arenas = g.arenas ++ fresh_arena region ∷ [] })
        (parts ++ part (fresh_arena region) [] ∷ [])
pushed-IsHeap w w1 g parts need region heap got =
    let fresh = fresh_arena region in
    let off = fresh-ArenaOff w region (arenas_of parts) heap.mapped got.clear in
    let clear =
      bag-OffRange region.base (region.base + region.size) parts heap.layout.tiles
        (fresh-ArenaClear region (arenas_of parts) off heap.layout.each) in
    let whole : bag parts ≡ bag (parts ++ part fresh [] ∷ []) =
      sym (bag-snoc parts fresh [] ∙ append-nil (bag parts ++ []) ∙ append-nil (bag parts)) in
    let page = got.aligned in
    let is_arena : IsArena fresh = record {
      pos = got.pos;
      aligned = omega arith;
      used = omega arith;
      low = got.low;
    } in
    let base_end : region.base ≡ region.base + 0 = omega arith in
    record {
      xs = heap.xs;
      store =
          subst (λ l. IsStore w1.mem g.free_list l heap.xs) whole
            (IsStore-replace w.mem w1.mem g.free_list [] [] (bag parts) heap.xs region.base
              (region.base + region.size) heap.store tt clear got.same tt tt tt tt);
      layout = record {
        arenas = ap (λ l. l ++ fresh ∷ []) heap.layout.arenas ∙ sym (arenas_of-snoc parts fresh []);
        tiles = All-append PartTiles parts (part fresh [] ∷ []) heap.layout.tiles (base_end, tt);
        each = All-arenas_of-snoc IsArena parts fresh [] heap.layout.each is_arena;
        off = AllArenaOff-snoc parts fresh [] heap.layout.off off;
      };
      settled = All-append PartSettled parts (part fresh [] ∷ []) heap.settled (tt, tt);
      assigned = subst (λ l. All IsAssigned l) whole heap.assigned;
      mapped =
          All-arenas_of-snoc (IsMapped w1) parts fresh []
            (All-map (IsMapped w) (IsMapped w1) (arenas_of parts) (λ a i. rw got.mapped (inr i))
              heap.mapped)
            (rw got.mapped (inl refl));
    }

-- What a request that succeeds at the end of an arena leaves.
pub record Bumped (w : World) (g : General) (parts : List Part) (n : ℕ) (out : ℕ × General)
    (w' : World) : Type 0 where
  pub parts' : List Part
  pub addr : ℕ
  pub pointer : out.0 ≡ addr + 16
  pub heap : IsHeap w' out.1 parts'
  pub blocks : bag parts' ≡ bag parts ++ blk addr n in_use ∷ []
  pub same : (x : ℕ) → Foreign x (blk addr n in_use) → MappedByte w x → w'.mem x ≡ w.mem x
  pub lands :
      (x : ℕ)
      → MappedByte w x
      → All (OffArena x) (arenas_of parts)
      → All (OffArena x) (arenas_of parts')
  pub arena_size : out.1.arena_size ≡ g.arena_size
  pub mapped : (r : OsRegion) → In r w.process.mapped → In r w'.process.mapped
  pub held : w'.process.held ≡ w.process.held

-- What a request that fails leaves.
pub record Refused (p : Platform) (w : World) (g : General) (n : ℕ) (out : ℕ × General) (w' : World)
    : Type 0 where
  pub pointer : out.0 ≡ null
  pub general : out.1 ≡ g
  pub world : w' ≡ w
  pub denied : Denied p w (32 + n)

bag-grown :
    (before : List Part) (arena arena' : Arena) (ps : List Blk) (b : Blk)
    → bag (before ++ part arena' (ps ++ b ∷ []) ∷ []) ≡ bag (before ++ part arena ps ∷ []) ++ b ∷ []
bag-grown before arena arena' ps b =
    bag-snoc before arena' (ps ++ b ∷ [])
    ∙ append-nil (bag before ++ (ps ++ b ∷ []))
    ∙ sym (append_assoc (bag before) ps (b ∷ []))
    ∙ ap (λ l. l ++ b ∷ []) (sym (bag-snoc before arena ps ∙ append-nil (bag before ++ ps)))

-- Carving in the last arena.
carve_here :
    (w : World) (g : General) (before : List Part) (arena : Arena) (ps : List Blk) (n : ℕ)
    → IsHeap w g (before ++ part arena ps ∷ [])
    → arena.used + (32 + n) ≤ arena.size
    → n % 16 ≡ 0
    → 16 ≤ n
    → Ends (Bumped w g (before ++ part arena ps ∷ []) n) (carve_block g (some arena) n (32 + n) w)
carve_here w g before arena ps n heap room aligned wide =
    let u = arena.used + (32 + n) in
    let b = blk (arena.base + arena.used) n in_use in
    Ends-weaken (carve_block-Carved w g before arena ps n heap room aligned wide) λ out w' c.
      record {
        parts' = before ++ part (with_used arena u) (ps ++ b ∷ []) ∷ [];
        addr = arena.base + arena.used;
        pointer = c.pointer;
        heap = c.heap;
        blocks = bag-grown before arena (with_used arena u) ps b;
        same = λ x f m. c.same x f;
        lands = λ x m off.
            exchange_arena before (part arena ps) (part (with_used arena u) (ps ++ b ∷ [])) []
              (OffArena x) (λ h. h) off;
        arena_size = c.arena_size;
        mapped = λ r i. rw c.process i;
        held = ap (λ q. q.held) c.process;
      }

-- Carving in a fresh arena.
carve_fresh :
    (w w1 : World) (g : General) (parts : List Part) (need n : ℕ) (region : OsRegion)
    → IsHeap w g parts
    → IsAcquired need w region w1
    → 32 + n ≤ need
    → n % 16 ≡ 0
    → 16 ≤ n
    → Ends (Bumped w g parts n) (
        carve_block
          (record g { arenas = g.arenas ++ fresh_arena region ∷ [] })
          (some (fresh_arena region))
          n
          (32 + n)
          w1)
carve_fresh w w1 g parts need n region heap got fits aligned wide =
    let g1 : General = record g { arenas = g.arenas ++ fresh_arena region ∷ [] } in
    let room = got.room in
    let whole : bag (parts ++ part (fresh_arena region) [] ∷ []) ≡ bag parts =
      bag-snoc parts (fresh_arena region) []
      ∙ append-nil (bag parts ++ [])
      ∙ append-nil (bag parts) in
    Ends-weaken
      (carve_here w1 g1 parts (fresh_arena region) [] n
        (pushed-IsHeap w w1 g parts need region heap got) (omega arith) aligned wide)
      λ out w' c. record {
        parts' = c.parts';
        addr = c.addr;
        pointer = c.pointer;
        heap = c.heap;
        blocks = c.blocks ∙ ap (λ l. l ++ blk c.addr n in_use ∷ []) whole;
        same = λ x f (r, i, lo, hi).
            let apart =
              In-All (IsDisjoint region.base region.size) w.process.mapped r i got.clear in
            c.same x f (r, rw got.mapped (inr i), lo, hi) ∙ got.same x (ground arith);
        lands = λ x (r, i, lo, hi) off.
            let apart =
              In-All (IsDisjoint region.base region.size) w.process.mapped r i got.clear in
            c.lands x (r, rw got.mapped (inr i), lo, hi)
              (All-arenas_of-snoc (OffArena x) parts (fresh_arena region) [] off
                (ground (arith, apart)));
        arena_size = c.arena_size;
        mapped = λ r i. c.mapped r (rw got.mapped (inr i));
        held = c.held ∙ got.held;
      }

after_acquire :
    (p : Platform) (w w1 : World) (g : General) (parts : List Part) (need n : ℕ)
    (region : Option OsRegion)
    → IsHeap w g parts
    → Acquired p need w region w1
    → 32 + n ≤ need
    → n % 16 ≡ 0
    → 16 ≤ n
    → Ends
        (λ out w'. Refused p w g n out w' ⊎ Bumped w g parts n out w')
        (carve_block (push_arena g region).1 (push_arena g region).0 n (32 + n) w1)
unfolding carve_block
after_acquire p w w1 g parts need n none heap got fits aligned wide =
    let refused : Refuses p w need = elim got.1 [
      | inl none_needed ↦ absurd (omega (arith, none_needed, fits))
      | inr refused ↦ refused
    ] in
    ends (
      inl
        (record { pointer = refl; general = refl; world = got.0; denied = (need, fits, refused) }))
after_acquire p w w1 g parts need n (some region) heap got fits aligned wide =
    Ends-weaken (carve_fresh w w1 g parts need n region heap got fits aligned wide)
      λ out w' c. inr c

-- What a new arena comes with.
record Pushed (p : Platform) (w : World) (g : General) (needed : ℕ) (r : Option Arena × General)
    (w1 : World) : Type 0 where
  need : ℕ
  region : Option OsRegion
  acquired : Acquired p need w region w1
  enough : needed ≤ need
  pushed : r ≡ push_arena g region

push-Ends :
    (p : Platform) (w : World) (g : General) (needed : ℕ)
    → IsKernel p
    → needed ≤ 2 ^ 64 - 4096
    → g.arena_size ≤ 2 ^ 63
    → Ends (Pushed p w g needed) (
        (do
          region ← os_acquire p (if ltb g.arena_size needed then needed else g.arena_size)
          pure (push_arena g region))
          w)
push-Ends p w g needed k fits modest = elim (lt_cases g.arena_size needed) [
  | inl less ↦
      let e : ltb g.arena_size needed ≡ true = ground arith in
      rw e (
        Ends-continue (os_acquire-Acquired p needed w k fits) λ region w1 got. ends (record {
          need = needed;
          region = region;
          acquired = got;
          enough = omega arith;
          pushed = refl;
        }))
  | inr more ↦
      let e : ltb g.arena_size needed ≡ false = ground arith in
      rw e (
        Ends-continue (os_acquire-Acquired p g.arena_size w k (omega arith)) λ region w1 got.
          ends (record {
            need = g.arena_size;
            region = region;
            acquired = got;
            enough = more;
            pushed = refl;
          }))
]

-- The room that the test finds is that of the last arena.
last_room :
    (g : General) (parts : List Part) (w : World) (needed : ℕ)
    → IsHeap w g parts
    → has_room needed (back g.arenas) ≡ true
    → (before : List Part) × (arena : Arena) × (ps : List Blk) × (parts
        ≡ before ++ part arena ps ∷ [])
      × (back g.arenas ≡ some arena)
      × (arena.used + needed ≤ arena.size)
last_room g parts w needed heap e = elim (snoc_cases parts) [
  | inl none_yet ↦
      let back_none : back g.arenas ≡ none =
        ap back heap.layout.arenas ∙ ap (λ l. back (arenas_of l)) none_yet in
      let no : has_room needed none ≡ true = rw back_none at e in cc
  | inr (before, p, split) ↦
      let last : back g.arenas ≡ some p.arena =
        ap back heap.layout.arenas
        ∙ ap (λ l. back (arenas_of l)) split
        ∙ back-arenas_of before p.arena p.blocks in
      let found : has_room needed (some p.arena) ≡ true = rw last at e in
      let each : All IsArena (arenas_of (before ++ p ∷ [])) = rw split at heap.layout.each in
      let a = held_arena before p [] IsArena each in
      let used = a.used in let low = a.low in (before, p.arena, p.blocks, split, last, ground arith)
]

-- bump, on a heap that is whole, either fails and changes nothing, or puts a block in use of `n` bytes
-- behind the others, in the last arena or in a fresh one; the heap is whole then, the other
-- blocks are as they were, and every byte of a mapped area outside the new block keeps its value.
pub bump-Bumped :
    (p : Platform) (w : World) (g : General) (parts : List Part) (n : ℕ)
    → IsKernel p
    → IsHeap w g parts
    → n % 16 ≡ 0
    → 16 ≤ n
    → n ≤ 2 ^ 63
    → g.arena_size ≤ 2 ^ 63
    → Ends (λ out w'. Refused p w g n out w' ⊎ Bumped w g parts n out w') (bump p g n w)
unfolding bump arena_with_room
bump-Bumped p w g parts n k heap aligned wide small modest =
    let needed : add64 (add64 16 n) 16 ≡ 32 + n = omega arith in
    rw needed (elim (Bool-cases (has_room (32 + n) (back g.arenas))) [
      | inl e ↦
          let (before, arena, ps, split, last, room) = last_room g parts w (32 + n) heap e in
          let heap' = subst (λ l. IsHeap w g l) split heap in
          rw (e, last, split)
            (Ends-weaken (carve_here w g before arena ps n heap' room aligned wide)
              λ out w' c. inr c)
      | inr e ↦ rw e (
          Ends-continue (push-Ends p w g (32 + n) k (omega arith) modest) λ r w1 got.
            rw got.pushed (
              after_acquire p w w1 g parts got.need n got.region heap got.acquired got.enough
                aligned wide))
    ])
