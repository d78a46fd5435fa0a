-- ===== src/General/Heap/Adjacent.antt =====
-- right_neighbor_if_free and left_neighbor_if_free find the free blocks next to a block.
use custom_memory_allocator.Base.{
  ℕ, ◌+◌, ◌≤◌, ◌≡◌, refl, ◌∙◌, subst, inl, inr, true, false, null, List, [], ◌∷◌, ◌++◌, All,
  All-right, All-left, arith, leb, ltb, ◌||◌, sub64, if◌then◌else◌, snoc_cases, Bool-cases,
}
use custom_memory_allocator.Run.{World, done, pure, reads, ◌>>=◌}
use custom_memory_allocator.Block.{next_physical_header, preceding_footer, header_from_footer}
use custom_memory_allocator.Block.Tags.{
  IsBlock-next, IsBlock-in_sync, IsBlock-is_free, header_from_footer-next,
}
use custom_memory_allocator.General.{Arena, General, owner}
use custom_memory_allocator.General.Neighbors.{
  if_free, right_neighbor_if_free, left_neighbor_if_free,
}
use custom_memory_allocator.General.Store.{flag, Blk, IsGood}
use custom_memory_allocator.General.Heap.{Part, part, bag, Tiles, IsArena, PartTiles, IsLayout}
use custom_memory_allocator.General.Heap.Place.{
  Tiles-split, Tiles-le, owner-part, held_arena, held_part, held_blocks,
}

-- The block itself if its flag says that it is free.
abbrev pub taken_if_free : Blk → ℕ
taken_if_free b = if flag b.kind then b.addr else null

abbrev pub right_of : List Blk → ℕ
right_of [] = null
right_of (c ∷ qs) = taken_if_free c

abbrev pub left_of : List Blk → ℕ
left_of [] = null
left_of (c ∷ []) = taken_if_free c
left_of (c ∷ d ∷ ps) = left_of (d ∷ ps)

pub left_of-snoc : (ps : List Blk) (c : Blk) → left_of (ps ++ c ∷ []) ≡ taken_if_free c
left_of-snoc [] c = refl
left_of-snoc (p ∷ []) c = refl
left_of-snoc (p ∷ q ∷ ps) c = left_of-snoc (q ∷ ps) c

if_free-taken : (w : World) (b : Blk) → IsGood w.mem b → if_free b.addr w ≡ done (taken_if_free b) w
unfolding if_free
if_free-taken w b good = elim (Bool-cases (flag b.kind)) [
  | inl e ↦ let free = IsBlock-is_free good.tags ∙ e in rw (free, e, IsBlock-in_sync good.tags) refl
  | inr e ↦ let free = IsBlock-is_free good.tags ∙ e in rw (free, e) refl
]

-- What right_neighbor_if_free does with the address right behind a block.
right_choice :
    (w : World) (base used cand : ℕ) (qs : List Blk)
    → base ≤ cand
    → Tiles cand qs (base + used)
    → All (IsGood w.mem) qs
    → (if ltb cand base || ltb (base + used) (cand + 16) then pure null else if_free cand) w
      ≡ done (right_of qs) w
right_choice w base used cand [] lo tiles good =
    let above : ltb cand base ≡ false = ground arith in
    let end : ltb (base + used) (cand + 16) ≡ true = ground arith in rw (above, end) refl
right_choice w base used cand (c ∷ qs) lo tiles good =
    let hi = Tiles-le (cand + 32 + c.size) qs (base + used) tiles.1 in
    let above : ltb cand base ≡ false = ground arith in
    let inside : ltb (base + used) (cand + 16) ≡ false = ground arith in
    rw (above, inside)
      (subst (λ a. if_free a w ≡ done (taken_if_free c) w) tiles.0 (if_free-taken w c good.0))

-- What left_neighbor_if_free does: `c` is the block right in front of the address `block`.
left_choice :
    (w : World) (base block : ℕ) (c : Blk)
    → base ≤ c.addr
    → c.addr + 32 + c.size ≡ block
    → IsGood w.mem c
    → (if ltb (sub64 block 16) base then pure null else (do
      candidate ← reads λ m. header_from_footer m (preceding_footer block)
      if ltb candidate base || leb block candidate then pure null else if_free candidate))
        w
      ≡ done (taken_if_free c) w
left_choice w base block c lo e good =
    let low = good.low in
    let footer_inside : ltb (sub64 block 16) base ≡ false = ground arith in
    let next : next_physical_header w.mem c.addr ≡ block = IsBlock-next good.tags ∙ e in
    let found : header_from_footer w.mem (preceding_footer block) ≡ c.addr =
      subst (λ a. header_from_footer w.mem (preceding_footer a) ≡ c.addr) next
        (header_from_footer-next good.tags (omega arith)) in
    let above : ltb c.addr base ≡ false = ground arith in
    let before : leb block c.addr ≡ false = ground arith in
    rw (footer_inside, found, above, before) (if_free-taken w c good)

-- A block `b` of an arena, between the blocks `ps` and `qs`.
module _ (w : World) (g : General) (before behind : List Part) (arena : Arena) (ps : List Blk)
    (b : Blk) (qs : List Blk) (layout : IsLayout g (before ++ part arena (ps ++ b ∷ qs) ∷ behind))
    (good : All (IsGood w.mem) (bag (before ++ part arena (ps ++ b ∷ qs) ∷ behind))) where
  goods : All (IsGood w.mem) (ps ++ b ∷ qs)
  goods = held_blocks before (part arena (ps ++ b ∷ qs)) behind (IsGood w.mem) good

  this_block : IsGood w.mem b
  this_block = (All-right (IsGood w.mem) ps (b ∷ qs) goods).0

  is_arena : IsArena arena
  is_arena = held_arena before (part arena (ps ++ b ∷ qs)) behind IsArena layout.each

  places : Tiles arena.base ps b.addr × Tiles (b.addr + 32 + b.size) qs (arena.base + arena.used)
  places =
      Tiles-split arena.base ps b qs (arena.base + arena.used)
        (held_part before (part arena (ps ++ b ∷ qs)) behind PartTiles layout.tiles)

  pub owner-arena : owner g b.addr w ≡ done arena w
  owner-arena =
      let lo = Tiles-le arena.base ps b.addr places.0 in
      let hi = Tiles-le (b.addr + 32 + b.size) qs (arena.base + arena.used) places.1 in
      owner-part w g before (part arena (ps ++ b ∷ qs)) behind b.addr layout (omega arith)
        (omega arith)

  -- right_neighbor_if_free of a block answers with the block right behind it in its arena if there
  -- is one and it is free, and else with null. It fails no assertion and writes nothing.
  pub right_neighbor_if_free-right_of : right_neighbor_if_free g b.addr w ≡ done (right_of qs) w
  unfolding right_neighbor_if_free
  right_neighbor_if_free-right_of =
      rw (owner-arena, IsBlock-in_sync this_block.tags, IsBlock-next this_block.tags)
        (right_choice w arena.base arena.used (b.addr + 32 + b.size) qs
          (let lo = Tiles-le arena.base ps b.addr places.0 in omega arith) places.1
          (All-right (IsGood w.mem) ps (b ∷ qs) goods).1)

  -- left_neighbor_if_free of a block answers with the block right in front of it in its arena if
  -- there is one and it is free, and else with null. It fails no assertion and writes nothing.
  pub left_neighbor_if_free-left_of : left_neighbor_if_free g b.addr w ≡ done (left_of ps) w
  unfolding left_neighbor_if_free
  left_neighbor_if_free-left_of =
      rw (owner-arena, IsBlock-in_sync this_block.tags)
        (elim (snoc_cases ps) [
          | inl e ↦
              let first : Tiles arena.base [] b.addr = rw e at places.0 in
              let pos = is_arena.pos in
              let al = is_arena.aligned in
              let low = this_block.low in
              let out : ltb (sub64 b.addr 16) arena.base ≡ true = ground arith in rw (out, e) refl
          | inr (ps', c, e) ↦
              let (front, back) = Tiles-split arena.base ps' c [] b.addr (rw e at places.0) in
              let lo = Tiles-le arena.base ps' c.addr front in
              let goods_ps : All (IsGood w.mem) ps = All-left (IsGood w.mem) ps (b ∷ qs) goods in
              let good_c = (All-right (IsGood w.mem) ps' (c ∷ []) (rw e at goods_ps)).0 in
              rw (e, left_of-snoc ps' c) (left_choice w arena.base b.addr c lo back good_c)
        ])
