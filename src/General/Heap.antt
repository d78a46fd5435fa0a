-- ===== src/General/Heap.antt =====
-- The whole of the general path: the blocks tile the used bytes of each arena, and the bag of all of
-- them is well-formed.
pub mod Place
pub mod Adjacent
pub mod Middle
pub mod CoalesceRight
pub mod CoalesceLeft
pub mod Settle
pub mod Free
pub mod Reuse
pub mod Regrow
pub mod Carve
pub mod Bump
pub mod Fuel
pub mod Malloc
use custom_memory_allocator.Base.{
  ℕ, ◌+◌, ◌≤◌, ◌<◌, ◌^◌, ◌%◌, ◌≡◌, ◌≢◌, ◌⊎◌, List, [], ◌∷◌, ◌++◌, All, In,
}
use custom_memory_allocator.Run.{OsRegion, World}
use custom_memory_allocator.General.{Arena, General}
use custom_memory_allocator.General.Store.{Kind, listed, detached, Blk, blk, IsStore}

-- An arena and its blocks, by address.
pub record Part : Type 0 where
  pub arena : Arena
  pub blocks : List Blk

abbrev pub part : Arena → List Blk → Part
part arena blocks = record { arena = arena; blocks = blocks }

abbrev pub bag : List Part → List Blk
bag [] = []
bag (p ∷ parts) = p.blocks ++ bag parts

abbrev pub arenas_of : List Part → List Arena
arenas_of [] = []
arenas_of (p ∷ parts) = p.arena ∷ arenas_of parts

-- The blocks lie one behind the other and fill the bytes from `lo` up to `hi`.
abbrev pub Tiles : ℕ → List Blk → ℕ → Type 0
Tiles lo [] hi = lo ≡ hi
Tiles lo (b ∷ bs) hi = (b.addr ≡ lo) × Tiles (lo + 32 + b.size) bs hi

-- The two blocks are not both free.
abbrev pub Parted : Blk → Blk → Type 0
Parted b c = (b.kind ≢ listed) ⊎ (c.kind ≢ listed)

-- In a caller's hands or on the list.
abbrev pub IsAssigned : Blk → Type 0
IsAssigned b = b.kind ≢ detached

-- No two neighbours are free.
abbrev pub Settled : List Blk → Type 0
Settled [] = Unit {0}
Settled (b ∷ []) = Unit {0}
Settled (b ∷ c ∷ bs) = Parted b c × Settled (c ∷ bs)

pub record IsArena (a : Arena) : Type 0 where
  pub pos : 0 < a.base
  pub aligned : a.base % 16 ≡ 0
  pub used : a.used ≤ a.size
  pub low : a.base + a.size ≤ 2 ^ 47

abbrev pub ArenaOff : Arena → Arena → Type 0
ArenaOff a b = (a.base + a.size ≤ b.base) ⊎ (b.base + b.size ≤ a.base)

abbrev pub AllArenaOff : List Arena → Type 0
AllArenaOff [] = Unit {0}
AllArenaOff (a ∷ as') = All (ArenaOff a) as' × AllArenaOff as'

-- The byte lies outside the arena.
abbrev pub OffArena : ℕ → Arena → Type 0
OffArena x a = (x < a.base) ⊎ (a.base + a.size ≤ x)

abbrev pub PartTiles : Part → Type 0
PartTiles p = Tiles p.arena.base p.blocks (p.arena.base + p.arena.used)

abbrev pub PartSettled : Part → Type 0
PartSettled p = Settled p.blocks

abbrev pub area : Arena → OsRegion
area a = record { base = a.base; size = a.size }

abbrev pub IsMapped : World → Arena → Type 0
IsMapped w a = In (area a) w.process.mapped

-- What the arenas and the blocks are, whatever memory holds.
pub record IsLayout (g : General) (parts : List Part) : Type 0 where
  pub arenas : g.arenas ≡ arenas_of parts
  pub tiles : All PartTiles parts
  pub each : All IsArena (arenas_of parts)
  pub off : AllArenaOff (arenas_of parts)

pub record IsHeap (w : World) (g : General) (parts : List Part) : Type 0 where
  pub xs : List ℕ
  pub store : IsStore w.mem g.free_list (bag parts) xs
  pub layout : IsLayout g parts
  pub settled : All PartSettled parts
  pub assigned : All IsAssigned (bag parts)
  pub mapped : All (IsMapped w) (arenas_of parts)
