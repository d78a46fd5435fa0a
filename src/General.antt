-- ===== src/General.antt =====
-- The general path of src/allocator.cpp: arenas that the bump pointer carves blocks out of, and the
-- list of free blocks.
pub mod Neighbors
pub mod Blocks
pub mod Align
pub mod Store
pub mod Heap
use custom_memory_allocator.Base.{
  ℕ, ◌+◌, ◌*◌, ◌/◌, List, [], ◌∷◌, ◌++◌, Option, none, some, Bool, true, false, not, null, add64,
  sub64, ltb, leb, ◌&&◌, ◌==◌, if◌then◌else◌,
}
use custom_memory_allocator.Run.{OsRegion, Cmd, assertion_failed, pure, ◌>>=◌, ◌>>◌}
use custom_memory_allocator.Os.{Platform, os_acquire, os_release}
use custom_memory_allocator.Block.{header_size, footer_size, links_size}
use custom_memory_allocator.FreeList.{FreeList}

pub record Arena : Type 0 where
  pub base : ℕ
  pub size : ℕ
  pub used : ℕ

-- arena_size(), arenas() and free_list().
pub record General : Type 0 where
  pub arena_size : ℕ
  pub arenas : List Arena
  pub free_list : FreeList

abbrev pub default_arena_size : ℕ
default_arena_size = 1024 * 1024

-- `(size + 15) & ~15` on a word
unfoldable pub align_up : ℕ → ℕ
align_up size = sub64 (add64 size 16) 1 / 16 * 16

abbrev pub min_block_size : ℕ
min_block_size = header_size + links_size + footer_size

abbrev pub back : List Arena → Option Arena
back [] = none
back (a ∷ []) = some a
back (a ∷ b ∷ as') = back (b ∷ as')

abbrev pub set_back : List Arena → Arena → List Arena
set_back [] c = []
set_back (a ∷ []) c = c ∷ []
set_back (a ∷ b ∷ as') c = a ∷ set_back (b ∷ as') c

abbrev has_room : ℕ → Option Arena → Bool
has_room needed none = false
has_room needed (some a) = leb needed (sub64 a.size a.used)

abbrev push_arena : General → Option OsRegion → Option Arena × General
push_arena g none = (none, g)
push_arena g (some region) =
    let fresh : Arena = record { base = region.base; size = region.size; used = 0 } in
    (some fresh, record g { arenas = g.arenas ++ fresh ∷ [] })

-- The arena that is returned is the last one.
unfoldable pub arena_with_room : Platform → General → ℕ → Cmd (Option Arena × General)
arena_with_room p g needed =
    if has_room needed (back g.arenas) then pure (back g.arenas, g) else (do
      region ← os_acquire p (if ltb g.arena_size needed then needed else g.arena_size)
      pure (push_arena g region))

unfoldable pub arena_owning : List Arena → ℕ → Option Arena
arena_owning [] addr = none
arena_owning (a ∷ as') addr =
    if leb a.base addr && ltb addr (a.base + a.used) then some a else arena_owning as' addr

-- The arena of a block, which an assertion says is there.
unfoldable pub owner : General → ℕ → Cmd Arena
owner g block = elim (arena_owning g.arenas block) [
  | none ↦ λ w. assertion_failed
  | some a ↦ pure a
]

unfoldable pub release_arenas : Platform → List Arena → Cmd (Unit {0})
release_arenas p [] = pure tt
release_arenas p (a ∷ as') = do released ← os_release p a.base a.size; release_arenas p as'

-- The bytes carved so far: no fewer than there are blocks.
unfoldable pub carved : List Arena → ℕ
carved [] = 0
carved (a ∷ as') = a.used + carved as'
