-- ===== src/General/Blocks.antt =====
-- Splitting, coalescing and carving of blocks, and the general-path parts of my_malloc, my_free and
-- my_realloc.
use custom_memory_allocator.Base.{
  ℕ, ◌+◌, Option, none, some, true, false, null, add64, sub64, ltb, leb, ◌==◌, if◌then◌else◌,
}
use custom_memory_allocator.Memory.{Memory}
use custom_memory_allocator.Run.{Cmd, check, reads, writes, pure, ◌>>=◌, ◌>>◌}
use custom_memory_allocator.Os.{Platform}
use custom_memory_allocator.Block.{
  header_size, footer_size, get_size, set_size, set_free, construct, sync_footer, payload,
  next_physical_header,
}
use custom_memory_allocator.FreeList.{FreeList, insert, remove, find_first_fit}
use custom_memory_allocator.General.{
  Arena, General, align_up, min_block_size, set_back, arena_with_room, owner, carved,
}
use custom_memory_allocator.General.Neighbors.{right_neighbor_if_free, left_neighbor_if_free}

abbrev pub header_of : ℕ → ℕ
header_of ptr = sub64 ptr header_size

unfoldable pub combined_payload_size : Memory → (first second : ℕ) → ℕ
combined_payload_size m first second =
    add64 (add64 (add64 (get_size m first) footer_size) header_size) (get_size m second)

abbrev pub with_list : General → FreeList → General
with_list g list = record g { free_list = list }

-- `first` takes over the bytes of the block behind it.
unfoldable pub merge : ℕ → ℕ → Cmd (Unit {0})
merge first second = do
  size ← reads λ m. combined_payload_size m first second
  writes (set_size first size)
  writes (sync_footer first)

unfoldable pub absorb_right_neighbor : General → (block right : ℕ) → Cmd General
absorb_right_neighbor g block right = do
  list ← remove g.free_list right
  merge block right
  pure (with_list g list)

unfoldable pub maybe_split : General → ℕ → ℕ → Cmd General
maybe_split g header payload_size = do
  whole ← reads λ m. get_size m header
  check (leb payload_size whole)
  let remainder = sub64 whole payload_size
  if ltb remainder min_block_size then pure g else (do
    writes (set_size header payload_size)
    writes (sync_footer header)
    rest ← reads λ m. next_physical_header m header
    writes (construct rest (sub64 (sub64 remainder header_size) footer_size) true)
    writes (sync_footer rest)
    list ← insert g.free_list rest
    pure (with_list g list))

-- The branch of my_malloc that reuses a free block.
unfoldable pub reuse : General → ℕ → ℕ → Cmd (ℕ × General)
reuse g reused payload_size = do
  list ← remove g.free_list reused
  g' ← maybe_split (with_list g list) reused payload_size
  writes (set_free reused false)
  ptr ← payload reused
  pure (ptr, g')

-- The branch of my_malloc that carves a new block.
unfoldable pub carve_block : General → Option Arena → (payload_size needed : ℕ) → Cmd (ℕ × General)
carve_block g none payload_size needed = pure (null, g)
carve_block g (some arena) payload_size needed = do
  let block = arena.base + arena.used
  writes (construct block payload_size false)
  writes (sync_footer block)
  ptr ← payload block
  let arena' : Arena = record {
    base = arena.base;
    size = arena.size;
    used = add64 arena.used needed;
  }
  pure (ptr, record g { arenas = set_back g.arenas arena' })

unfoldable pub bump : Platform → General → ℕ → Cmd (ℕ × General)
unfolding carve_block
bump p g payload_size = do
  let needed = add64 (add64 header_size payload_size) footer_size
  (arena, g') ← arena_with_room p g needed
  carve_block g' arena payload_size needed

-- my_malloc behind the general path's lock.
unfoldable pub malloc_general : Platform → General → ℕ → Cmd (ℕ × General)
malloc_general p g size = do
  let payload_size = align_up size
  reused ← find_first_fit (carved g.arenas + 1) g.free_list payload_size
  if reused == null then bump p g payload_size else reuse g reused payload_size

unfoldable pub coalesce_right : General → ℕ → Cmd General
coalesce_right g block = do
  right ← right_neighbor_if_free g block
  if right == null then pure g else absorb_right_neighbor g block right

unfoldable pub coalesce_left : General → ℕ → Cmd (ℕ × General)
coalesce_left g block = do
  left ← left_neighbor_if_free g block
  if left == null
      then pure (block, g)
      else (do list ← remove g.free_list left; merge left block; pure (left, with_list g list))

-- my_free behind the general path's lock.
unfoldable pub free_general : General → ℕ → Cmd General
free_general g ptr = do
  let header = header_of ptr
  arena ← owner g header
  writes (set_free header true)
  g1 ← coalesce_right g header
  (merged, g2) ← coalesce_left g1 header
  list ← insert g2.free_list merged
  pure (with_list g2 list)

-- What my_realloc finds out behind the general path's lock: the block stays where it is, or has to
-- move and holds this many bytes.
pub data Regrowth : Type 0 where
  in_place : Regrowth
  must_move : ℕ → Regrowth

unfoldable pub grow_right :
    General → (header old_payload_size new_payload_size : ℕ) → Cmd (Regrowth × General)
grow_right g header old_payload_size new_payload_size = do
  right ← right_neighbor_if_free g header
  if right == null then pure (must_move old_payload_size, g) else (do
    combined ← reads λ m. combined_payload_size m header right
    if leb new_payload_size combined
        then (do
          g1 ← absorb_right_neighbor g header right
          g2 ← maybe_split g1 header new_payload_size
          pure (in_place, g2))
        else pure (must_move old_payload_size, g))

unfoldable pub realloc_general : General → ℕ → ℕ → Cmd (Regrowth × General)
realloc_general g ptr new_size = do
  let header = header_of ptr
  arena ← owner g header
  old_payload_size ← reads λ m. get_size m header
  let new_payload_size = align_up new_size
  if leb new_payload_size old_payload_size
      then pure (in_place, g)
      else grow_right g header old_payload_size new_payload_size
