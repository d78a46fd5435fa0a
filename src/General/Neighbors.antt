-- ===== src/General/Neighbors.antt =====
-- The physical neighbours of a block that are free, within its arena.
use custom_memory_allocator.Base.{ℕ, ◌+◌, not, null, ◌||◌, sub64, ltb, leb, if◌then◌else◌}
use custom_memory_allocator.Run.{Cmd, check, reads, pure, ◌>>=◌, ◌>>◌}
use custom_memory_allocator.Block.{
  header_size, footer_size, is_free, footer_in_sync, next_physical_header, preceding_footer,
  header_from_footer,
}
use custom_memory_allocator.General.{General, owner}

-- The end of both functions: the candidate if it is free.
unfoldable pub if_free : ℕ → Cmd ℕ
if_free candidate = do
  free ← reads λ m. is_free m candidate
  if not free
      then pure null
      else (do in_sync ← reads λ m. footer_in_sync m candidate; check in_sync; pure candidate)

unfoldable pub right_neighbor_if_free : General → ℕ → Cmd ℕ
right_neighbor_if_free g block = do
  arena ← owner g block
  in_sync ← reads λ m. footer_in_sync m block
  check in_sync
  candidate ← reads λ m. next_physical_header m block
  if ltb candidate arena.base || ltb (arena.base + arena.used) (candidate + header_size)
      then pure null
      else if_free candidate

unfoldable pub left_neighbor_if_free : General → ℕ → Cmd ℕ
left_neighbor_if_free g block = do
  arena ← owner g block
  in_sync ← reads λ m. footer_in_sync m block
  check in_sync
  if ltb (sub64 block footer_size) arena.base then pure null else (do
    candidate ← reads λ m. header_from_footer m (preceding_footer block)
    if ltb candidate arena.base || leb block candidate then pure null else if_free candidate)
