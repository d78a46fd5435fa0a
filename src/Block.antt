-- ===== src/Block.antt =====
-- include/block.hpp: the header and the footer of a general-path block. A block is named by the
-- address of its header. The header's first word holds the payload size with the free flag in its
-- lowest bit; `x & ~1` on a word is `x / 2 * 2`, and `x & 1` is `x % 2`.
pub mod Tags
use custom_memory_allocator.Base.{
  ℕ, ◌+◌, ◌*◌, ◌/◌, ◌%◌, Bool, not, null, sub64, ◌==◌, if◌then◌else◌,
}
use custom_memory_allocator.Memory.{Memory, read_word, write_word}
use custom_memory_allocator.Run.{Cmd, check, reads, writes, pure, ◌>>=◌, ◌>>◌}

-- sizeof(BlockHeader), sizeof(BlockFooter), sizeof(FreeListLinks); the first two are padded to
-- alignof(std::max_align_t).
abbrev pub header_size : ℕ
header_size = 16

abbrev pub footer_size : ℕ
footer_size = 16

abbrev pub links_size : ℕ
links_size = 16

abbrev pub size_and_flags : Memory → ℕ → ℕ
size_and_flags m block = read_word m block

unfoldable pub get_size : Memory → ℕ → ℕ
get_size m block = size_and_flags m block / 2 * 2

unfoldable pub is_free : Memory → ℕ → Bool
is_free m block = not (size_and_flags m block % 2 == 0)

unfoldable pub set_size : ℕ → ℕ → Memory → Memory
set_size block size m = write_word m block (size / 2 * 2 + size_and_flags m block % 2)

unfoldable pub set_free : ℕ → Bool → Memory → Memory
set_free block free m =
    if free
    then write_word m block (size_and_flags m block / 2 * 2 + 1)
    else write_word m block (size_and_flags m block / 2 * 2)

-- The constructor: the member's initialiser, then the two setters.
unfoldable pub construct : ℕ → ℕ → Bool → Memory → Memory
unfolding set_size set_free
construct block size free m = set_free block free (set_size block size (write_word m block 0))

abbrev pub data_address : ℕ → ℕ
data_address block = block + header_size

unfoldable pub payload : ℕ → Cmd ℕ
payload block = do free ← reads λ m. is_free m block; check (not free); pure (data_address block)

unfoldable pub free_list_links : ℕ → Cmd ℕ
free_list_links block = do free ← reads λ m. is_free m block; check free; pure (data_address block)

unfoldable pub footer : Memory → ℕ → ℕ
footer m block = block + header_size + get_size m block

unfoldable pub sync_footer : ℕ → Memory → Memory
sync_footer block m = write_word m (footer m block) (get_size m block)

unfoldable pub footer_in_sync : Memory → ℕ → Bool
footer_in_sync m block = read_word m (footer m block) == get_size m block

unfoldable pub preceding_footer : ℕ → ℕ
preceding_footer block = sub64 block footer_size

unfoldable pub next_physical_header : Memory → ℕ → ℕ
next_physical_header m block = footer m block + footer_size

unfoldable pub header_from_footer : Memory → ℕ → ℕ
header_from_footer m foot = sub64 (sub64 foot (read_word m foot)) header_size
