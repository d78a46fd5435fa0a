-- ===== src/Examples/Blocks.antt =====
-- The theorems on sizes, tags, pages and routing at concrete inputs.
use custom_memory_allocator.Base.{
  ℕ, ◌+◌, ◌-◌, ◌%◌, ◌^◌, ◌≤◌, ◌<◌, ◌≡◌, ◌↔◌, ◌⊎◌, refl, inl, some, true, false, arith, In,
  get_elem?,
}
use custom_memory_allocator.Memory.{Memory, read_word, write_word}
use custom_memory_allocator.Run.Ends.{Ends}
use custom_memory_allocator.Block.{preceding_footer, next_physical_header, header_from_footer}
use custom_memory_allocator.Block.Tags.{IsBlock, header_from_footer-next}
use custom_memory_allocator.SizeClass.{
  size_classes, no_size_class, size_class_for, pool_index_for_size_class,
}
use custom_memory_allocator.SizeClass.Least.{size_class_for-IsVerdict, get_elem?-pool_index}
use custom_memory_allocator.General.{align_up}
use custom_memory_allocator.General.Align.{align_up_least, align_up_wraps}
use custom_memory_allocator.Os.{round_up_to_page, os_acquire}
use custom_memory_allocator.Os.Laws.{Acquired, round_up_to_page_least, os_acquire-Acquired}
use custom_memory_allocator.ThreadCache.{pool_address}
use custom_memory_allocator.Allocator.{is_known_pool, pool_index_of}
use custom_memory_allocator.Allocator.Routing.{
  PoolAmong, is_known_pool_iff, pool_index_of-pool_address,
}
use custom_memory_allocator.Examples.Machine.{machine, start, machine-IsKernel}

-- An allocated block of 96 bytes at 0x1000.
abbrev one_block : Memory
one_block = write_word (write_word (λ a. 0) 0x1000 96) 0x1070 96

one_block-IsBlock : IsBlock one_block 0x1000 96 false
unfolding read_word write_word
one_block-IsBlock = record { head_tag = refl; foot_tag = refl; aligned = refl }

header_from_footer-next_example :
    header_from_footer one_block (preceding_footer (next_physical_header one_block 0x1000)) ≡ 0x1000
header_from_footer-next_example = header_from_footer-next one_block-IsBlock (omega arith)

size_class_for-IsVerdict_example :
    (In (size_class_for 100) size_classes
      × (100 ≤ size_class_for 100)
      × ((c : ℕ) → In c size_classes → 100 ≤ c → size_class_for 100 ≤ c))
    ⊎ ((size_class_for 100 ≡ no_size_class) × ((c : ℕ) → In c size_classes → c < 100))
size_class_for-IsVerdict_example = size_class_for-IsVerdict 100

get_elem?-pool_index_example : get_elem? size_classes (pool_index_for_size_class 16) ≡ some 16
get_elem?-pool_index_example = get_elem?-pool_index 16 (inl refl)

align_up_least_example :
    (align_up 5001 % 16 ≡ 0)
    × (5001 ≤ align_up 5001)
    × (align_up 5001 < 5001 + 16)
    × (align_up 5001 < 2 ^ 64)
align_up_least_example = align_up_least 5001 (omega arith)

align_up_wraps_example : align_up (2 ^ 64 - 1) ≡ 0
align_up_wraps_example = align_up_wraps (2 ^ 64 - 1) (omega arith) (omega arith)

round_up_to_page_least_example :
    (round_up_to_page machine 5000 % 4096 ≡ 0)
    × (5000 ≤ 2 ^ 64 - 4096
        → (5000 ≤ round_up_to_page machine 5000) × (round_up_to_page machine 5000 < 5000 + 4096))
    × (2 ^ 64 - 4096 < 5000 → round_up_to_page machine 5000 ≡ 0)
round_up_to_page_least_example = round_up_to_page_least machine 5000 machine-IsKernel (omega arith)

os_acquire-Acquired_example : Ends (Acquired machine 5000 start) (os_acquire machine 5000 start)
os_acquire-Acquired_example = os_acquire-Acquired machine 5000 start machine-IsKernel (omega arith)

is_known_pool_iff_example : (is_known_pool machine 0x4068 ≡ true) ↔ PoolAmong machine 0 9 0x4068
is_known_pool_iff_example = is_known_pool_iff machine 0x4068

pool_index_of-pool_address_example : pool_index_of machine (pool_address machine 3) ≡ 3
pool_index_of-pool_address_example =
    pool_index_of-pool_address machine 3 (omega arith) (omega arith)
