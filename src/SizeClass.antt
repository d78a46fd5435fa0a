-- ===== src/SizeClass.antt =====
-- The size classes of include/memory_pool.hpp, and how a request finds its class and its pool.
pub mod Least
use custom_memory_allocator.Base.{
  ℕ, zero, suc, ◌+◌, List, [], ◌∷◌, leb, ◌==◌, if◌then◌else◌, size_max,
}

abbrev pub num_size_classes : ℕ
num_size_classes = 9

abbrev pub size_classes : List ℕ
size_classes = 16 ∷ 32 ∷ 64 ∷ 128 ∷ 256 ∷ 512 ∷ 1024 ∷ 2048 ∷ 4096 ∷ []

-- kNoSizeClass, which is static_cast<std::size_t>(-1)
abbrev pub no_size_class : ℕ
no_size_class = size_max

class_in : List ℕ → ℕ → ℕ
class_in [] requested = no_size_class
class_in (c ∷ cs) requested = if leb requested c then c else class_in cs requested

unfoldable pub size_class_for : ℕ → ℕ
unfolding class_in
size_class_for requested_payload_size = class_in size_classes requested_payload_size

index_in : List ℕ → ℕ → ℕ → ℕ
index_in [] i size_class = num_size_classes
index_in (c ∷ cs) i size_class = if c == size_class then i else index_in cs (i + 1) size_class

unfoldable pub pool_index_for_size_class : ℕ → ℕ
unfolding index_in
pool_index_for_size_class size_class = index_in size_classes 0 size_class
