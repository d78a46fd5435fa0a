-- ===== src/General/Align.antt =====
-- align_up, where it serves and where it wraps around.
use custom_memory_allocator.Base.{ℕ, ◌+◌, ◌-◌, ◌%◌, ◌^◌, ◌≤◌, ◌<◌, ◌≡◌, arith}
use custom_memory_allocator.General.{align_up}

-- Up to the last multiple of 16, align_up gives the least multiple of 16 that is no smaller.
pub align_up_least :
    (n : ℕ)
    → n ≤ 2 ^ 64 - 16
    → (align_up n % 16 ≡ 0) × (n ≤ align_up n) × (align_up n < n + 16) × (align_up n < 2 ^ 64)
unfolding align_up
align_up_least n h = omega arith

-- Any request above that wraps around to 0.
pub align_up_wraps : (n : ℕ) → 2 ^ 64 - 16 < n → n < 2 ^ 64 → align_up n ≡ 0
unfolding align_up
align_up_wraps n h k = omega arith
