-- ===== src/Memory.antt =====
-- Byte-addressed memory, the machine's word accesses to it, and what `memset` and `memcpy` do.
-- Numbers are stored with the low byte first, as on x86-64.
pub mod Access
use custom_memory_allocator.Base.{
  ℕ, zero, suc, ◌+◌, ◌-◌, ◌*◌, ◌/◌, ◌%◌, Bool, ◌&&◌, ltb, leb, ◌==◌, if◌then◌else◌,
}

-- The byte at each address.
abbrev pub Memory : Type 0
Memory = ℕ → ℕ

load_bytes : ℕ → Memory → ℕ → ℕ
load_bytes zero m a = 0
load_bytes (suc k) m a = m a + 256 * load_bytes k m (a + 1)

store_bytes : ℕ → Memory → ℕ → ℕ → Memory
store_bytes zero m a v b = m b
store_bytes (suc k) m a v b = if b == a then v % 256 else store_bytes k m (a + 1) (v / 256) b

-- A size_t or a pointer at an address.
unfoldable pub read_word : Memory → ℕ → ℕ
unfolding load_bytes
read_word m a = load_bytes 8 m a

unfoldable pub write_word : Memory → ℕ → ℕ → Memory
unfolding store_bytes
write_word m a v = store_bytes 8 m a v

abbrev pub within : ℕ → ℕ → ℕ → Bool
within b p n = leb p b && ltb b (p + n)

-- memset(p, c, n)
unfoldable pub fill : Memory → ℕ → ℕ → ℕ → Memory
fill m p c n b = if within b p n then c else m b

-- memcpy(dst, src, n)
unfoldable pub copy : Memory → ℕ → ℕ → ℕ → Memory
copy m dst src n b = if within b dst n then m (src + (b - dst)) else m b
