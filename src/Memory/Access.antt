-- ===== src/Memory/Access.antt =====
-- What a word access reads after a write, and what a write leaves alone.
use mathlib.Core.Path.{fun_ext}
use custom_memory_allocator.Base.{
  ℕ, zero, suc, ◌+◌, ◌/◌, ◌^◌, ◌≤◌, ◌<◌, ◌≡◌, refl, ◌⊎◌, inl, inr, arith, ◌==◌, Bool-cases,
}
use custom_memory_allocator.Memory.{Memory, load_bytes, store_bytes, read_word, write_word}

-- `v` needs at most `k` bytes.
abbrev FitsBytes : ℕ → ℕ → Type 0
FitsBytes zero v = v ≡ 0
FitsBytes (suc k) v = FitsBytes k (v / 256)

load_bytes-agree :
    (k : ℕ) (m m' : Memory) (a : ℕ)
    → ((b : ℕ) → a ≤ b → b < a + k → m' b ≡ m b)
    → load_bytes k m' a ≡ load_bytes k m a
unfolding load_bytes
load_bytes-agree zero m m' a same = refl
load_bytes-agree (suc k) m m' a same =
    let first : m' a ≡ m a = same a (omega arith) (omega arith) in
    let rest : load_bytes k m' (a + 1) ≡ load_bytes k m (a + 1) =
      load_bytes-agree k m m' (a + 1) (λ b lo hi. same b (omega arith) (omega arith)) in
    rw (first, rest) refl

store_bytes-outside :
    (k : ℕ) (m : Memory) (a v b : ℕ) → (b < a) ⊎ (a + k ≤ b) → store_bytes k m a v b ≡ m b
unfolding store_bytes
store_bytes-outside zero m a v b out = refl
store_bytes-outside (suc k) m a v b out =
    ground (arith, store_bytes-outside k m (a + 1) (v / 256) b)

load_bytes-store_bytes :
    (k : ℕ) (m : Memory) (a v : ℕ) → FitsBytes k v → load_bytes k (store_bytes k m a v) a ≡ v
unfolding load_bytes store_bytes
load_bytes-store_bytes zero m a v fits = omega arith
load_bytes-store_bytes (suc k) m a v fits =
    let rest : load_bytes k (store_bytes (suc k) m a v) (a + 1)
        ≡ load_bytes k (store_bytes k m (a + 1) (v / 256)) (a + 1) =
      load_bytes-agree k _ _ (a + 1) (λ b lo hi. ground arith) in
    ground (arith, rest, load_bytes-store_bytes k m (a + 1) (v / 256) fits)

pub read_word-write_word : (m : Memory) (a v : ℕ) → v < 2 ^ 64 → read_word (write_word m a v) a ≡ v
unfolding read_word write_word
read_word-write_word m a v h = load_bytes-store_bytes 8 m a v (omega arith)

-- A write changes no byte outside its eight.
pub write_word-outside : (m : Memory) (a v b : ℕ) → (b < a) ⊎ (a + 8 ≤ b) → write_word m a v b ≡ m b
unfolding write_word
write_word-outside m a v b out = store_bytes-outside 8 m a v b out

-- A word reads the same in two memories that agree on its bytes.
pub read_word-agree :
    (m m' : Memory) (a : ℕ)
    → ((b : ℕ) → a ≤ b → b < a + 8 → m' b ≡ m b)
    → read_word m' a ≡ read_word m a
unfolding read_word
read_word-agree m m' a same = load_bytes-agree 8 m m' a same

pub read_word-write_other :
    (m : Memory) (p v a : ℕ)
    → (a + 8 ≤ p) ⊎ (p + 8 ≤ a)
    → read_word (write_word m p v) a ≡ read_word m a
read_word-write_other m p v a apart =
    read_word-agree m _ a (λ b lo hi. write_word-outside m p v b (ground arith))

-- A store depends on the old byte only where it writes none.
store_bytes-agree :
    (k : ℕ) (m m' : Memory) (a v b : ℕ)
    → ((b < a) ⊎ (a + k ≤ b) → m' b ≡ m b)
    → store_bytes k m' a v b ≡ store_bytes k m a v b
unfolding store_bytes
store_bytes-agree zero m m' a v b same = same (omega arith)
store_bytes-agree (suc k) m m' a v b same = elim (Bool-cases (b == a)) [
  | inl e ↦ rw e refl
  | inr e ↦ rw e (store_bytes-agree k m m' (a + 1) (v / 256) b (λ out. same (ground arith)))
]

pub write_word-write_self :
    (m : Memory) (a v u : ℕ) → write_word (write_word m a v) a u ≡ write_word m a u
unfolding write_word
write_word-write_self m a v u =
    fun_ext
      λ b. store_bytes-agree 8 m (write_word m a v) a u b (λ out. store_bytes-outside 8 m a v b out)
