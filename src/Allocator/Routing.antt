-- ===== src/Allocator/Routing.antt =====
-- How the tag in front of a payload tells a pooled slot from a general-path block, and finds the
-- slot's pool.
use native.Mathlib.Nat.{mul-div_cancel}
use custom_memory_allocator.Base.{
  ℕ, zero, suc, ◌+◌, ◌*◌, ◌≤◌, ◌<◌, ◌^◌, ◌≡◌, ◌↔◌, refl, sym, inl, inr, true, false, arith, sub64,
  ◌==◌, Bool-cases, ==_of_eq, eq_of_==,
}
use custom_memory_allocator.Os.{Platform}
use custom_memory_allocator.ThreadCache.{pool_address}
use custom_memory_allocator.Allocator.{known_from, is_known_pool, pool_index_of}

-- The address is that of the pool at some index from `i` up to, but without, `j`.
abbrev pub PoolAmong : Platform → (i j candidate : ℕ) → Type 0
PoolAmong p i j candidate = (k : ℕ) × (i ≤ k) × (k < j) × (candidate ≡ pool_address p k)

known_from_sound :
    (p : Platform) (n i candidate : ℕ)
    → known_from p n i candidate ≡ true
    → PoolAmong p i (i + n) candidate
unfolding known_from
known_from_sound p zero i candidate h = cc
known_from_sound p (suc n) i candidate h = elim (Bool-cases (pool_address p i == candidate)) [
  | inl e ↦ (i, omega arith, omega arith, sym (eq_of_== _ _ e))
  | inr e ↦
      let (k, lo, hi, at) = known_from_sound p n (i + 1) candidate (rw e at h) in
      (k, omega arith, omega arith, at)
]

known_from_complete :
    (p : Platform) (n i k : ℕ) → i ≤ k → k < i + n → known_from p n i (pool_address p k) ≡ true
unfolding known_from
known_from_complete p zero i k lo hi = absurd (omega arith)
known_from_complete p (suc n) i k lo hi = elim (Bool-cases (i == k)) [
  | inl e ↦ rw (eq_of_== i k e, ==_of_eq _ _ refl) refl
  | inr e ↦ rw (known_from_complete p n (i + 1) k (ground arith) (omega arith)) (ground arith)
]

-- is_known_pool recognises the addresses of the nine pools, and nothing else.
pub is_known_pool_iff :
    (p : Platform) (candidate : ℕ) → (is_known_pool p candidate ≡ true) ↔ PoolAmong p 0 9 candidate
unfolding is_known_pool
is_known_pool_iff p candidate =
    (known_from_sound p 9 0 candidate, λ (k, lo, hi, at). rw at (known_from_complete p 9 0 k lo hi))

-- A word below the address of the array of pools is never taken for a pool's address.
pub not-is_known_pool : (p : Platform) (tag : ℕ) → tag < p.pool_array → is_known_pool p tag ≡ false
not-is_known_pool p tag small = elim (Bool-cases (is_known_pool p tag)) [
  | inl e ↦ let (k, _, _, at) = (is_known_pool_iff p tag).0 e in absurd (omega arith)
  | inr e ↦ e
]

-- Pointer arithmetic in the array of pools gives back a pool's index.
pub pool_index_of-pool_address :
    (p : Platform) (k : ℕ)
    → 0 < p.pool_bytes
    → pool_address p k < 2 ^ 64
    → pool_index_of p (pool_address p k) ≡ k
unfolding pool_index_of
pool_index_of-pool_address p k pos fits =
    let e : sub64 (pool_address p k) p.pool_array ≡ k * p.pool_bytes = omega arith in
    rw e (mul-div_cancel k pos)
