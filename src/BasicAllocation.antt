-- ===== src/BasicAllocation.antt =====
-- examples/basic_allocation.cpp: three requests, a pattern in each, and a check of the patterns. The
-- lines that it prints are left out.
use custom_memory_allocator.Base.{
  ℕ, zero, suc, ◌+◌, ◌≤◌, ◌<◌, ◌≡◌, ◌↔◌, refl, subst, inl, inr, Bool, true, false, null, arith,
  ◌==◌, ◌&&◌, ◌||◌, eq_of_==, ne_of_==, ==_of_eq, Bool-cases, if◌then◌else◌,
}
use custom_memory_allocator.Memory.{Memory, fill}
use custom_memory_allocator.Run.{Cmd, reads, writes, pure, ◌>>=◌, ◌>>◌}
use custom_memory_allocator.Os.{Platform}
use custom_memory_allocator.Allocator.{Allocator, Stage, my_malloc, my_free, allocator_shutdown}

-- The loop of check_pattern(), with the bytes left.
unfoldable pub matches_from : Memory → (k at pattern : ℕ) → Bool
matches_from m zero at pattern = true
matches_from m (suc k) at pattern =
    let rest = matches_from m k (at + 1) pattern in if m at == pattern then rest else false

unfoldable pub check_pattern : Memory → (ptr size pattern : ℕ) → Bool
check_pattern m ptr size pattern = matches_from m size ptr pattern

module _ (p : Platform) (stage : Stage) where
  -- The part of main() behind the allocations, with the value that it returns.
  unfoldable pub demonstrate : Allocator → (small medium large : ℕ) → Cmd (ℕ × Allocator)
  demonstrate a small medium large = do
    writes λ m. fill m small 0xAA 16
    writes λ m. fill m medium 0xBB 256
    writes λ m. fill m large 0xCC 4096
    ok ← reads λ m.
        check_pattern m small 16 0xAA
        && (check_pattern m medium 256 0xBB && check_pattern m large 4096 0xCC)
    a1 ← my_free p stage a small
    a2 ← my_free p stage a1 medium
    a3 ← my_free p stage a2 large
    a4 ← allocator_shutdown p a3
    pure (if ok then 0 else 1, a4)

  unfoldable pub main : Allocator → Cmd (ℕ × Allocator)
  main a = do
    (small, a1) ← my_malloc p stage a 16
    (medium, a2) ← my_malloc p stage a1 256
    (large, a3) ← my_malloc p stage a2 4096
    if small == null || (medium == null || large == null)
        then pure (1, a3)
        else demonstrate a3 small medium large

matches_from_sound :
    (m : Memory) (k at pattern : ℕ)
    → matches_from m k at pattern ≡ true
    → (b : ℕ) → at ≤ b
    → b < at + k
    → m b ≡ pattern
unfolding matches_from
matches_from_sound m zero at pattern h b lo hi = absurd (omega arith)
matches_from_sound m (suc k) at pattern h b lo hi = elim (Bool-cases (m at == pattern)) [
  | inr e ↦ let f : false ≡ true = rw e at h in cc
  | inl e ↦
      let rest : matches_from m k (at + 1) pattern ≡ true = rw e at h in
      elim (Bool-cases (at == b)) [
        | inl same ↦ subst (λ (n : ℕ). m n ≡ pattern) (eq_of_== at b same) (eq_of_== _ _ e)
        | inr other ↦
            let ne = ne_of_== at b other in
            matches_from_sound m k (at + 1) pattern rest b (omega (arith, ne)) (omega arith)
      ]
]

matches_from_complete :
    (m : Memory) (k at pattern : ℕ)
    → ((b : ℕ) → at ≤ b → b < at + k → m b ≡ pattern)
    → matches_from m k at pattern ≡ true
unfolding matches_from
matches_from_complete m zero at pattern h = refl
matches_from_complete m (suc k) at pattern h =
    let first = ==_of_eq (m at) pattern (h at (omega arith) (omega arith)) in
    rw first
      (matches_from_complete m k (at + 1) pattern (λ b lo hi. h b (omega arith) (omega arith)))

-- check_pattern accepts exactly when each of the `size` bytes behind `ptr` is the pattern.
pub check_pattern_iff :
    (m : Memory) (ptr size pattern : ℕ)
    → (check_pattern m ptr size pattern ≡ true)
      ↔ ((b : ℕ) → ptr ≤ b → b < ptr + size → m b ≡ pattern)
unfolding check_pattern
check_pattern_iff m ptr size pattern =
    (matches_from_sound m size ptr pattern, matches_from_complete m size ptr pattern)
