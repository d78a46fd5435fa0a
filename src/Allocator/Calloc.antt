-- ===== src/Allocator/Calloc.antt =====
-- my_calloc: its overflow check is exact, and the bytes it hands out are zero.
use native.Mathlib.Nat.{le-div_iff_mul-le}
use custom_memory_allocator.Base.{
  ℕ, ◌+◌, ◌*◌, ◌/◌, ◌≤◌, ◌<◌, ◌^◌, ◌≡◌, ◌≢◌, ◌⊎◌, refl, ap, subst, ◌∙◌, inl, inr, Bool, true, false,
  not, null, size_max, arith, mul64, ltb, ltb_of_lt, ltb_of_le, lt_cases, ◌==◌, eq_of_==, ne_of_==,
  Bool-cases, ◌&&◌, if◌then◌else◌,
}
use custom_memory_allocator.Memory.{fill}
use custom_memory_allocator.Run.{World, done, writes, pure, ◌>>◌}
use custom_memory_allocator.Run.Ends.{Ends, ends, Ends-continue}
use custom_memory_allocator.Os.{Platform}
use custom_memory_allocator.Allocator.{Allocator, Stage, my_malloc, my_calloc}

-- The test at the head of my_calloc.
abbrev overflows : ℕ → ℕ → Bool
overflows count size = not (size == 0) && ltb (size_max / size) count

overflows-true : (count size : ℕ) → 2 ^ 64 ≤ count * size → overflows count size ≡ true
overflows-true count size over = elim (Bool-cases (size == 0)) [
  | inl e ↦
      let zero_size : size ≡ 0 = eq_of_== size 0 e in
      let product : count * size ≡ 0 = ap (λ (n : ℕ). count * n) zero_size ∙ omega arith in
      absurd (omega (arith, over, product))
  | inr e ↦
      let pos : 0 < size = let h = ne_of_== size 0 e in omega (arith, h) in
      rw e (elim (lt_cases (size_max / size) count) [
        | inl lt ↦ ltb_of_lt _ _ lt
        | inr le ↦
            let bound : count * size ≤ size_max = (le-div_iff_mul-le pos).0 le in
            absurd (omega (arith, over, bound))
      ])
]

overflows-false : (count size : ℕ) → count * size < 2 ^ 64 → overflows count size ≡ false
overflows-false count size fits = elim (Bool-cases (size == 0)) [
  | inl e ↦ rw e refl
  | inr e ↦
      let pos : 0 < size = let h = ne_of_== size 0 e in omega (arith, h) in
      let bound : count * size ≤ size_max = omega (arith, fits) in
      rw e (ltb_of_le _ _ ((le-div_iff_mul-le pos).1 bound))
]

-- What my_calloc adds to a request that my_malloc has served.
pub record Cleared {A : Type 0} (P : ℕ × A → World → Type 0) (total : ℕ) (r : ℕ × A) (w' : World)
    : Type 0 where
  pub before : World
  pub served : P r before
  pub nonnull : r.0 ≢ null
  pub zeroed : (a : ℕ) → r.0 ≤ a → a < r.0 + total → w'.mem a ≡ 0
  pub same : (a : ℕ) → (a < r.0) ⊎ (r.0 + total ≤ a) → w'.mem a ≡ before.mem a
  pub process : w'.process ≡ before.process

-- my_malloc failed, or its bytes are cleared.
abbrev pub Calloced : {A : Type 0} → (ℕ × A → World → Type 0) → ℕ → ℕ × A → World → Type 0
Calloced P total r w' = ((r.0 ≡ null) × P r w') ⊎ Cleared P total r w'

clear :
    {A : Type 0} (P : ℕ × A → World → Type 0) (total : ℕ) (r : ℕ × A) (w : World)
    → P r w
    → Ends
        (Calloced P total)
        ((if r.0 == null then pure (null, r.1) else (writes (λ m. fill m r.0 0 total) >> pure r)) w)
unfolding fill
clear P total (ptr, a) w p = elim (Bool-cases (ptr == 0)) [
  | inl e ↦
      let none_left : ptr ≡ 0 = eq_of_== ptr 0 e in
      rw e (ends (inl (refl, subst (λ n. P (n, a) w) none_left p)))
  | inr e ↦ rw e (
      ends (
        inr (record {
          before = w;
          served = p;
          nonnull = ne_of_== ptr 0 e;
          zeroed = λ b lo hi. ground arith;
          same = λ b out. ground arith;
          process = refl;
        })))
]

-- my_calloc answers null and changes nothing when the product of its arguments does not fit into
-- 64 bits.
pub my_calloc-overflow :
    (p : Platform) (stage : Stage) (a : Allocator) (count size : ℕ) (w : World)
    → 2 ^ 64 ≤ count * size
    → my_calloc p stage a count size w ≡ done (null, a) w
unfolding my_calloc
my_calloc-overflow p stage a count size w over = rw (overflows-true count size over) refl

-- When the product fits into 64 bits, my_calloc asks my_malloc for exactly that many bytes: whatever
-- my_malloc is known to leave holds with null, or holds before every byte of the payload is set to 0
-- and no other byte is changed.
pub my_calloc-Calloced :
    (p : Platform) (stage : Stage) (a : Allocator) (count size : ℕ) (w : World)
    (P : ℕ × Allocator → World → Type 0)
    → count * size < 2 ^ 64
    → Ends P (my_malloc p stage a (count * size) w)
    → Ends (Calloced P (count * size)) (my_calloc p stage a count size w)
unfolding my_calloc
my_calloc-Calloced p stage a count size w P fits served =
    let whole : mul64 count size ≡ count * size = omega (arith, fits) in
    rw (overflows-false count size fits, whole)
      (Ends-continue served (λ r w1 q. clear P (count * size) r w1 q))
