-- ===== src/SizeClass/Least.antt =====
-- size_class_for picks the least class with room, and the class leads to its index.
use custom_memory_allocator.Base.{
  ℕ, ◌≤◌, ◌<◌, ◌^◌, ◌↔◌, ◌≢◌, ◌≡◌, refl, sym, subst, List, [], ◌∷◌, leb, Bool-cases, inl, inr, ◌⊎◌,
  some, arith, In, In-All, get_elem?,
}
use custom_memory_allocator.SizeClass.{
  class_in, size_classes, no_size_class, size_class_for, pool_index_for_size_class,
}

-- Each class is larger than the one before it.
abbrev pub IsIncreasing : ℕ → List ℕ → Type 0
IsIncreasing lo [] = Unit {0}
IsIncreasing lo (c ∷ cs) = (lo < c) × IsIncreasing c cs

IsIncreasing-bound : (lo : ℕ) (cs : List ℕ) (d : ℕ) → IsIncreasing lo cs → In d cs → lo ≤ d
IsIncreasing-bound lo [] d inc i = absurd i
IsIncreasing-bound lo (c ∷ cs) d inc (inl e) = omega arith
IsIncreasing-bound lo (c ∷ cs) d inc (inr i) = omega (arith, IsIncreasing-bound c cs d inc.1 i)

-- `r` is the least class in `cs` with room for `n`, or says that there is none.
abbrev IsVerdict : ℕ → List ℕ → ℕ → Type 0
IsVerdict n cs r =
    (In r cs × (n ≤ r) × ((c : ℕ) → In c cs → n ≤ c → r ≤ c))
    ⊎ ((r ≡ no_size_class) × ((c : ℕ) → In c cs → c < n))

later_class : (n c : ℕ) (cs : List ℕ) (r : ℕ) → c < n → IsVerdict n cs r → IsVerdict n (c ∷ cs) r
later_class n c cs r small (inl (at, room, least)) = inl (inr at, room, bound)
  where
    bound : (d : ℕ) → In d (c ∷ cs) → n ≤ d → r ≤ d
    bound d (inl e) h = absurd (omega arith)
    bound d (inr i) h = least d i h
later_class n c cs r small (inr (missing, all)) = inr (missing, bound)
  where
    bound : (d : ℕ) → In d (c ∷ cs) → d < n
    bound d (inl e) = omega arith
    bound d (inr i) = all d i

class_in-IsVerdict : (cs : List ℕ) (lo n : ℕ) → IsIncreasing lo cs → IsVerdict n cs (class_in cs n)
unfolding class_in
class_in-IsVerdict [] lo n inc = inr (refl, λ c i. absurd i)
class_in-IsVerdict (c ∷ cs) lo n inc = elim (Bool-cases (leb n c)) [
  | inl fits ↦
      let e : class_in (c ∷ cs) n ≡ c = rw fits refl in
      subst (IsVerdict n (c ∷ cs)) (sym e) (inl (inl refl, ground arith, λ d i h. first d i))
  | inr small ↦
      let e : class_in (c ∷ cs) n ≡ class_in cs n = rw small refl in
      subst (IsVerdict n (c ∷ cs)) (sym e)
        (later_class n c cs (class_in cs n) (ground arith) (class_in-IsVerdict cs c n inc.1))
]
  where
    first : (d : ℕ) → In d (c ∷ cs) → c ≤ d
    first d (inl e) = omega arith
    first d (inr i) = IsIncreasing-bound c cs d inc.1 i

-- size_class_for answers with the least size class that has room for the request, and with
-- kNoSizeClass exactly when every class is smaller than the request.
pub size_class_for-IsVerdict :
    (n : ℕ)
    → (In (size_class_for n) size_classes
        × (n ≤ size_class_for n)
        × ((c : ℕ) → In c size_classes → n ≤ c → size_class_for n ≤ c))
      ⊎ ((size_class_for n ≡ no_size_class) × ((c : ℕ) → In c size_classes → c < n))
unfolding size_class_for
size_class_for-IsVerdict n = class_in-IsVerdict size_classes 0 n (omega arith)

-- Requests of at most 4096 bytes, and no others, have a size class.
size_class_for_small : (n : ℕ) → n < 2 ^ 64 → (n ≤ 4096) ↔ (size_class_for n ≢ no_size_class)
unfolding size_class_for
size_class_for_small n h = ground arith

-- The index of a class leads back to the class.
pub get_elem?-pool_index :
    (c : ℕ) → In c size_classes → get_elem? size_classes (pool_index_for_size_class c) ≡ some c
unfolding pool_index_for_size_class
get_elem?-pool_index c i =
    In-All (λ d. get_elem? size_classes (pool_index_for_size_class d) ≡ some d) size_classes c i
      (refl, (refl, (refl, (refl, (refl, (refl, (refl, (refl, (refl, tt)))))))))
