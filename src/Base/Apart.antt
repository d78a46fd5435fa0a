-- ===== src/Base/Apart.antt =====
-- Addresses that lie at least `gap` bytes apart from one another.
use Prim.Native.Nat.{ℕ, ◌+◌, ◌≤◌}
use mathlib.Core.Logic.{◌⊎◌}
use mathlib.Core.List.{List, [], ◌∷◌, ◌++◌}
use native.Mathlib.Omega.{arith}
use custom_memory_allocator.Base.Lists.{All, All-left, All-right, All-append}

abbrev pub Spaced : ℕ → ℕ → ℕ → Type 0
Spaced gap x y = (x + gap ≤ y) ⊎ (y + gap ≤ x)

abbrev pub AllSpaced : ℕ → List ℕ → Type 0
AllSpaced gap [] = Unit {0}
AllSpaced gap (x ∷ xs) = All (Spaced gap x) xs × AllSpaced gap xs

All-units : (ys : List ℕ) → All (λ y. Unit {0}) ys
All-units [] = tt
All-units (y ∷ ys) = (tt, All-units ys)

module _ (gap : ℕ) where
  -- The others keep their distance from one that is taken out, and from one another.
  pub AllSpaced-drop :
      (xs : List ℕ) (b : ℕ) (ys : List ℕ)
      → AllSpaced gap (xs ++ b ∷ ys)
      → All (Spaced gap b) (xs ++ ys) × AllSpaced gap (xs ++ ys)
  AllSpaced-drop [] b ys a = a
  AllSpaced-drop (x ∷ xs) b ys a =
      let (clear, apart) = AllSpaced-drop xs b ys a.1 in
      let mid : All (Spaced gap x) (b ∷ ys) = All-right (Spaced gap x) xs (b ∷ ys) a.0 in
      (
        (ground (arith, mid.0), clear),
        (All-append (Spaced gap x) xs ys (All-left (Spaced gap x) xs (b ∷ ys) a.0) mid.1, apart),
      )

  pub AllSpaced-insert :
      (xs : List ℕ) (b : ℕ) (ys : List ℕ)
      → All (Spaced gap b) (xs ++ ys)
      → AllSpaced gap (xs ++ ys)
      → AllSpaced gap (xs ++ b ∷ ys)
  AllSpaced-insert [] b ys c a = (c, a)
  AllSpaced-insert (x ∷ xs) b ys c a = (
    All-append (Spaced gap x) xs (b ∷ ys) (All-left (Spaced gap x) xs ys a.0)
        (ground (arith, c.0), All-right (Spaced gap x) xs ys a.0),
    AllSpaced-insert xs b ys c.1 a.1,
  )

  pub AllSpaced-left : (xs ys : List ℕ) → AllSpaced gap (xs ++ ys) → AllSpaced gap xs
  AllSpaced-left [] ys a = tt
  AllSpaced-left (x ∷ xs) ys a = (All-left (Spaced gap x) xs ys a.0, AllSpaced-left xs ys a.1)

  pub AllSpaced-right : (xs ys : List ℕ) → AllSpaced gap (xs ++ ys) → AllSpaced gap ys
  AllSpaced-right [] ys a = a
  AllSpaced-right (x ∷ xs) ys a = AllSpaced-right xs ys a.1

  -- Across the two halves.
  pub AllSpaced-cross :
      (xs ys : List ℕ)
      → AllSpaced gap (xs ++ ys)
      → All (λ y. All (Spaced gap y) xs) ys × All (λ x. All (Spaced gap x) ys) xs
  AllSpaced-cross [] ys a = (All-units ys, tt)
  AllSpaced-cross (x ∷ xs) ys a =
      let (over_ys, over_xs) = AllSpaced-cross xs ys a.1 in
      let x_ys : All (Spaced gap x) ys = All-right (Spaced gap x) xs ys a.0 in
      (add_each ys x_ys over_ys, (x_ys, over_xs))
    where
      add_each :
          (ys : List ℕ)
          → All (Spaced gap x) ys
          → All (λ y. All (Spaced gap y) xs) ys
          → All (λ y. All (Spaced gap y) (x ∷ xs)) ys
      add_each [] c r = tt
      add_each (y ∷ ys) c r = ((ground (arith, c.0), r.0), add_each ys c.1 r.1)

pub All-swap :
    (P : ℕ → Type 0) (free ds us : List ℕ) → All P (free ++ (ds ++ us)) → All P (ds ++ (free ++ us))
All-swap P free ds us h =
    let right = All-right P free (ds ++ us) h in
    All-append P ds (free ++ us) (All-left P ds us right)
      (All-append P free us (All-left P free (ds ++ us) h) (All-right P ds us right))

-- Two stretches of a list trade places.
pub AllSpaced-swap :
    (gap : ℕ) (free ds us : List ℕ)
    → AllSpaced gap (free ++ (ds ++ us))
    → AllSpaced gap (ds ++ (free ++ us))
AllSpaced-swap gap free [] us a = a
AllSpaced-swap gap free (d ∷ ds) us a =
    let (near, apart) = AllSpaced-drop gap free d (ds ++ us) a in
    (All-swap (Spaced gap d) free ds us near, AllSpaced-swap gap free ds us apart)
