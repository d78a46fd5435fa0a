-- ===== src/Base/Members.antt =====
-- Membership that says where, and the places that it gives.
use mathlib.Core.Path.{◌≡◌, refl, sym, subst}
use mathlib.Core.Logic.{◌⊎◌, inl, inr}
use mathlib.Core.List.{List, [], ◌∷◌, ◌++◌}
use custom_memory_allocator.Base.Lists.{All}

module _ {A : Type 0} where
  abbrev pub In : A → List A → Type 0
  In x [] = ⊥
  In x (y ∷ ys) = (x ≡ y) ⊎ In x ys

  pub In-All {κ} : (P : A → Type κ) (xs : List A) (x : A) → In x xs → All P xs → P x
  In-All P [] x i h = absurd i
  In-All P (y ∷ ys) x (inl e) h = subst P (sym e) h.0
  In-All P (y ∷ ys) x (inr i) h = In-All P ys x i h.1

  pub In-append_left : (xs ys : List A) (x : A) → In x xs → In x (xs ++ ys)
  In-append_left [] ys x i = absurd i
  In-append_left (y ∷ xs) ys x (inl e) = inl e
  In-append_left (y ∷ xs) ys x (inr i) = inr (In-append_left xs ys x i)

  pub In-append_right : (xs ys : List A) (x : A) → In x ys → In x (xs ++ ys)
  In-append_right [] ys x i = i
  In-append_right (y ∷ xs) ys x i = inr (In-append_right xs ys x i)

  pub In-append_cases : (xs ys : List A) (x : A) → In x (xs ++ ys) → In x xs ⊎ In x ys
  In-append_cases [] ys x i = inr i
  In-append_cases (y ∷ xs) ys x (inl e) = inl (inl e)
  In-append_cases (y ∷ xs) ys x (inr i) = elim (In-append_cases xs ys x i) [
    | inl j ↦ inl (inr j)
    | inr j ↦ inr j
  ]

  -- A list is split where an item stands.
  pub In-split :
      (xs : List A) (x : A) → In x xs → (ys : List A) × (zs : List A) × (xs ≡ ys ++ x ∷ zs)
  In-split [] x i = absurd i
  In-split (y ∷ xs) x (inl e) = ([], xs, rw e refl)
  In-split (y ∷ xs) x (inr i) = let (ys, zs, e) = In-split xs x i in (y ∷ ys, zs, rw e refl)

  pub All-of_In {κ} : (P : A → Type κ) (xs : List A) → ((x : A) → In x xs → P x) → All P xs
  All-of_In P [] f = tt
  All-of_In P (x ∷ xs) f = (f x (inl refl), All-of_In P xs (λ y i. f y (inr i)))

  -- An item in the middle is as good as one in front.
  module _ (ps : List A) (b : A) (qs : List A) where
    pub In-front : (c : A) → In c (ps ++ b ∷ qs) → In c (b ∷ ps ++ qs)
    In-front c i = elim (In-append_cases ps (b ∷ qs) c i) [
      | inl j ↦ inr (In-append_left ps qs c j)
      | inr (inl e) ↦ inl e
      | inr (inr j) ↦ inr (In-append_right ps qs c j)
    ]

    pub In-back : (c : A) → In c (b ∷ ps ++ qs) → In c (ps ++ b ∷ qs)
    In-back c (inl e) = In-append_right ps (b ∷ qs) c (inl e)
    In-back c (inr i) = elim (In-append_cases ps qs c i) [
      | inl j ↦ In-append_left ps (b ∷ qs) c j
      | inr j ↦ In-append_right ps (b ∷ qs) c (inr j)
    ]
