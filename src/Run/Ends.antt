-- ===== src/Run/Ends.antt =====
-- Total correctness of a command: it fails no assertion, has enough fuel, and meets a postcondition.
use custom_memory_allocator.Base.{ℕ, ◌≡◌, sym, subst, List, none, some, get_elem?}
use custom_memory_allocator.Run.{World, Outcome, done, out_of_range, Cmd, continue, item_at}

pub data Ends {A : Type 0} (P : A → World → Type 0) : Outcome A → Type 0 where
  ends : {a : A} {w : World} → P a w → Ends P (done a w)

module _ {A : Type 0} {P : A → World → Type 0} where
  -- A command that ends is followed by the next one.
  pub Ends-continue :
      {B : Type 0} {Q : B → World → Type 0} {r : Outcome A} {k : A → Cmd B}
      → Ends P r
      → ((a : A) (w : World) → P a w → Ends Q (k a w))
      → Ends Q (continue r k)
  Ends-continue (ends p) next = next _ _ p

  pub Ends-weaken :
      {Q : A → World → Type 0} {r : Outcome A}
      → Ends P r
      → ((a : A) (w : World) → P a w → Q a w)
      → Ends Q r
  Ends-weaken (ends p) f = ends (f _ _ p)

Ends-done : {A : Type 0} {P : A → World → Type 0} {a : A} {w : World} → Ends P (done a w) → P a w
Ends-done (ends p) = p

pub Ends-at :
    {A : Type 0} {P : A → World → Type 0} {r : Outcome A} (a : A) (w : World)
    → r ≡ done a w
    → Ends P r
    → P a w
Ends-at {A} {P} {r} a w e h = Ends-done (subst (λ o. Ends P o) e h)

-- A command that goes on with the item at an index that is in range.
pub Ends-item_at :
    {A B : Type 0} {Q : B → World → Type 0} (xs : List A) (i : ℕ) (x : A) (k : A → Cmd B)
    (w : World)
    → get_elem? xs i ≡ some x
    → Ends Q (k x w)
    → Ends Q (continue (item_at xs i w) k)
Ends-item_at {A} {B} {Q} xs i x k w e h =
    subst (λ o. Ends Q (continue (elim o [ none ↦ out_of_range | some y ↦ done y w ]) k)) (sym e) h
