-- ===== src/FreeList/Search.antt =====
-- The walks along the list: find_first_fit and size, and the fuel that they need.
use custom_memory_allocator.Base.{
  ℕ, zero, suc, ◌+◌, ◌<◌, ◌≡◌, refl, sym, ap, ◌∙◌, inl, inr, false, null, List, [], ◌∷◌, arith,
  length, head_or, leb, ◌==◌, if◌then◌else◌, ==_of_ne, Bool-cases,
}
use custom_memory_allocator.Memory.{Memory}
use custom_memory_allocator.Run.{World, done}
use custom_memory_allocator.Block.{get_size}
use custom_memory_allocator.FreeList.{FreeList, fit_from, find_first_fit, empty, count_from, size}
use custom_memory_allocator.FreeList.Links.{Links, IsFreeList, links_done}

-- The first listed block whose payload has room for `need` bytes, or null.
abbrev pub first_fit : Memory → ℕ → List ℕ → ℕ
first_fit m need [] = null
first_fit m need (x ∷ xs) = if leb need (get_size m x) then x else first_fit m need xs

fit_from-first_fit :
    (w : World) (k need prev : ℕ) (xs : List ℕ)
    → Links w.mem prev null xs
    → length xs < k
    → fit_from k need (head_or null xs) w ≡ done (first_fit w.mem need xs) w
unfolding fit_from
fit_from-first_fit w zero need prev xs l fuel = absurd (omega arith)
fit_from-first_fit w (suc k) need prev [] l fuel = refl
fit_from-first_fit w (suc k) need prev (x ∷ xs) l fuel =
    let nonnull : (x == 0) ≡ false = ==_of_ne x 0 (omega (arith, l.0.pos)) in
    elim (Bool-cases (leb need (get_size w.mem x))) [
      | inl fit ↦ rw (nonnull, fit) refl
      | inr small ↦
          rw (nonnull, small, links_done x w l.0.free, l.0.next_link)
            (fit_from-first_fit w k need x xs l.1 (omega arith))
    ]

count_from-length :
    (w : World) (k count prev : ℕ) (xs : List ℕ)
    → Links w.mem prev null xs
    → length xs < k
    → count_from k count (head_or null xs) w ≡ done (count + length xs) w
unfolding count_from
count_from-length w zero count prev xs l fuel = absurd (omega arith)
count_from-length w (suc k) count prev [] l fuel = ap (λ n. done n w) (omega arith)
count_from-length w (suc k) count prev (x ∷ xs) l fuel =
    let nonnull : (x == 0) ≡ false = ==_of_ne x 0 (omega (arith, l.0.pos)) in
    rw (nonnull, links_done x w l.0.free, l.0.next_link)
      (count_from-length w k (count + 1) x xs l.1 (omega arith) ∙ ap (λ n. done n w) (omega arith))

-- On a well-formed list, with more rounds than blocks, find_first_fit returns the first block with
-- room for the request, or null if there is none; it fails no assertion and writes nothing.
pub find_first_fit-first_fit :
    (w : World) (fuel need : ℕ) (list : FreeList) (xs : List ℕ)
    → IsFreeList w.mem list xs
    → length xs < fuel
    → find_first_fit fuel list need w ≡ done (first_fit w.mem need xs) w
unfolding find_first_fit
find_first_fit-first_fit w fuel need list xs l h =
    rw l.head (fit_from-first_fit w fuel need null xs l.links h)

-- On a well-formed list, with more rounds than blocks, size returns the number of blocks and writes
-- nothing, and empty answers true exactly when that number is 0.
size-length :
    (w : World) (fuel : ℕ) (list : FreeList) (xs : List ℕ)
    → IsFreeList w.mem list xs
    → length xs < fuel
    → (size fuel list w ≡ done (length xs) w) × (empty list ≡ (length xs == 0))
unfolding size empty
size-length w fuel list [] l h =
    (rw l.head (count_from-length w fuel 0 null [] l.links h), rw l.head refl)
size-length w fuel list (x ∷ xs) l h = (
  rw l.head (count_from-length w fuel 0 null (x ∷ xs) l.links h ∙ ap (λ n. done n w) (omega arith)),
  rw (l.head, ==_of_ne x 0 (omega (arith, l.links.0.pos)))
      (sym (==_of_ne (suc (length xs)) 0 (omega arith))),
)
