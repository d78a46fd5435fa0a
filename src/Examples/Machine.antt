-- ===== src/Examples/Machine.antt =====
-- A platform whose `mmap` hands out one area behind the other, and it meets the laws of a kernel
-- as long as the areas stay in the lower half of the address space.
use custom_memory_allocator.Base.{
  ℕ, ◌+◌, ◌/◌, ◌*◌, ◌%◌, ◌≤◌, ◌<◌, ◌^◌, ◌≡◌, ◌≢◌, inl, inr, refl, List, [], ◌∷◌, Bool, true, ◌&&◌,
  ◌||◌, ◌==◌, ltb, if◌then◌else◌, All, All-map, Bool-cases, arith,
}
use custom_memory_allocator.Run.{OsRegion, World}
use custom_memory_allocator.Os.{Platform, map_failed}
use custom_memory_allocator.Os.Laws.{IsKernel, IsDisjoint}

-- The first page above every mapped area.
abbrev pub top_of : List OsRegion → ℕ
top_of [] = 0x10_0000
top_of (a ∷ as') =
    if ltb (top_of as') (a.base + a.size)
    then (a.base + a.size + 4095) / 4096 * 4096
    else top_of as'

abbrev pub next_area : List OsRegion → ℕ → ℕ
next_area areas length =
    if length == 0 || ltb (2 ^ 47) (top_of areas + length) then map_failed else top_of areas

abbrev pub is_area : OsRegion → ℕ → ℕ → Bool
is_area a base size = a.base == base && a.size == size

abbrev pub without_area : List OsRegion → ℕ → ℕ → List OsRegion
without_area [] base size = []
without_area (a ∷ as') base size =
    let rest = without_area as' base size in if is_area a base size then rest else a ∷ rest

abbrev pub machine : Platform
machine = record {
  page_bytes = 4096;
  mmap = next_area;
  munmap = λ areas base size. (true, without_area areas base size);
  pool_array = 0x4000;
  pool_bytes = 104;
}

abbrev pub start : World
start = record { mem = λ a. 0; process = record { mapped = []; held = [] } }

top_of-aligned : (l : List OsRegion) → (0 < top_of l) × (top_of l % 4096 ≡ 0)
top_of-aligned [] = (omega arith, omega arith)
top_of-aligned (a ∷ as') = ground (arith, top_of-aligned as')

top_of-clear : (l : List OsRegion) (t : ℕ) → top_of l ≤ t → All (λ r. r.base + r.size ≤ t) l
top_of-clear [] t h = tt
top_of-clear (a ∷ as') t h = (ground arith, top_of-clear as' t (ground arith))

pub machine-IsKernel : IsKernel machine
machine-IsKernel = record {
  page = refl;
  pos = λ l n got. ground (arith, top_of-aligned l);
  page_aligned = λ l n got. ground (arith, top_of-aligned l);
  low = λ l n got. ground arith;
  clear = λ l n got. mapped_clear l n got;
}
  where
    mapped_clear :
        (l : List OsRegion) (n : ℕ)
        → next_area l n ≢ map_failed
        → All (IsDisjoint (next_area l n) n) l
    mapped_clear l n got = elim (Bool-cases (n == 0 || ltb (2 ^ 47) (top_of l + n))) [
      | inl e ↦ absurd (got (rw e refl))
      | inr e ↦ rw e (
          All-map (λ r. r.base + r.size ≤ top_of l) (IsDisjoint (top_of l) n) l (λ r h. inr h)
            (top_of-clear l (top_of l) (omega arith)))
    ]
