-- ===== src/Os/Laws.antt =====
-- What the program relies on of Linux on x86-64, and what os_acquire gives under it.
use custom_memory_allocator.Base.{
  ℕ, ◌+◌, ◌-◌, ◌%◌, ◌^◌, ◌≤◌, ◌<◌, ◌≡◌, ◌≢◌, ◌⊎◌, refl, inl, inr, List, ◌∷◌, Option, none, some,
  arith, In, All, Bool-cases, ◌==◌, eq_of_==, ne_of_==,
}
use custom_memory_allocator.Memory.{fill}
use custom_memory_allocator.Run.{OsRegion, World}
use custom_memory_allocator.Run.Ends.{Ends, ends}
use custom_memory_allocator.Os.{Platform, map_failed, round_up_to_page, os_acquire}

-- The area shares no byte with a mapped one.
abbrev pub IsDisjoint : ℕ → ℕ → OsRegion → Type 0
IsDisjoint base size r = (base + size ≤ r.base) ⊎ (r.base + r.size ≤ base)

-- sysconf and mmap as documented: pages of 4096 bytes; a new area is page-aligned, lies in the lower
-- half of the address space but not at address 0, and is clear of the areas that are mapped.
pub record IsKernel (p : Platform) : Type 0 where
  pub page : p.page_bytes ≡ 4096
  pub pos : (l : List OsRegion) (n : ℕ) → p.mmap l n ≢ map_failed → 0 < p.mmap l n
  pub page_aligned : (l : List OsRegion) (n : ℕ) → p.mmap l n ≢ map_failed → p.mmap l n % 4096 ≡ 0
  pub low : (l : List OsRegion) (n : ℕ) → p.mmap l n ≢ map_failed → p.mmap l n + n ≤ 2 ^ 47
  pub clear :
      (l : List OsRegion) (n : ℕ) → p.mmap l n ≢ map_failed → All (IsDisjoint (p.mmap l n) n) l

-- Below the last page, round_up_to_page gives the least multiple of the page size that is no
-- smaller; above it, it wraps around to 0.
pub round_up_to_page_least :
    (p : Platform) (n : ℕ)
    → IsKernel p
    → n < 2 ^ 64
    → (round_up_to_page p n % 4096 ≡ 0)
      × (n ≤ 2 ^ 64 - 4096 → (n ≤ round_up_to_page p n) × (round_up_to_page p n < n + 4096))
      × (2 ^ 64 - 4096 < n → round_up_to_page p n ≡ 0)
unfolding round_up_to_page
round_up_to_page_least p n k h = rw k.page (omega arith, λ b. omega arith, λ b. omega arith)

-- The area that os_acquire hands out.
pub record IsAcquired (need : ℕ) (w : World) (region : OsRegion) (w' : World) : Type 0 where
  pub pos : 0 < region.base
  pub aligned : region.base % 4096 ≡ 0
  pub room : need ≤ region.size
  pub low : region.base + region.size ≤ 2 ^ 47
  pub clear : All (IsDisjoint region.base region.size) w.process.mapped
  pub mapped : w'.process.mapped ≡ region ∷ w.process.mapped
  pub held : w'.process.held ≡ w.process.held
  pub zeroed : (a : ℕ) → region.base ≤ a → a < region.base + region.size → w'.mem a ≡ 0
  pub same : (a : ℕ) → (a < region.base) ⊎ (region.base + region.size ≤ a) → w'.mem a ≡ w.mem a

-- mmap has no area for the request.
abbrev pub Refuses : Platform → World → ℕ → Type 0
Refuses p w need = p.mmap w.process.mapped (round_up_to_page p need) ≡ map_failed

-- It has none for some request of at least so many bytes.
abbrev pub Denied : Platform → World → ℕ → Type 0
Denied p w size = (need : ℕ) × (size ≤ need) × Refuses p w need

abbrev pub Acquired : Platform → ℕ → World → Option OsRegion → World → Type 0
Acquired p need w none w' = (w' ≡ w) × ((need ≡ 0) ⊎ Refuses p w need)
Acquired p need w (some region) w' = IsAcquired need w region w'

-- os_acquire either fails and changes nothing, and then only for a request of 0 bytes or when mmap
-- refuses; or it maps a fresh, zeroed, page-aligned area with room
-- for the request; everything outside that area keeps its bytes.
pub os_acquire-Acquired :
    (p : Platform) (need : ℕ) (w : World)
    → IsKernel p
    → need ≤ 2 ^ 64 - 4096
    → Ends (Acquired p need w) (os_acquire p need w)
unfolding os_acquire fill
os_acquire-Acquired p need w k h = elim (Bool-cases (need == 0)) [
  | inl e ↦ rw e (ends (refl, inl (eq_of_== _ _ e)))
  | inr e ↦
      rw e (elim (Bool-cases (p.mmap w.process.mapped (round_up_to_page p need) == map_failed)) [
        | inl f ↦ rw f (ends (refl, inr (eq_of_== _ _ f)))
        | inr f ↦
            let got : p.mmap w.process.mapped (round_up_to_page p need) ≢ map_failed =
              ne_of_== _ _ f in
            rw f (
              ends (record {
                pos = k.pos _ _ got;
                aligned = k.page_aligned _ _ got;
                room = ((round_up_to_page_least p need k (omega arith)).1 h).0;
                low = k.low _ _ got;
                clear = k.clear _ _ got;
                mapped = refl;
                held = refl;
                zeroed = λ a lo hi. ground arith;
                same = λ a out. ground arith;
              }))
      ])
]

-- The byte lies in a mapped area.
abbrev pub MappedByte : World → ℕ → Type 0
MappedByte w x = (r : OsRegion) × In r w.process.mapped × (r.base ≤ x) × (x < r.base + r.size)
