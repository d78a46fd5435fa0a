-- ===== src/Os/Unmap.antt =====
-- What the program relies on of munmap, and what releasing several areas leaves mapped.
use custom_memory_allocator.Base.{◌≡◌, ◌≢◌, refl, List, [], ◌∷◌, ◌++◌, true, In, All}
use custom_memory_allocator.Run.{OsRegion, World}
use custom_memory_allocator.Os.{Platform}

-- munmap of an area as it was mapped: it succeeds, and exactly that area is gone.
pub record IsUnmapping (p : Platform) : Type 0 where
  pub succeeds : (l : List OsRegion) (r : OsRegion) → In r l → (p.munmap l r.base r.size).0 ≡ true
  pub kept :
      (l : List OsRegion) (r q : OsRegion)
      → In r l
      → In q l
      → q ≢ r
      → In q (p.munmap l r.base r.size).1
  pub gone :
      (l : List OsRegion) (r q : OsRegion)
      → In r l
      → In q (p.munmap l r.base r.size).1
      → In q l × (q ≢ r)

-- What stays mapped after one munmap for each area, in their order.
abbrev pub unmap : Platform → List OsRegion → List OsRegion → List OsRegion
unmap p [] l = l
unmap p (r ∷ rs) l = unmap p rs (p.munmap l r.base r.size).1

abbrev pub with_mapped : List OsRegion → World → World
with_mapped l w = record w { process = record { mapped = l; held = w.process.held } }

pub unmap-append :
    (p : Platform) (rs qs l : List OsRegion) → unmap p (rs ++ qs) l ≡ unmap p qs (unmap p rs l)
unmap-append p [] qs l = refl
unmap-append p (r ∷ rs) qs l = unmap-append p rs qs (p.munmap l r.base r.size).1

abbrev pub AllDistinct : List OsRegion → Type 0
AllDistinct [] = Unit {0}
AllDistinct (r ∷ rs) = All (λ q. q ≢ r) rs × AllDistinct rs

module _ (p : Platform) (law : IsUnmapping p) where
  others_mapped :
      (l : List OsRegion) (r : OsRegion) (rs : List OsRegion)
      → In r l
      → All (λ q. In q l) rs
      → All (λ q. q ≢ r) rs
      → All (λ q. In q (p.munmap l r.base r.size).1) rs
  others_mapped l r [] at h d = tt
  others_mapped l r (q ∷ rs) at h d = (law.kept l r q at h.0 d.0, others_mapped l r rs at h.1 d.1)

  -- Distinct mapped areas are all gone in the end, and every other area stays.
  pub unmap-gone :
      (rs l : List OsRegion) (q : OsRegion)
      → All (λ r. In r l) rs
      → AllDistinct rs
      → In q (unmap p rs l)
      → In q l × All (λ r. q ≢ r) rs
  unmap-gone [] l q h d i = (i, tt)
  unmap-gone (r ∷ rs) l q h d i =
      let (before, apart) =
        unmap-gone rs (p.munmap l r.base r.size).1 q (others_mapped l r rs h.0 h.1 d.0) d.1 i in
      let (was, not_r) = law.gone l r q h.0 before in (was, (not_r, apart))

  pub unmap-kept :
      (rs l : List OsRegion) (q : OsRegion)
      → All (λ r. In r l) rs
      → AllDistinct rs
      → In q l
      → All (λ r. q ≢ r) rs
      → In q (unmap p rs l)
  unmap-kept [] l q h d i apart = i
  unmap-kept (r ∷ rs) l q h d i apart =
      unmap-kept rs (p.munmap l r.base r.size).1 q (others_mapped l r rs h.0 h.1 d.0) d.1
        (law.kept l r q h.0 i apart.0) apart.1
