-- ===== src/Sites.antt =====
-- The owners of the allocator's memory, of src/allocator.cpp: each size class with its pool and the
-- calling thread's cache, and the general path. Each keeps to its own arenas.
pub mod Keep
pub mod Payloads
pub mod Family
pub mod Steps
pub mod Pooled
pub mod Blocks
pub mod Freed
pub mod Whole
pub mod Initial
pub mod Scribble
pub mod Malloc
pub mod Calloc
pub mod Free
pub mod Move
pub mod Regrown
pub mod Route
pub mod Realloc
pub mod Session
use custom_memory_allocator.Base.{ℕ, ◌+◌, ◌≤◌, ◌<◌, ◌≡◌, ◌⊎◌, List, [], ◌++◌, All, In}
use custom_memory_allocator.Run.{OsRegion, World}
use custom_memory_allocator.Os.{Platform}
use custom_memory_allocator.Os.Laws.{MappedByte}
use custom_memory_allocator.Pool.{Pool}
use custom_memory_allocator.Pool.Restock.{IsOutside}
use custom_memory_allocator.ThreadCache.{ThreadLocalCache, pool_address}
use custom_memory_allocator.ThreadCache.Shared.{IsShared}
use custom_memory_allocator.General.{General}
use custom_memory_allocator.General.Store.{in_use, listed, Blk, blk}
use custom_memory_allocator.General.Heap.{Part, bag, arenas_of, OffArena, IsHeap}

-- A size class: its pool, the thread's cache, and where each of its slots is.
pub record Book : Type 0 where
  pub pool : Pool
  pub cache : ThreadLocalCache
  pub free : List ℕ
  pub cached : List ℕ
  pub live : List ℕ

-- The pool at an index, or the general path.
pub data Site : Type 0 where
  pool_site : ℕ → Book → Site
  heap_site : General → List Part → Site

-- The byte lies in none of the site's arenas.
abbrev pub OffSite : Site → ℕ → Type 0
OffSite (pool_site i b) x = IsOutside b.pool.arenas x
OffSite (heap_site g parts) x = All (OffArena x) (arenas_of parts)

abbrev pub IsSound : Platform → World → Site → Type 0
IsSound p w (pool_site i b) = IsShared w (pool_address p i) b.cache b.pool b.free b.cached b.live []
IsSound p w (heap_site g parts) = IsHeap w g parts

-- No byte lies in arenas of both.
abbrev pub SiteApart : Site → Site → Type 0
SiteApart s t = (x : ℕ) → OffSite s x ⊎ OffSite t x

-- A change of one site: no byte that was mapped and lies outside its arenas changes, nor comes to
-- lie inside.
pub record IsLocal (s s' : Site) (w w' : World) : Type 0 where
  pub bytes : (x : ℕ) → MappedByte w x → OffSite s x → (w'.mem x ≡ w.mem x) × OffSite s' x
  pub regions : (r : OsRegion) → In r w.process.mapped → In r w'.process.mapped
  pub held : w'.process.held ≡ w.process.held

-- The `n` bytes from the address on are a payload in a caller's hands.
abbrev pub Holds : Site → (ptr n : ℕ) → Type 0
Holds (pool_site i b) ptr n =
    (s : ℕ) × In s b.live × (ptr ≡ s + 16) × (n ≡ b.pool.slot_payload_size)
Holds (heap_site g parts) ptr n = (a : ℕ) × In (blk a n in_use) (bag parts) × (ptr ≡ a + 16)

-- The `n` bytes from the address on are the site's to hand out again: the payload of a slot that is
-- cached or free, or part of a block on the free list.
abbrev pub IsBack : Site → (ptr n : ℕ) → Type 0
IsBack (pool_site i b) ptr n = (s : ℕ) × In s (b.cached ++ b.free) × (ptr ≡ s + 16)
IsBack (heap_site g parts) ptr n =
    (c : Blk) × In c (bag parts)
    × (c.kind ≡ listed)
    × (c.addr + 16 ≤ ptr)
    × (ptr + n ≤ c.addr + 16 + c.size)

-- No byte lies in both payloads.
abbrev pub Disjoint : (ptr n ptr' n' : ℕ) → Type 0
Disjoint ptr n ptr' n' = (x : ℕ) → ptr ≤ x → x < ptr + n → ptr' ≤ x → x < ptr' + n' → ⊥
