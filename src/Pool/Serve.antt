-- ===== src/Pool/Serve.antt =====
-- Pool::allocate in every state of the pool.
use custom_memory_allocator.Base.{
  ℕ, ◌+◌, ◌≤◌, ◌<◌, ◌^◌, ◌≡◌, ◌⊎◌, refl, inl, inr, Bool, true, false, null, List, [], ◌∷◌, arith,
  All, All-right, Spaced,
}
use custom_memory_allocator.Memory.{read_word}
use custom_memory_allocator.Memory.Access.{read_word-write_word}
use custom_memory_allocator.Run.{World}
use custom_memory_allocator.Run.Ends.{Ends, ends, Ends-continue}
use custom_memory_allocator.Os.{Platform}
use custom_memory_allocator.Os.Laws.{IsKernel}
use custom_memory_allocator.Pool.{Pool, allocate, take_slot}
use custom_memory_allocator.Pool.Slots.{IsPool, IsPool-IsStock, IsStock-IsPool, tags-write}
use custom_memory_allocator.Pool.Restock.{AreMapped, Starved}
use custom_memory_allocator.Pool.Spared.{
  Spared, Spared-trans, Supplied, Ensured, ensure_slot-Ensured, pop-IsStock, header-Spared,
  tags-Spared,
}

-- The first free slot, or, when none was free before the call, the first one of a new arena, is live
-- now; those after it stay free.
pub record Served (w : World) (this : ℕ) (pool : Pool) (before live : List ℕ) (r : ℕ × Pool)
    (w' : World) : Type 0 where
  pub slot : ℕ
  pub free : List ℕ
  pub from : Supplied before (slot ∷ free)
  pub payload : r.0 ≡ slot + 16
  pub is_pool : IsPool w'.mem this r.1 free (slot ∷ live)
  pub are_mapped : AreMapped w'.process.mapped r.1.arenas
  pub spared : Spared live pool w r.1 w'

-- Or the pool is empty and the system gives no more memory; then nothing changes.
abbrev pub PoolAllocated :
    Platform → World → ℕ → Pool → (free live : List ℕ) → ℕ × Pool → World → Type 0
PoolAllocated p w this pool free live r w' =
    Served w this pool free live r w'
    ⊎ ((r.0 ≡ null) × (free ≡ []) × (r.1 ≡ pool) × (w' ≡ w) × Starved p pool w)

take_slot-PoolAllocated :
    (p : Platform) (w w1 : World) (this : ℕ) (pool : Pool) (free live : List ℕ) (r : Bool × Pool)
    → this < 2 ^ 64
    → 8 ≤ pool.slot_total_size
    → All (λ y. read_word w.mem y ≡ this) live
    → Ensured p w pool free live r w1
    → Ends (PoolAllocated p w this pool free live) (take_slot p this r w1)
unfolding take_slot
take_slot-PoolAllocated p w w1 this pool free live (false, pool1) fits wide tags
      (dry, same_pool, same_world, starved) =
    ends (inr (refl, dry, same_pool, same_world, starved))
take_slot-PoolAllocated p w w1 this pool free live (true, pool1) fits wide tags e =
    let s = pool1.free_head in
    let i = e.is_stock in
    let near = All-right (Spaced pool1.slot_total_size s) e.others live i.spaced.0 in
    let wide1 : 8 ≤ pool1.slot_total_size = omega (arith, i.total) in
    let tags1 = tags-Spared live this pool pool1 w w1 wide e.spared tags in
    ends (
      inl (record {
        slot = s;
        free = e.others;
        from = e.from;
        payload = refl;
        is_pool = IsStock-IsPool (pop-IsStock w1 pool1 s this e.others [] live i) (
          read_word-write_word w1.mem s this fits,
          tags-write w1.mem s this _ wide1 this live near tags1,
        );
        are_mapped = e.are_mapped;
        spared =
            Spared-trans (λ y at. at) e.spared
              (header-Spared live pool1 _ w1 s this wide1 i.placed.0 near refl refl);
      }))

-- allocate hands out the payload of the first free slot, or, when no slot is free, of the first slot
-- of a new arena of 256 slots or more, and the slots behind it stay free; or it answers null and
-- changes nothing, and then no slot is free and mmap refuses the new arena. Each slot of the arenas
-- is free or live after it as before, the live slots keep every byte, and so do the mapped bytes
-- outside the pool's arenas.
pub allocate-PoolAllocated :
    (p : Platform) (w : World) (this : ℕ) (pool : Pool) (free live : List ℕ)
    → IsKernel p
    → this < 2 ^ 64
    → pool.slot_total_size < 2 ^ 40
    → IsPool w.mem this pool free live
    → AreMapped w.process.mapped pool.arenas
    → Ends (PoolAllocated p w this pool free live) (allocate p this pool w)
unfolding allocate
allocate-PoolAllocated p w this pool free live kernel fits small i ms =
    Ends-continue (ensure_slot-Ensured p w pool free live kernel small (IsPool-IsStock i) ms)
      λ r w1 e.
        take_slot-PoolAllocated p w w1 this pool free live r fits (omega (arith, i.total)) i.tags e
