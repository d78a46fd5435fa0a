-- ===== src/Sites/Payloads.antt =====
-- The payloads that a site has handed out lie in its arenas.
use custom_memory_allocator.Base.{ℕ, ◌+◌, ◌≤◌, ◌<◌, [], ◌++◌, All-left, All-right, In-All, arith}
use custom_memory_allocator.Run.{World}
use custom_memory_allocator.Os.{Platform}
use custom_memory_allocator.Pool.Slots.{IsPlaced}
use custom_memory_allocator.Pool.Spared.{Lies-apart}
use custom_memory_allocator.General.Store.{in_use, blk, OffRange}
use custom_memory_allocator.General.Heap.{bag}
use custom_memory_allocator.Sites.{Site, pool_site, heap_site, OffSite, IsSound, Holds}
use custom_memory_allocator.Sites.Keep.{OffArena-blocks}

pub payload_inside :
    (p : Platform) (w : World) (s : Site) (ptr n x : ℕ)
    → IsSound p w s
    → Holds s ptr n
    → ptr ≤ x
    → x < ptr + n
    → OffSite s x
    → ⊥
payload_inside p w (pool_site i b) ptr n x sound (y, at, start, size) lo hi off =
    let stock = sound.is_stock in
    let live = All-left (IsPlaced b.pool) b.live [] (
      All-right (IsPlaced b.pool) b.cached (b.live ++ [])
        (All-right (IsPlaced b.pool) b.free (b.cached ++ (b.live ++ [])) stock.placed)) in
    let (_, _, _, lies) = In-All (IsPlaced b.pool) b.live y at live in
    let apart = Lies-apart b.pool.arenas b.pool.slot_total_size y x lies off in
    omega (arith, stock.total, start, size, lo, hi, apart)
payload_inside p w (heap_site g parts) ptr n x sound (a, at, start) lo hi off =
    let out =
      In-All (OffRange x (x + 1)) (bag parts) (blk a n in_use) at
        (OffArena-blocks w g parts x sound off) in
    omega (arith, start, lo, hi, out)
