-- ===== src/Allocator/Shutdown.antt =====
-- allocator_shutdown gives every area back and leaves the allocator as it was at the start.
use custom_memory_allocator.Base.{
  ◌≡◌, ◌≢◌, refl, sym, subst, null, List, [], ◌∷◌, ◌++◌, map, In, All,
}
use custom_memory_allocator.Run.{World, OsRegion, done}
use custom_memory_allocator.Run.Ends.{Ends, ends}
use custom_memory_allocator.FreeList.{free_list_at}
use custom_memory_allocator.Os.{Platform, os_release}
use custom_memory_allocator.Os.Unmap.{
  IsUnmapping, unmap, unmap-append, with_mapped, AllDistinct, unmap-gone, unmap-kept,
}
use custom_memory_allocator.Pool.{Pool}
use custom_memory_allocator.Pool.Release.{regions_of, emptied, release_all_arenas_lem}
use custom_memory_allocator.ThreadCache.{empty_cache}
use custom_memory_allocator.General.{Arena, release_arenas}
use custom_memory_allocator.Allocator.{Allocator, release_pools, allocator_shutdown}

-- The areas of the general path, and those of the pools.
abbrev pub areas_of : List Arena → List OsRegion
areas_of [] = []
areas_of (a ∷ as') = record { base = a.base; size = a.size } ∷ areas_of as'

abbrev pub pool_areas : List Pool → List OsRegion
pool_areas [] = []
pool_areas (q ∷ qs) = regions_of q.arenas ++ pool_areas qs

abbrev pub all_areas : Allocator → List OsRegion
all_areas a = areas_of a.general.arenas ++ pool_areas a.pools

release_arenas_lem :
    (p : Platform) (as' : List Arena) (w : World)
    → release_arenas p as' w ≡ done tt (with_mapped (unmap p (areas_of as') w.process.mapped) w)
unfolding release_arenas os_release
release_arenas_lem p [] w = refl
release_arenas_lem p (a ∷ as') w =
    release_arenas_lem p as' (with_mapped (p.munmap w.process.mapped a.base a.size).1 w)

release_pools_lem :
    (p : Platform) (qs : List Pool) (w : World)
    → release_pools p qs w
      ≡ done (map emptied qs) (with_mapped (unmap p (pool_areas qs) w.process.mapped) w)
unfolding release_pools
release_pools_lem p [] w = refl
release_pools_lem p (q ∷ qs) w =
    let w1 = with_mapped (unmap p (regions_of q.arenas) w.process.mapped) w in
    let first = release_all_arenas_lem p q w in
    let later = release_pools_lem p qs w1 in
    let e = unmap-append p (regions_of q.arenas) (pool_areas qs) w.process.mapped in
    rw (first, later, e) refl

-- What a shutdown leaves.
pub record ShutDown (w : World) (a a' : Allocator) (w' : World) : Type 0 where
  pub arenas : a'.general.arenas ≡ []
  pub free_list : a'.general.free_list ≡ free_list_at null
  pub arena_size : a'.general.arena_size ≡ a.general.arena_size
  pub pools : a'.pools ≡ map emptied a.pools
  pub caches : a'.tls_caches ≡ map (λ c. empty_cache) a.tls_caches
  pub gone :
      (q : OsRegion)
      → In q w'.process.mapped
      → In q w.process.mapped × All (λ r. q ≢ r) (all_areas a)
  pub kept :
      (q : OsRegion)
      → In q w.process.mapped
      → All (λ r. q ≢ r) (all_areas a)
      → In q w'.process.mapped
  pub held : w'.process.held ≡ w.process.held
  pub same : w'.mem ≡ w.mem

-- When the areas of the arenas and of the pools are mapped and differ from one another,
-- allocator_shutdown unmaps exactly them, empties the free list, every pool and every cache, and
-- keeps the sizes of the pools and the arena size; it writes no byte.
pub allocator_shutdown-ShutDown :
    (p : Platform) (a : Allocator) (w : World)
    → IsUnmapping p
    → All (λ r. In r w.process.mapped) (all_areas a)
    → AllDistinct (all_areas a)
    → Ends (ShutDown w a) (allocator_shutdown p a w)
unfolding allocator_shutdown
allocator_shutdown-ShutDown p a w law mapped distinct =
    let w1 = with_mapped (unmap p (areas_of a.general.arenas) w.process.mapped) w in
    let first = release_arenas_lem p a.general.arenas w in
    let later = release_pools_lem p a.pools w1 in
    let e = unmap-append p (areas_of a.general.arenas) (pool_areas a.pools) w.process.mapped in
    rw (first, later)
      (ends (record {
        arenas = refl;
        free_list = refl;
        arena_size = refl;
        pools = refl;
        caches = refl;
        gone = λ q i.
            unmap-gone p law (all_areas a) w.process.mapped q mapped distinct
              (subst (In q) (sym e) i);
        kept = λ q i apart.
            subst (In q) e
              (unmap-kept p law (all_areas a) w.process.mapped q mapped distinct i apart);
        held = refl;
        same = refl;
      }))
