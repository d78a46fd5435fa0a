-- ===== src/Pool/Release.antt =====
-- Pool::release_all_arenas gives every arena back and leaves the pool empty.
use custom_memory_allocator.Base.{◌≡◌, refl, null, List, [], ◌∷◌}
use custom_memory_allocator.Run.{World, OsRegion, done}
use custom_memory_allocator.Os.{Platform, os_release}
use custom_memory_allocator.Os.Unmap.{unmap, with_mapped}
use custom_memory_allocator.Pool.{Pool, PoolArena, release_each, release_all_arenas}
use custom_memory_allocator.Pool.Restock.{region_of}

abbrev pub regions_of : List PoolArena → List OsRegion
regions_of [] = []
regions_of (a ∷ as') = region_of a ∷ regions_of as'

abbrev pub emptied : Pool → Pool
emptied pool = record pool { free_head = null; arenas = [] }

release_each_lem :
    (p : Platform) (as' : List PoolArena) (w : World)
    → release_each p as' w ≡ done tt (with_mapped (unmap p (regions_of as') w.process.mapped) w)
unfolding release_each os_release
release_each_lem p [] w = refl
release_each_lem p (a ∷ as') w =
    release_each_lem p as' (with_mapped (p.munmap w.process.mapped a.base a.size).1 w)

pub release_all_arenas_lem :
    (p : Platform) (pool : Pool) (w : World)
    → release_all_arenas p pool w
      ≡ done (emptied pool) (with_mapped (unmap p (regions_of pool.arenas) w.process.mapped) w)
unfolding release_all_arenas
release_all_arenas_lem p pool w = let all = release_each_lem p pool.arenas w in rw all refl
