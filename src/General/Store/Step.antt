-- ===== src/General/Store/Step.antt =====
-- What an operation on the general path leaves: a well-formed bag of blocks, and all but the free list as it was.
use custom_memory_allocator.Base.{ℕ, ◌≡◌, refl, List}
use custom_memory_allocator.Run.{World}
use custom_memory_allocator.General.{General}
use custom_memory_allocator.General.Store.{Blk, Spares, Spares-refl, IsStore}

pub record Leaves (g : General) (w : World) (before bs : List Blk) (g' : General) (w' : World)
    : Type 0 where
  pub xs : List ℕ
  pub store : IsStore w'.mem g'.free_list bs xs
  pub spares : Spares before bs w.mem w'.mem
  pub arenas : g'.arenas ≡ g.arenas
  pub arena_size : g'.arena_size ≡ g.arena_size
  pub process : w'.process ≡ w.process

pub Leaves-refl :
    {g : General} {w : World} {bs : List Blk} {xs : List ℕ}
    → IsStore w.mem g.free_list bs xs
    → Leaves g w bs bs g w
Leaves-refl {xs} st = record {
  xs = xs;
  store = st;
  spares = Spares-refl;
  arenas = refl;
  arena_size = refl;
  process = refl;
}
