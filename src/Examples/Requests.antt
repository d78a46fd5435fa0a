-- ===== src/Examples/Requests.antt =====
-- The theorems on the public functions at concrete requests.
use custom_memory_allocator.Base.{◌≡◌, ap, inl, inr, [], ◌∷◌, ◌^◌, refl, null, arith}
use custom_memory_allocator.Run.{World, done}
use custom_memory_allocator.Run.Ends.{Ends}
use custom_memory_allocator.Allocator.{Allocator, Stage, initial, my_calloc, allocator_shutdown}
use custom_memory_allocator.Allocator.Shutdown.{ShutDown, allocator_shutdown-ShutDown}
use custom_memory_allocator.Allocator.Calloc.{my_calloc-overflow}
use custom_memory_allocator.Examples.Machine.{machine, start}
use custom_memory_allocator.Examples.Unmapping.{machine-IsUnmapping}
use custom_memory_allocator.Examples.Pools.{small_pool}

my_calloc-overflow_example :
    my_calloc machine Stage.thread_cached initial (2 ^ 33) (2 ^ 31) start
    ≡ done (null, initial) start
my_calloc-overflow_example =
    my_calloc-overflow machine Stage.thread_cached initial (2 ^ 33) (2 ^ 31) start (omega arith)

-- An allocator with one arena and one pool.
abbrev two_areas : Allocator
two_areas = record initial {
  general = record (initial.general) {
    arenas = record { base = 0x10_0000; size = 8192; used = 0 } ∷ [];
  };
  pools = small_pool ∷ [];
}

abbrev two_mapped : World
two_mapped = record {
  mem = λ a. 0;
  process = record {
    mapped =
        record { base = 0x10_0000; size = 8192 }
        ∷ record { base = 0x20_0000; size = 4096 }
        ∷ record { base = 0x1000; size = 192 }
        ∷ [];
    held = [];
  };
}

allocator_shutdown-ShutDown_example :
    Ends (ShutDown two_mapped two_areas) (allocator_shutdown machine two_areas two_mapped)
allocator_shutdown-ShutDown_example =
    allocator_shutdown-ShutDown machine two_areas two_mapped machine-IsUnmapping
      (inl refl, (inr (inr (inl refl)), tt))
      ((λ e. let h : 0x1000 ≡ 0x10_0000 = ap (λ x. x.base) e in omega (arith, h), tt), (tt, tt))
