-- ===== src/Examples/Crew.antt =====
-- The theorems on several threads at concrete ones.
use custom_memory_allocator.Base.{◌≡◌, refl, inl, [], ◌∷◌, arith}
use custom_memory_allocator.Memory.{write_word}
use custom_memory_allocator.ThreadCache.{ThreadLocalCache, empty_cache}
use custom_memory_allocator.Threads.{
  idle, thread, shared, push, refill, Team, Step, pick, Reaches, here, later,
}
use custom_memory_allocator.Threads.Members.{member}
use custom_memory_allocator.Threads.Together.{IsTeam, Stepped, Step-Stepped}
use custom_memory_allocator.Threads.Start.{start_of, Reaches_start-IsTeam}
use custom_memory_allocator.Examples.Running.{running}
use custom_memory_allocator.Examples.Machine.{machine, machine-IsKernel, start}
use custom_memory_allocator.Examples.Pools.{small_pool, pool_world, small_pool-IsPool}
use custom_memory_allocator.Examples.Caches.{small_pool-IsStock}

-- Two threads with empty caches, and one live slot.
abbrev pair : Team
pair = record {
  state = shared pool_world small_pool (0x1080 ∷ []);
  threads = thread empty_cache idle ∷ thread empty_cache idle ∷ [];
}

pair-IsTeam : IsTeam 0x4000 pair
pair-IsTeam = record {
  members = member (thread empty_cache idle) [] ∷ member (thread empty_cache idle) [] ∷ [];
  threads = refl;
  free = 0x1040 ∷ 0x1000 ∷ [];
  is_stock = small_pool-IsStock;
  are_mapped = (inl refl, tt);
  each = (
    (record { head = refl; tail = refl; count = refl; chain = tt }, omega arith),
    ((record { head = refl; tail = refl; count = refl; chain = tt }, omega arith), tt),
  );
  tags = small_pool-IsPool.tags;
  unheld = refl;
  small = omega arith;
}

-- The second thread frees the slot.
abbrev freed : ThreadLocalCache
freed = record { head = 0x1080; tail = 0x1080; count = 1 }

abbrev after_push : Team
after_push = record {
  state = shared (record pool_world { mem = write_word pool_world.mem 0x1080 0 }) small_pool [];
  threads = thread empty_cache idle ∷ thread freed idle ∷ [];
}

one_push : Step machine 0 pair after_push
one_push = pick (thread empty_cache idle ∷ []) [] refl (push [] 0x1080 [] refl refl (omega arith))

Step-Stepped_example : Stepped 0x4000 pair after_push
Step-Stepped_example = Step-Stepped machine 0 machine-IsKernel (omega arith) pair-IsTeam one_push

-- The first of two fresh threads refills its cache.
refilled_team : (t : Team) × Reaches machine 0 (start_of start 48 2) t
unfolding running
refilled_team = (
  _,
  later here (
      pick [] (thread empty_cache idle ∷ []) refl
        (refill refl refl (λ e. let h : 0x10_3fc0 ≡ 0 = e in omega (arith, h)))),
)

Reaches_start-IsTeam_example : IsTeam 0x4000 refilled_team.0
Reaches_start-IsTeam_example =
    Reaches_start-IsTeam machine 0 start 48 2 refilled_team.0 machine-IsKernel (omega arith) refl
      (omega arith) refl refilled_team.1
