-- ===== src/Examples/Sessions.antt =====
-- The theorems on the whole allocator at concrete states.
use custom_memory_allocator.Base.{ℕ, ◌+◌, ◌*◌, ◌≡◌, inl, refl, sym, subst, [], some, arith}
use custom_memory_allocator.Run.{World, Outcome, done}
use custom_memory_allocator.Run.Ends.{Ends}
use custom_memory_allocator.Allocator.{
  Allocator, Stage, initial, my_malloc, my_calloc, my_free, my_realloc,
}
use custom_memory_allocator.General.{General, default_arena_size}
use custom_memory_allocator.General.Store.{in_use, listed}
use custom_memory_allocator.General.Heap.{IsHeap}
use custom_memory_allocator.Sites.{heap_site, Holds}
use custom_memory_allocator.Sites.Family.{update, update_here}
use custom_memory_allocator.Sites.Steps.{InHand}
use custom_memory_allocator.Sites.Whole.{IsWhole, Release, changed_heap}
use custom_memory_allocator.Sites.Initial.{initial_sites, initial-IsWhole}
use custom_memory_allocator.Sites.Free.{my_free-Release}
use custom_memory_allocator.Sites.Session.{
  Claim, Claims, claimed, nothing_claimed, Session, begin, request,
}
use custom_memory_allocator.Sites.Session.Reached.{Session-serves, Session-frees, Session-resizes}
use custom_memory_allocator.Examples.Machine.{machine, machine-IsKernel, start}
use custom_memory_allocator.Examples.Running.{running}
use custom_memory_allocator.Examples.Stores.{one_arena, two_blocks, two_parts, two_parts-IsHeap}

-- The allocator with the general path of `two_parts`, which has a block in use.
abbrev busy_general : General
busy_general = record one_arena { arena_size = default_arena_size }

abbrev busy : Allocator
unfolding initial
busy = record initial { general = busy_general }

busy-IsHeap : IsHeap (two_blocks in_use listed) busy_general two_parts
busy-IsHeap = record {
  xs = two_parts-IsHeap.xs;
  store = two_parts-IsHeap.store;
  layout = record {
    arenas = refl;
    tiles = two_parts-IsHeap.layout.tiles;
    each = two_parts-IsHeap.layout.each;
    off = two_parts-IsHeap.layout.off;
  };
  settled = two_parts-IsHeap.settled;
  assigned = two_parts-IsHeap.assigned;
  mapped = two_parts-IsHeap.mapped;
}

busy-IsWhole :
    IsWhole machine
      (two_blocks in_use listed)
      busy
      (update initial_sites 9 (heap_site busy_general two_parts))
unfolding initial
busy-IsWhole =
    changed_heap machine start initial initial_sites (initial-IsWhole machine start refl)
      (two_blocks in_use listed) busy_general two_parts refl busy-IsHeap
      (record { bytes = λ x (r, i, _, _) off. absurd i; regions = λ r i. absurd i; held = refl })

busy-InHand : InHand (update initial_sites 9 (heap_site busy_general two_parts)) 4112 48
busy-InHand = (
  9,
  omega arith,
  subst (λ s. Holds s 4112 48)
      (sym (update_here initial_sites 9 (heap_site busy_general two_parts))) (4096, inl refl, refl),
)

my_free-Release_example :
    Ends
      (Release machine
        (two_blocks in_use listed)
        (update initial_sites 9 (heap_site busy_general two_parts))
        4112
        48)
      (my_free machine Stage.thread_cached busy 4112 (two_blocks in_use listed))
my_free-Release_example =
    my_free-Release machine (two_blocks in_use listed) busy
      (update initial_sites 9 (heap_site busy_general two_parts)) 4112 48 (omega arith)
      (omega arith) busy-IsWhole busy-InHand (omega arith)

abbrev value_of : {A : Type 0} → A → Outcome A → A
value_of z (done a w) = a
value_of z _ = z

abbrev world_of : {A : Type 0} → World → Outcome A → World
world_of z (done a w) = w
world_of z _ = z

-- Two requests, from the start.
abbrev first_out : ℕ × Allocator
first_out = value_of (0, initial) (my_malloc machine Stage.thread_cached initial 5000 start)

abbrev first_world : World
first_world = world_of start (my_malloc machine Stage.thread_cached initial 5000 start)

abbrev second_out : ℕ × Allocator
second_out =
    value_of (0, initial) (my_malloc machine Stage.thread_cached first_out.1 6000 first_world)

abbrev second_world : World
second_world = world_of start (my_malloc machine Stage.thread_cached first_out.1 6000 first_world)

first_served :
    my_malloc machine Stage.thread_cached initial 5000 start
    ≡ done (first_out.0, first_out.1) first_world
unfolding running
first_served = refl

second_served :
    my_malloc machine Stage.thread_cached first_out.1 6000 first_world
    ≡ done (second_out.0, second_out.1) second_world
unfolding running
second_served = refl

abbrev first_claim : Claim
first_claim = record { size = 5000; bytes = λ k. first_world.mem (first_out.0 + k) }

abbrev second_claim : Claim
second_claim = record { size = 6000; bytes = λ k. second_world.mem (second_out.0 + k) }

abbrev both : Claims
both = claimed (claimed nothing_claimed first_out.0 first_claim) second_out.0 second_claim

two_requests : Session machine second_world second_out.1 both
two_requests =
    request 6000 second_out.0 second_out.1 second_world
      (request 5000 first_out.0 first_out.1 first_world (begin start refl)
        (omega arith, omega arith, omega arith) first_served)
      (omega arith, omega arith, omega arith) second_served

first_claimed : both first_out.0 ≡ some first_claim
unfolding running
first_claimed = refl

Session-serves_example :
    Ends
      (λ out w'. w'.process.held ≡ [])
      (my_malloc machine Stage.thread_cached second_out.1 (25 * 4) second_world)
    × Ends
        (λ out w'. w'.process.held ≡ [])
        (my_calloc machine Stage.thread_cached second_out.1 25 4 second_world)
Session-serves_example =
    Session-serves machine machine-IsKernel (omega arith) (omega arith) 25 4 two_requests
      (omega arith, omega arith, omega arith)

Session-frees_example :
    Ends
      (λ a' w'. w'.process.held ≡ [])
      (my_free machine Stage.thread_cached second_out.1 first_out.0 second_world)
Session-frees_example =
    Session-frees machine machine-IsKernel (omega arith) (omega arith) first_out.0 first_claim
      two_requests first_claimed

Session-resizes_example :
    Ends
      (λ out w'. w'.process.held ≡ [])
      (my_realloc machine Stage.thread_cached second_out.1 first_out.0 9000 second_world)
Session-resizes_example =
    Session-resizes machine machine-IsKernel (omega arith) (omega arith) first_out.0 9000
      first_claim two_requests first_claimed (omega arith, omega arith, omega arith)
