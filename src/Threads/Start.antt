-- ===== src/Threads/Start.antt =====
-- The start: a fresh pool and any number of threads with empty caches.
use custom_memory_allocator.Base.{
  ℕ, zero, suc, ◌%◌, ◌≤◌, ◌<◌, ◌^◌, ◌≡◌, refl, sym, ap, subst, List, [], ◌∷◌, arith, All,
}
use custom_memory_allocator.Memory.{Memory}
use custom_memory_allocator.Run.{World}
use custom_memory_allocator.Os.{Platform}
use custom_memory_allocator.Os.Laws.{IsKernel}
use custom_memory_allocator.Pool.{new_pool}
use custom_memory_allocator.Pool.Slots.{IsStock}
use custom_memory_allocator.ThreadCache.{empty_cache, pool_address}
use custom_memory_allocator.Threads.{idle, Thread, thread, shared, Team, Reaches}
use custom_memory_allocator.Threads.Members.{Member, member, MemberHolds, threads_of, slots_of}
use custom_memory_allocator.Threads.Together.{IsTeam, Reaches-IsTeam}

abbrev pub fresh : ℕ → List Thread
fresh zero = []
fresh (suc n) = thread empty_cache idle ∷ fresh n

-- The pool of the slots with `size` bytes of payload, and `n` threads.
abbrev pub start_of : World → (size n : ℕ) → Team
start_of w size n = record { state = shared w (new_pool size) []; threads = fresh n }

fresh_members : ℕ → List Member
fresh_members zero = []
fresh_members (suc n) = member (thread empty_cache idle) [] ∷ fresh_members n

fresh_threads : (n : ℕ) → fresh n ≡ threads_of (fresh_members n)
unfolding fresh_members
fresh_threads zero = refl
fresh_threads (suc n) = ap (λ l. thread empty_cache idle ∷ l) (fresh_threads n)

fresh_slots : (n : ℕ) → slots_of (fresh_members n) ≡ []
unfolding fresh_members
fresh_slots zero = refl
fresh_slots (suc n) = fresh_slots n

fresh_each : (m : Memory) (n : ℕ) → All (MemberHolds m) (fresh_members n)
unfolding fresh_members
fresh_each m zero = tt
fresh_each m (suc n) =
    ((record { head = refl; tail = refl; count = refl; chain = tt }, omega arith), fresh_each m n)

start_of-IsTeam :
    (owner : ℕ) (w : World) (size n : ℕ)
    → size % 16 ≡ 0
    → size ≤ 4096
    → w.process.held ≡ []
    → IsTeam owner (start_of w size n)
unfolding new_pool
start_of-IsTeam owner w size n even small unheld = record {
  members = fresh_members n;
  threads = fresh_threads n;
  free = [];
  is_stock =
      subst (λ l. IsStock w.mem (new_pool size) [] l) (sym (fresh_slots n))
        (record {
          total = omega (arith, small);
          payload = even;
          head = refl;
          chain = tt;
          spaced = tt;
          placed = tt;
          full = refl;
        });
  are_mapped = tt;
  each = fresh_each w.mem n;
  tags = tt;
  unheld = unheld;
  small = omega (arith, small);
}

-- From a fresh pool of a size class and any number of threads with empty caches, every order of
-- steps leads to states in which the free slots of the pool, those in the cache or in the hand of one
-- thread and the live ones do not overlap and are together as many as were carved out of the
-- arenas, so that none is lost; live slots are tagged with the pool, every cache is a chain of its
-- slots with at most 64 of them between the calls, and no mutex stays locked.
pub Reaches_start-IsTeam :
    (p : Platform) (index : ℕ) (w : World) (size n : ℕ) (t : Team)
    → IsKernel p
    → pool_address p index < 2 ^ 64
    → size % 16 ≡ 0
    → size ≤ 4096
    → w.process.held ≡ []
    → Reaches p index (start_of w size n) t
    → IsTeam (pool_address p index) t
Reaches_start-IsTeam p index w size n t kernel low even small unheld r =
    Reaches-IsTeam p index kernel low
      (start_of-IsTeam (pool_address p index) w size n even small unheld) r
