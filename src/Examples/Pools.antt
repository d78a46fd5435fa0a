-- ===== src/Examples/Pools.antt =====
-- The theorems on pools at a concrete pool.
use custom_memory_allocator.Base.{refl, inl, inr, [], ◌∷◌, arith}
use custom_memory_allocator.Memory.{read_word, write_word}
use custom_memory_allocator.Run.{World}
use custom_memory_allocator.Run.Ends.{Ends}
use custom_memory_allocator.Pool.{Pool, deallocate}
use custom_memory_allocator.Pool.Slots.{IsPool}
use custom_memory_allocator.Pool.Allocate.{Deallocated, deallocate-cons}

-- A pool of 48-byte payloads with free slots at 0x1040 and 0x1000 and a live one at 0x1080.
abbrev pub small_pool : Pool
small_pool = record {
  slot_payload_size = 48;
  slot_total_size = 64;
  free_head = 0x1040;
  arenas = record { base = 0x1000; size = 192 } ∷ [];
}

abbrev pub pool_world : World
pool_world = record {
  mem = write_word (write_word (λ a. 0) 0x1040 0x1000) 0x1080 0x4000;
  process = record { mapped = record { base = 0x1000; size = 192 } ∷ []; held = [] };
}

pub small_pool-IsPool : IsPool pool_world.mem 0x4000 small_pool (0x1040 ∷ 0x1000 ∷ []) (0x1080 ∷ [])
unfolding read_word write_word
small_pool-IsPool = record {
  total = refl;
  payload = refl;
  head = refl;
  chain = (omega arith, omega arith, refl, (omega arith, omega arith, refl, tt));
  tags = (refl, tt);
  spaced = ((inr (omega arith), (inl (omega arith), tt)), ((inl (omega arith), tt), (tt, tt)));
  placed = (
    (omega arith, refl, omega arith, inl (omega arith, omega arith)),
    (
      (omega arith, refl, omega arith, inl (omega arith, omega arith)),
      ((omega arith, refl, omega arith, inl (omega arith, omega arith)), tt),
    ),
  );
  full = refl;
}

deallocate-cons_example :
    Ends
      (Deallocated pool_world 0x4000 0x1080 (0x1040 ∷ 0x1000 ∷ []) [])
      (deallocate small_pool 0x1090 pool_world)
deallocate-cons_example =
    deallocate-cons pool_world 0x4000 small_pool (0x1040 ∷ 0x1000 ∷ []) [] 0x1080 []
      small_pool-IsPool
