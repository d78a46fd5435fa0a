-- ===== src/Threads/Share.antt =====
-- What a thread owns at each point, and that no two owners' slots overlap.
use custom_memory_allocator.Base.{
  ℕ, ◌+◌, ◌≤◌, ◌<◌, ◌^◌, ◌≡◌, subst, List, [], ◌++◌, All, In, In-append_left, In-append_right,
  length,
}
use custom_memory_allocator.Memory.{Memory, read_word}
use custom_memory_allocator.Run.{World}
use custom_memory_allocator.Pool.{Pool, SlotBatch}
use custom_memory_allocator.Pool.Slots.{IsStock}
use custom_memory_allocator.Pool.Restock.{AreMapped}
use custom_memory_allocator.Pool.Spared.{Spared}
use custom_memory_allocator.Pool.Batch.Chains.{IsBatch, IsBatch-Spared}
use custom_memory_allocator.ThreadCache.{ThreadLocalCache, cache_cap}
use custom_memory_allocator.ThreadCache.Shared.{IsShared, batch_of}
use custom_memory_allocator.Threads.{Phase, idle, refilled, over, splicing, Thread, thread, Shared}

-- A chain in hand and the cache behind it.
pub record InHand (m : Memory) (batch : SlotBatch) (cache : ThreadLocalCache) (mine : List ℕ)
    : Type 0 where
  pub front : List ℕ
  pub back : List ℕ
  pub split : mine ≡ front ++ back
  pub hand : IsBatch m batch front
  pub rest : IsBatch m (batch_of cache) back
  pub some_front : 0 < length front
  pub few : length back ≤ cache_cap

-- The slots `mine` are the thread's.
abbrev pub Holds : Memory → ThreadLocalCache → Phase → List ℕ → Type 0
Holds m cache idle mine = IsBatch m (batch_of cache) mine × (length mine ≤ cache_cap)
Holds m cache refilled mine =
    IsBatch m (batch_of cache) mine × (length mine ≤ cache_cap) × (0 < length mine)
Holds m cache over mine = IsBatch m (batch_of cache) mine × (length mine ≡ cache_cap + 1)
Holds m cache (splicing batch) mine = InHand m batch cache mine

pub Holds-Spared :
    (used : List ℕ) (pool pool' : Pool) (w w' : World) (cache : ThreadLocalCache) (ph : Phase)
    (mine : List ℕ)
    → 8 ≤ pool.slot_total_size
    → Spared used pool w pool' w'
    → ((x : ℕ) → In x mine → In x used)
    → Holds w.mem cache ph mine
    → Holds w'.mem cache ph mine
Holds-Spared used pool pool' w w' cache idle mine wide s sub h =
    (IsBatch-Spared used pool pool' w w' (batch_of cache) mine wide s sub h.0, h.1)
Holds-Spared used pool pool' w w' cache refilled mine wide s sub (b, few, some_left) =
    (IsBatch-Spared used pool pool' w w' (batch_of cache) mine wide s sub b, few, some_left)
Holds-Spared used pool pool' w w' cache over mine wide s sub h =
    (IsBatch-Spared used pool pool' w w' (batch_of cache) mine wide s sub h.0, h.1)
Holds-Spared used pool pool' w w' cache (splicing batch) mine wide s sub h =
    let in_mine : (x : ℕ) → In x (h.front ++ h.back) → In x used =
      subst (λ l. (x : ℕ) → In x l → In x used) h.split sub in
    record {
      front = h.front;
      back = h.back;
      split = h.split;
      hand =
          IsBatch-Spared used pool pool' w w' batch h.front wide s
            (λ x at. in_mine x (In-append_left h.front h.back x at)) h.hand;
      rest =
          IsBatch-Spared used pool pool' w w' (batch_of cache) h.back wide s
            (λ x at. in_mine x (In-append_right h.front h.back x at)) h.rest;
      some_front = h.some_front;
      few = h.few;
    }

-- One thread's view: the slots of the other threads' are `others`.
pub record IsPart (owner : ℕ) (s : Shared) (th : Thread) (mine others : List ℕ) : Type 0 where
  pub free : List ℕ
  pub is_stock : IsStock s.world.mem s.pool free (mine ++ (s.live ++ others))
  pub are_mapped : AreMapped s.world.process.mapped s.pool.arenas
  pub holds : Holds s.world.mem th.cache th.phase mine
  pub tags : All (λ y. read_word s.world.mem y ≡ owner) s.live
  pub unheld : s.world.process.held ≡ []
  pub small : s.pool.slot_total_size < 2 ^ 40

-- What a step of one thread leaves: its new slots, and the slots that stay another's or the
-- program's, every byte of them.
pub record Acted (owner : ℕ) (s : Shared) (others : List ℕ) (s' : Shared) (th' : Thread)
    : Type 0 where
  pub mine : List ℕ
  pub is_part : IsPart owner s' th' mine others
  pub spared : Spared others s.pool s.world s'.pool s'.world
  pub live_same :
      (y a : ℕ)
      → In y s.live
      → In y s'.live
      → y ≤ a
      → a < y + s.pool.slot_total_size
      → s'.world.mem a ≡ s.world.mem a

-- At rest, a thread's view is that of a cache in front of the pool.
pub at_rest :
    {owner : ℕ} {s : Shared} {cache : ThreadLocalCache} {mine others : List ℕ}
    → (i : IsPart owner s (thread cache idle) mine others)
    → IsShared s.world owner cache s.pool i.free mine s.live others
at_rest i = record {
  is_stock = i.is_stock;
  are_mapped = i.are_mapped;
  is_batch = i.holds.0;
  tags = i.tags;
  few = i.holds.1;
}

pub resting :
    (owner : ℕ) (s : Shared) (cache : ThreadLocalCache) (free mine others : List ℕ)
    → IsShared s.world owner cache s.pool free mine s.live others
    → s.world.process.held ≡ []
    → s.pool.slot_total_size < 2 ^ 40
    → IsPart owner s (thread cache idle) mine others
resting owner s cache free mine others i unheld small = record {
  free = free;
  is_stock = i.is_stock;
  are_mapped = i.are_mapped;
  holds = (i.is_batch, i.few);
  tags = i.tags;
  unheld = unheld;
  small = small;
}
