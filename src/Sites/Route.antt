-- ===== src/Sites/Route.antt =====
-- How the word in front of a payload in hand sends my_free and my_realloc of src/allocator.cpp to the pool
-- or to the general path that handed it out.
use native.Mathlib.Nat.{mul-le-mul_right}
use custom_memory_allocator.Base.{
  ℕ, ◌+◌, ◌*◌, ◌≤◌, ◌<◌, ◌^◌, ◌≡◌, refl, ap, ◌∙◌, subst, true, false, List, [], ◌++◌, All-right,
  All-left, In, In-All, ==_of_ne, ◌==◌, sub64, arith,
}
use custom_memory_allocator.Memory.{read_word}
use custom_memory_allocator.Run.{World}
use custom_memory_allocator.Os.{Platform}
use custom_memory_allocator.SizeClass.{size_classes}
use custom_memory_allocator.Pool.{slot_header_size}
use custom_memory_allocator.Pool.Slots.{IsPlaced}
use custom_memory_allocator.ThreadCache.{pool_address}
use custom_memory_allocator.General.{General}
use custom_memory_allocator.General.Store.{in_use, blk, IsGood}
use custom_memory_allocator.General.Heap.{Part, bag, IsHeap}
use custom_memory_allocator.Allocator.{Allocator, is_known_pool, pool_index_of}
use custom_memory_allocator.Allocator.Routing.{
  is_known_pool_iff, not-is_known_pool, pool_index_of-pool_address,
}
use custom_memory_allocator.Sites.{Book, Site, pool_site, IsSound}
use custom_memory_allocator.Sites.Whole.{IsPoolSite, IsWhole}
use custom_memory_allocator.Sites.Initial.{elem_known}

positive_class : (c : ℕ) → In c size_classes → 0 < c
positive_class c i = In-All (λ d. 0 < d) size_classes c i (ground arith)

-- The tag of a slot is the address of its pool, which leads to the pool's index.
pub record SlotRoute (p : Platform) (w : World) (i s ptr n : ℕ) : Type 0 where
  pub nonnull : (ptr == 0) ≡ false
  pub header : sub64 ptr slot_header_size ≡ s
  pub tag : read_word w.mem (sub64 ptr slot_header_size) ≡ pool_address p i
  pub known : is_known_pool p (pool_address p i) ≡ true
  pub index : pool_index_of p (pool_address p i) ≡ i
  pub some_bytes : 0 < n

pub slot-SlotRoute :
    (p : Platform) (w : World) (a : Allocator) (f : ℕ → Site) (ptr n i : ℕ) (b : Book) (s : ℕ)
    → 0 < p.pool_bytes
    → pool_address p 8 < 2 ^ 64
    → IsWhole p w a f
    → i < 9
    → IsPoolSite a f i b
    → In s b.live
    → ptr ≡ s + 16
    → n ≡ b.pool.slot_payload_size
    → SlotRoute p w i s ptr n
slot-SlotRoute p w a f ptr n i b s pos low whole lt (e, _, _, in_class) live start size =
    let sound : IsSound p w (pool_site i b) =
      subst (IsSound p w) e (whole.sounds i (omega (arith, lt))) in
    let placed = In-All (IsPlaced b.pool) b.live s live (
      All-left (IsPlaced b.pool) b.live [] (
        All-right (IsPlaced b.pool) b.cached (b.live ++ []) (
          All-right (IsPlaced b.pool) b.free (b.cached ++ (b.live ++ []))
            sound.is_stock.placed))) in
    let (_, _, high, _) = placed in
    let total = sound.is_stock.total in
    let le : i * p.pool_bytes ≤ 8 * p.pool_bytes = mul-le-mul_right p.pool_bytes (omega arith) in
    let address : pool_address p i < 2 ^ 64 = omega (arith, low, le) in
    let header : sub64 ptr slot_header_size ≡ s = omega (arith, start, high, total) in
    let c = positive_class _ (elem_known size_classes i _ in_class) in
    record {
      nonnull = ==_of_ne ptr 0 (omega (arith, start));
      header = header;
      tag =
          ap (read_word w.mem) header
          ∙ In-All (λ y. read_word w.mem y ≡ pool_address p i) b.live s live sound.tags;
      known = (is_known_pool_iff p (pool_address p i)).1 (i, omega arith, lt, refl);
      index = pool_index_of-pool_address p i pos address;
      some_bytes = omega (arith, size, c);
    }

-- The tag of a block in use is its size, which is not the address of a pool.
pub record BlockRoute (p : Platform) (w : World) (ptr n : ℕ) : Type 0 where
  pub nonnull : (ptr == 0) ≡ false
  pub tag : read_word w.mem (sub64 ptr slot_header_size) ≡ n
  pub unknown : is_known_pool p n ≡ false
  pub some_bytes : 0 < n

pub block-BlockRoute :
    (p : Platform) (w : World) (g : General) (parts : List Part) (ptr n s : ℕ)
    → n < p.pool_array
    → IsHeap w g parts
    → In (blk s n in_use) (bag parts)
    → ptr ≡ s + 16
    → BlockRoute p w ptr n
block-BlockRoute p w g parts ptr n s small heap at start =
    let good = In-All (IsGood w.mem) (bag parts) (blk s n in_use) at heap.store.good in
    let high = good.low in
    let room = good.room in
    let header : sub64 ptr slot_header_size ≡ s = omega (arith, start, high) in
    record {
      nonnull = ==_of_ne ptr 0 (omega (arith, start));
      tag = ap (read_word w.mem) header ∙ good.tags.head_tag;
      unknown = not-is_known_pool p n small;
      some_bytes = omega (arith, room);
    }
