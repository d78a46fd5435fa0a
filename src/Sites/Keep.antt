-- ===== src/Sites/Keep.antt =====
-- A site stays sound when the bytes of its arenas keep their values.
use custom_memory_allocator.Base.{
  ℕ, ◌+◌, ◌≤◌, ◌<◌, ◌≡◌, ◌⊎◌, inl, inr, List, [], ◌∷◌, ◌++◌, All, All-left, All-right, All-map,
  All-of_In, In, In-All, arith, lt_cases, refl,
}
use custom_memory_allocator.Memory.Access.{read_word-agree}
use custom_memory_allocator.Run.{OsRegion, World}
use custom_memory_allocator.Os.{Platform}
use custom_memory_allocator.Os.Laws.{MappedByte}
use custom_memory_allocator.Pool.{PoolArena}
use custom_memory_allocator.Pool.Slots.{IsPlaced}
use custom_memory_allocator.Pool.Restock.{AreMapped, IsOutside, SameAt, Chain-same, tags-same}
use custom_memory_allocator.Pool.Spared.{Lies-apart}
use custom_memory_allocator.ThreadCache.Shared.{IsShared}
use custom_memory_allocator.FreeList.Links.{SameNode, Links-frame}
use custom_memory_allocator.General.{Arena, General}
use custom_memory_allocator.General.Store.{listed, Blk, blk, IsGood, OffRange}
use custom_memory_allocator.General.Store.Frame.{IsGood-same}
use custom_memory_allocator.General.Heap.{
  Part, bag, arenas_of, area, OffArena, IsArena, IsMapped, IsHeap,
}
use custom_memory_allocator.General.Heap.Carve.{ArenaClear, bag-OffRange}
use custom_memory_allocator.Sites.{Book, Site, pool_site, heap_site, OffSite, IsSound}

pub range_cases :
    (x base size : ℕ) → ((x < base) ⊎ (base + size ≤ x)) ⊎ ((base ≤ x) × (x < base + size))
range_cases x base size = elim (lt_cases x base) [
  | inl lt ↦ inl (inl lt)
  | inr lo ↦ elim (lt_cases x (base + size)) [ inl hi ↦ inr (lo, hi) | inr out ↦ inl (inr out) ]
]

-- A byte is outside the arenas or mapped, since they are.
pool_bytes :
    (w : World) (arenas : List PoolArena) (x : ℕ)
    → AreMapped w.process.mapped arenas
    → IsOutside arenas x ⊎ MappedByte w x
pool_bytes w [] x ms = inl tt
pool_bytes w (a ∷ arenas) x ms = elim (range_cases x a.base a.size) [
  | inr within ↦ inr (record { base = a.base; size = a.size }, ms.0, within.0, within.1)
  | inl out ↦ elim (pool_bytes w arenas x ms.1) [ inl outs ↦ inl (out, outs) | inr m ↦ inr m ]
]

heap_bytes :
    (w : World) (arenas : List Arena) (x : ℕ)
    → All (IsMapped w) arenas
    → All (OffArena x) arenas ⊎ MappedByte w x
heap_bytes w [] x ms = inl tt
heap_bytes w (a ∷ arenas) x ms = elim (range_cases x a.base a.size) [
  | inr within ↦ inr (area a, ms.0, within.0, within.1)
  | inl out ↦ elim (heap_bytes w arenas x ms.1) [ inl outs ↦ inl (out, outs) | inr m ↦ inr m ]
]

-- The arenas of a sound site are mapped.
pub site_bytes :
    (p : Platform) (w : World) (s : Site) (x : ℕ) → IsSound p w s → OffSite s x ⊎ MappedByte w x
site_bytes p w (pool_site i b) x sound = pool_bytes w b.pool.arenas x sound.are_mapped
site_bytes p w (heap_site g parts) x sound = heap_bytes w (arenas_of parts) x sound.mapped

-- A byte outside the arenas is in no block.
pub OffArena-blocks :
    (w : World) (g : General) (parts : List Part) (x : ℕ)
    → IsHeap w g parts
    → All (OffArena x) (arenas_of parts)
    → All (OffRange x (x + 1)) (bag parts)
OffArena-blocks w g parts x heap off = bag-OffRange x (x + 1) parts heap.layout.tiles (
    All-of_In (ArenaClear x (x + 1)) (arenas_of parts) λ a i.
      let out = In-All (OffArena x) (arenas_of parts) a i off in
      let used = (In-All IsArena (arenas_of parts) a i heap.layout.each).used in ground arith)

module _ (w w' : World)
    (regions : (r : OsRegion) → In r w.process.mapped → In r w'.process.mapped) where
  -- The slots of a class, when the words at their starts are the same.
  pub shared_same :
      (owner : ℕ) (b : Book)
      → All (SameAt w.mem w'.mem) (b.free ++ (b.cached ++ (b.live ++ [])))
      → IsShared w owner b.cache b.pool b.free b.cached b.live []
      → IsShared w' owner b.cache b.pool b.free b.cached b.live []
  shared_same owner b all i =
      let behind = All-right (SameAt w.mem w'.mem) b.free (b.cached ++ (b.live ++ [])) all in
      record {
        is_stock = record {
          total = i.is_stock.total;
          payload = i.is_stock.payload;
          head = i.is_stock.head;
          chain =
              Chain-same w.mem w'.mem 0 b.free
                (All-left (SameAt w.mem w'.mem) b.free (b.cached ++ (b.live ++ [])) all)
                i.is_stock.chain;
          spaced = i.is_stock.spaced;
          placed = i.is_stock.placed;
          full = i.is_stock.full;
        };
        are_mapped =
            All-map (λ a. In (record { base = a.base; size = a.size }) w.process.mapped)
              (λ a. In (record { base = a.base; size = a.size }) w'.process.mapped) b.pool.arenas
              (λ a at. regions (record { base = a.base; size = a.size }) at) i.are_mapped;
        is_batch = record {
          head = i.is_batch.head;
          tail = i.is_batch.tail;
          count = i.is_batch.count;
          chain =
              Chain-same w.mem w'.mem 0 b.cached
                (All-left (SameAt w.mem w'.mem) b.cached (b.live ++ []) behind) i.is_batch.chain;
        };
        tags =
            tags-same w.mem w'.mem owner b.live
              (All-left (SameAt w.mem w'.mem) b.live []
                (All-right (SameAt w.mem w'.mem) b.cached (b.live ++ []) behind))
              i.tags;
        few = i.few;
      }

  shared_keep :
      (owner : ℕ) (b : Book)
      → ((x : ℕ) → IsOutside b.pool.arenas x ⊎ (w'.mem x ≡ w.mem x))
      → IsShared w owner b.cache b.pool b.free b.cached b.live []
      → IsShared w' owner b.cache b.pool b.free b.cached b.live []
  shared_keep owner b same i =
      let agree : (y : ℕ) → IsPlaced b.pool y → SameAt w.mem w'.mem y = λ y placed.
        read_word-agree w.mem w'.mem y λ x lo hi. elim (same x) [
          | inr e ↦ e
          | inl out ↦
              let (_, _, _, lies) = placed in
              let apart = Lies-apart b.pool.arenas b.pool.slot_total_size y x lies out in
              absurd (omega (arith, i.is_stock.total, lo, hi, apart))
        ] in
      shared_same owner b
        (All-map (IsPlaced b.pool) (SameAt w.mem w'.mem) (b.free ++ (b.cached ++ (b.live ++ [])))
          agree i.is_stock.placed)
        i

  -- The heap, when its blocks keep their bytes but for the payloads of those in use.
  pub IsHeap-same :
      (g : General) (parts : List Part)
      → ((b : Blk)
          → In b (bag parts)
          → (x : ℕ) → b.addr ≤ x
          → x < b.addr + 32 + b.size
          → (b.kind ≡ listed) ⊎ (x < b.addr + 16) ⊎ (b.addr + 16 + b.size ≤ x)
          → w'.mem x ≡ w.mem x)
      → IsHeap w g parts
      → IsHeap w' g parts
  IsHeap-same g parts same heap =
      let store = heap.store in
      record {
        xs = heap.xs;
        store = record {
          good = All-of_In (IsGood w'.mem) (bag parts) λ b i.
              IsGood-same w.mem w'.mem b
                (λ x lo hi. same b i x lo (omega arith) (inr (inl (omega arith))))
                (λ x lo hi. same b i x (omega arith) (omega arith) (inr (inr lo)))
                (In-All (IsGood w.mem) (bag parts) b i store.good);
          off = store.off;
          free_list = record {
            head = store.free_list.head;
            links =
                Links-frame w.mem w'.mem 0 0 heap.xs
                  (All-of_In (SameNode w.mem w'.mem) heap.xs λ y i.
                    let (s, at) = store.only_free y i in
                    let good = In-All (IsGood w.mem) (bag parts) (blk y s listed) at store.good in
                    let room = good.room in
                    let agree : (x : ℕ) → y ≤ x → x < y + 32 + s → w'.mem x ≡ w.mem x =
                      λ x lo hi. same (blk y s listed) at x lo hi (inl refl) in
                    (
                      read_word-agree w.mem w'.mem y (λ x l h. agree x l (omega (arith, room))),
                      read_word-agree w.mem w'.mem (y + 16)
                          (λ x l h. agree x (omega arith) (omega (arith, room))),
                      read_word-agree w.mem w'.mem (y + 16 + 8)
                          (λ x l h. agree x (omega arith) (omega (arith, room))),
                    ))
                  store.free_list.links;
            apart = store.free_list.apart;
          };
          only_free = store.only_free;
          all_free = store.all_free;
        };
        layout = heap.layout;
        settled = heap.settled;
        assigned = heap.assigned;
        mapped =
            All-map (IsMapped w) (IsMapped w') (arenas_of parts) (λ a at. regions (area a) at)
              heap.mapped;
      }

  IsHeap-keep :
      (g : General) (parts : List Part)
      → ((x : ℕ) → All (OffArena x) (arenas_of parts) ⊎ (w'.mem x ≡ w.mem x))
      → IsHeap w g parts
      → IsHeap w' g parts
  IsHeap-keep g parts same heap =
      IsHeap-same g parts
        (λ b i x lo hi _. elim (same x) [
          | inr e ↦ e
          | inl off ↦
              let out =
                In-All (OffRange x (x + 1)) (bag parts) b i
                  (OffArena-blocks w g parts x heap off) in
              absurd (omega (arith, lo, hi, out))
        ])
        heap

  pub IsSound-keep :
      (p : Platform) (s : Site)
      → ((x : ℕ) → OffSite s x ⊎ (w'.mem x ≡ w.mem x))
      → IsSound p w s
      → IsSound p w' s
  IsSound-keep p (pool_site i b) same sound = shared_keep _ b same sound
  IsSound-keep p (heap_site g parts) same sound = IsHeap-keep g parts same sound
