-- ===== src/Sites/Blocks.antt =====
-- malloc_general of src/allocator.cpp, behind its lock, as a change of the general path's site.
use custom_memory_allocator.Base.{
  ℕ, ◌+◌, ◌≤◌, ◌<◌, ◌^◌, ◌≡◌, ◌⊎◌, inl, inr, refl, sym, ap, ◌∙◌, subst, null, List, ◌∷◌, All,
  All-map, All-of_In, In, arith, false,
}
use custom_memory_allocator.Run.{World, Mutex, holds, set_held, with_lock}
use custom_memory_allocator.Run.Ends.{Ends}
use custom_memory_allocator.Run.Locks.{locked, unlocked, with_lock-Ends}
use custom_memory_allocator.Os.{Platform}
use custom_memory_allocator.Os.Laws.{IsKernel, Denied, MappedByte}
use custom_memory_allocator.General.{General, align_up}
use custom_memory_allocator.General.Align.{align_up_least}
use custom_memory_allocator.General.Blocks.{malloc_general}
use custom_memory_allocator.General.Store.{Foreign, in_use, Blk, blk, OffRange}
use custom_memory_allocator.General.Store.Frame.{AllOff-pair}
use custom_memory_allocator.General.Heap.{Part, bag, arenas_of, OffArena, IsHeap}
use custom_memory_allocator.General.Heap.Bump.{Refused}
use custom_memory_allocator.General.Heap.Malloc.{Served, malloc_general-Served}
use custom_memory_allocator.Sites.{heap_site, Holds}
use custom_memory_allocator.Sites.Keep.{OffArena-blocks, site_bytes}
use custom_memory_allocator.Sites.Payloads.{payload_inside}
use custom_memory_allocator.Sites.Steps.{Grown}

-- Which mutexes are held is nothing to the heap.
pub IsHeap-set_held :
    (held : List Mutex) (w : World) (g : General) (parts : List Part)
    → IsHeap w g parts
    → IsHeap (set_held held w) g parts
IsHeap-set_held held w g parts heap = record {
  xs = heap.xs;
  store = heap.store;
  layout = heap.layout;
  settled = heap.settled;
  assigned = heap.assigned;
  mapped = heap.mapped;
}

-- A byte outside the arenas is foreign to their blocks.
pub OffArena-Foreign :
    (w : World) (g : General) (parts : List Part) (x : ℕ)
    → IsHeap w g parts
    → All (OffArena x) (arenas_of parts)
    → All (Foreign x) (bag parts)
OffArena-Foreign w g parts x heap off =
    All-map (OffRange x (x + 1)) (Foreign x) (bag parts) (λ b out. apart b out)
      (OffArena-blocks w g parts x heap off)
  where
    apart : (b : Blk) → OffRange x (x + 1) b → Foreign x b
    apart b (inl h) = inl (omega arith)
    apart b (inr h) = inr (inl h)

-- So is a byte of the payload of a block in use.
pub payload-Foreign :
    (w : World) (g : General) (parts : List Part) (a n x : ℕ)
    → IsHeap w g parts
    → In (blk a n in_use) (bag parts)
    → a + 16 ≤ x
    → x < a + 16 + n
    → All (Foreign x) (bag parts)
payload-Foreign w g parts a n x heap at lo hi = All-of_In (Foreign x) (bag parts) λ c i.
    elim (AllOff-pair (bag parts) c (blk a n in_use) heap.store.off i at) [
      | inl same ↦ subst (Foreign x) (sym same) (inr (inr (refl, lo, hi)))
      | inr (inl before) ↦ inr (inl (omega arith))
      | inr (inr behind) ↦ inl (omega arith)
    ]

module _ (p : Platform) (w : World) (g : General) (parts : List Part)
    (heap : IsHeap w g parts) where
  -- A byte of a payload is mapped.
  pub payload_mapped :
      (q m x : ℕ) → Holds (heap_site g parts) q m → q ≤ x → x < q + m → MappedByte w x
  payload_mapped q m x held lo hi = elim (site_bytes p w (heap_site g parts) x heap) [
    | inl off ↦ absurd (payload_inside p w (heap_site g parts) q m x heap held lo hi off)
    | inr m ↦ m
  ]

  module _ (size : ℕ) (out : ℕ × General) (w' : World)
      (s : Served (locked Mutex.general w) g parts size out w') where
    Served_only :
        (q m : ℕ)
        → Holds (heap_site out.1 s.parts') q m
        → ((q ≡ out.0) × (m ≡ s.size)) ⊎ Holds (heap_site g parts) q m
    Served_only q m (a, at, start) = elim (s.only (blk a m in_use) at refl) [
      | inl e ↦
          let same : a ≡ s.addr = ap (λ c. c.addr) e in
          inl (start ∙ ap (λ (k : ℕ). k + 16) same ∙ sym s.pointer, ap (λ c. c.size) e)
      | inr old ↦ inr (a, old, start)
    ]

    Served-Grown :
        Grown p w (heap_site g parts) (heap_site out.1 s.parts') (unlocked w w') out.0 s.size
    Served-Grown = record {
      sound = IsHeap-set_held w.process.held w' out.1 s.parts' s.heap;
      local = record {
        bytes = λ x m off.
            let off' = s.lands x m off in
            (
              s.same x (OffArena-Foreign w g parts x heap off)
                  (OffArena-Foreign w' out.1 s.parts' x s.heap off') m,
              off',
            );
        regions = s.mapped;
        held = refl;
      };
      new = (s.addr, s.owned, s.pointer);
      kept = λ q m (a, at, start). (a, s.keeps (blk a m in_use) at refl, start);
      only = Served_only;
      fresh = λ q m (a, at, start) x lo hi lo' hi'.
          let off = s.apart (blk a m in_use) at refl in
          omega (arith, start, s.pointer, lo, hi, lo', hi', off);
      same = λ q m x (a, at, start) lo hi.
          let lo' : a + 16 ≤ x = omega (arith, start, lo) in
          let hi' : x < a + 16 + m = omega (arith, start, hi) in
          s.same x (payload-Foreign w g parts a m x heap at lo' hi')
            (payload-Foreign w' out.1 s.parts' a m x s.heap (s.keeps (blk a m in_use) at refl) lo'
              hi')
            (payload_mapped q m x (a, at, start) lo hi);
    }

  -- What malloc_general leaves of the site: nothing has changed and mmap has refused, or there is one payload more, with
  -- room for the request.
  abbrev pub LargeMalloc : ℕ → ℕ × General → World → Type 0
  LargeMalloc size out w' =
      ((out.0 ≡ null) × (out.1 ≡ g) × (w' ≡ w) × Denied p w size)
      ⊎ ((parts' : List Part) × (n : ℕ) × (size ≤ n)
          × (n ≤ size + 4096)
          × (out.1.arena_size ≡ g.arena_size)
          × Grown p w (heap_site g parts) (heap_site out.1 parts') w' out.0 n)

  pub malloc_general-LargeMalloc :
      (size : ℕ)
      → IsKernel p
      → 0 < size
      → size ≤ 2 ^ 62
      → g.arena_size ≤ 2 ^ 63
      → holds Mutex.general w.process.held ≡ false
      → Ends (LargeMalloc size) (with_lock Mutex.general (malloc_general p g size) w)
  malloc_general-LargeMalloc size k pos small modest unheld =
      with_lock-Ends
        (λ out w'.
          Refused p (locked Mutex.general w) g (align_up size) out w'
          ⊎ Served (locked Mutex.general w) g parts (align_up size) out w')
        (LargeMalloc size) Mutex.general (malloc_general p g size) w unheld
        (malloc_general-Served p (locked Mutex.general w) g parts size k
          (IsHeap-set_held (Mutex.general ∷ w.process.held) w g parts heap) pos small modest)
        λ out w' r. elim r [
          | inl refused ↦ (
            ap (λ u. u.process.held) refused.world,
            inl (
              refused.pointer,
              refused.general,
              ap (unlocked w) refused.world,
              (refused.denied.0, enough (omega (arith, refused.denied.1)), refused.denied.2),
            ),
          )
          | inr s ↦ (
            s.held,
            inr (
              s.parts',
              s.size,
              enough s.room,
              near s.snug,
              s.arena_size,
              Served-Grown (align_up size) out w' s,
            ),
          )
        ]
    where
      enough : {n : ℕ} → align_up size ≤ n → size ≤ n
      enough le =
          let (_, up, _, _) = align_up_least size (omega (arith, small)) in omega (arith, up, le)

      near : {n : ℕ} → n ≤ align_up size + 47 → n ≤ size + 4096
      near le =
          let (_, _, up, _) = align_up_least size (omega (arith, small)) in omega (arith, up, le)
