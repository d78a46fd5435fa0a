-- ===== src/Sites/Whole.antt =====
-- The sites of a whole allocator: the nine pools with the caches, at 0 to 8, and the general path,
-- at 9.
use custom_memory_allocator.Base.{
  ℕ, ◌+◌, ◌≤◌, ◌<◌, ◌^◌, ◌≡◌, ◌≢◌, ◌⊎◌, inl, inr, refl, sym, ap, ◌∙◌, zero, suc, null, List, [],
  ◌∷◌, some, get_elem?, set, arith,
}
use custom_memory_allocator.Run.{World}
use custom_memory_allocator.Os.{Platform}
use custom_memory_allocator.Os.Laws.{Denied}
use custom_memory_allocator.SizeClass.{size_classes}
use custom_memory_allocator.General.{General}
use custom_memory_allocator.General.Heap.{Part}
use custom_memory_allocator.Allocator.{Allocator}
use custom_memory_allocator.Sites.{Book, Site, pool_site, heap_site, IsSound, IsLocal, Disjoint}
use custom_memory_allocator.Sites.Family.{
  AreSound, AreApart, update, update_here, update_other, update_cases, update-AreSound,
  update-AreApart,
}
use custom_memory_allocator.Sites.Steps.{InHand, IsReturned, SameBytes}

-- The site is that of the pool and the cache at the index, with the payload size of its class.
abbrev pub IsPoolSite : Allocator → (ℕ → Site) → ℕ → Book → Type 0
IsPoolSite a f i b =
    (f i ≡ pool_site i b)
    × (get_elem? a.pools i ≡ some b.pool)
    × (get_elem? a.tls_caches i ≡ some b.cache)
    × (get_elem? size_classes i ≡ some b.pool.slot_payload_size)

-- Each site is sound, no byte lies in arenas of two of them, and the thread holds no mutex.
pub record IsWhole (p : Platform) (w : World) (a : Allocator) (f : ℕ → Site) : Type 0 where
  pub parts : List Part
  pub heap : f 9 ≡ heap_site a.general parts
  pub pools : (i : ℕ) → i < 9 → (b : Book) × IsPoolSite a f i b
  pub sounds : AreSound p w f
  pub aparts : AreApart f
  pub unlocked : w.process.held ≡ []
  pub arena_size : a.general.arena_size ≤ 2 ^ 63

-- No payload is handed out or taken back, and each holds the same bytes.
pub record Refusal (p : Platform) (w : World) (f : ℕ → Site) (size : ℕ) (out : ℕ × Allocator)
    (w' : World) : Type 0 where
  pub f' : ℕ → Site
  pub pointer : out.0 ≡ null
  pub denied : Denied p w' size
  pub whole : IsWhole p w' out.1 f'
  pub kept : (q m : ℕ) → InHand f q m → InHand f' q m × SameBytes w w' q m
  pub only : (q m : ℕ) → InHand f' q m → InHand f q m

-- One more payload is in hand, with room for the request and apart from the others.
pub record Grant (p : Platform) (w : World) (f : ℕ → Site) (size : ℕ) (out : ℕ × Allocator)
    (w' : World) : Type 0 where
  pub f' : ℕ → Site
  pub n : ℕ
  pub room : size ≤ n
  pub snug : n ≤ size + 4096
  pub whole : IsWhole p w' out.1 f'
  pub new : InHand f' out.0 n
  pub kept : (q m : ℕ) → InHand f q m → InHand f' q m × SameBytes w w' q m × Disjoint q m out.0 n
  pub only : (q m : ℕ) → InHand f' q m → ((q ≡ out.0) × (m ≡ n)) ⊎ InHand f q m

-- The payload is not in hand any more; each of the others is, and holds the same bytes.
pub record Release (p : Platform) (w : World) (f : ℕ → Site) (ptr n : ℕ) (a' : Allocator)
    (w' : World) : Type 0 where
  pub f' : ℕ → Site
  pub whole : IsWhole p w' a' f'
  pub kept : (q m : ℕ) → InHand f q m → ((q ≡ ptr) × (m ≡ n)) ⊎ (InHand f' q m × SameBytes w w' q m)
  pub only : (q m : ℕ) → InHand f' q m → InHand f q m
  pub gone : InHand f' ptr n → ⊥
  pub back : IsReturned f f' ptr n

module _ {A : Type 0} where
  get_elem?-set_here :
      (xs : List A) (i : ℕ) (u v : A) → get_elem? xs i ≡ some u → get_elem? (set xs i v) i ≡ some v
  get_elem?-set_here [] i u v e = cc
  get_elem?-set_here (x ∷ xs) zero u v e = refl
  get_elem?-set_here (x ∷ xs) (suc i) u v e = get_elem?-set_here xs i u v e

  get_elem?-set_other :
      (xs : List A) (i j : ℕ) (v : A) → j ≢ i → get_elem? (set xs i v) j ≡ get_elem? xs j
  get_elem?-set_other [] i j v ne = refl
  get_elem?-set_other (x ∷ xs) zero zero v ne = absurd (ne refl)
  get_elem?-set_other (x ∷ xs) zero (suc j) v ne = refl
  get_elem?-set_other (x ∷ xs) (suc i) zero v ne = refl
  get_elem?-set_other (x ∷ xs) (suc i) (suc j) v ne =
      get_elem?-set_other xs i j v (λ e. ne (ap suc e))

module _ (p : Platform) (w : World) (a : Allocator) (f : ℕ → Site) (whole : IsWhole p w a f)
    (w' : World) where
  -- The allocator when one pool and its cache have changed.
  pub changed_pool :
      (i : ℕ) (b b' : Book)
      → i < 9
      → IsPoolSite a f i b
      → b'.pool.slot_payload_size ≡ b.pool.slot_payload_size
      → IsSound p w' (pool_site i b')
      → IsLocal (f i) (pool_site i b') w w'
      → IsWhole p w'
          (record a { pools = set a.pools i b'.pool; tls_caches = set a.tls_caches i b'.cache })
          (update f i (pool_site i b'))
  changed_pool i b b' lt (_, at_pool, at_cache, at_class) size sound local = record {
    parts = whole.parts;
    heap = update_other f i 9 (pool_site i b') (omega (arith, lt)) ∙ whole.heap;
    pools = λ j ltj. elim (update_cases f i j (pool_site i b')) [
      | inl (same, e) ↦ (
        b',
        (
          e ∙ ap (λ k. pool_site k b') (sym same),
          ap (λ k. get_elem? (set a.pools i b'.pool) k) same
              ∙ get_elem?-set_here a.pools i b.pool b'.pool at_pool,
          ap (λ k. get_elem? (set a.tls_caches i b'.cache) k) same
              ∙ get_elem?-set_here a.tls_caches i b.cache b'.cache at_cache,
          ap (λ k. get_elem? size_classes k) same ∙ at_class ∙ ap some (sym size),
        ),
      )
      | inr (ne, e) ↦
          let (c, (at, pool, cache, class)) = whole.pools j ltj in
          (
            c,
            (
              e ∙ at,
              get_elem?-set_other a.pools i j b'.pool ne ∙ pool,
              get_elem?-set_other a.tls_caches i j b'.cache ne ∙ cache,
              class,
            ),
          )
    ];
    sounds =
        update-AreSound p f i (pool_site i b') w w' (omega (arith, lt)) whole.sounds whole.aparts
          local sound;
    aparts =
        update-AreApart p f i (pool_site i b') w w' (omega (arith, lt)) whole.sounds whole.aparts
          local;
    unlocked = local.held ∙ whole.unlocked;
    arena_size = whole.arena_size;
  }

  -- The allocator when the general path has changed.
  pub changed_heap :
      (g : General) (parts' : List Part)
      → g.arena_size ≡ a.general.arena_size
      → IsSound p w' (heap_site g parts')
      → IsLocal (f 9) (heap_site g parts') w w'
      → IsWhole p w' (record a { general = g }) (update f 9 (heap_site g parts'))
  changed_heap g parts' arena_size sound local = record {
    parts = parts';
    heap = update_here f 9 (heap_site g parts');
    pools = λ j lt.
        let (c, (at, pool, cache, class)) = whole.pools j lt in
        let still = update_other f 9 j (heap_site g parts') (omega (arith, lt)) in
        (c, (still ∙ at, pool, cache, class));
    sounds =
        update-AreSound p f 9 (heap_site g parts') w w' (omega arith) whole.sounds whole.aparts
          local sound;
    aparts =
        update-AreApart p f 9 (heap_site g parts') w w' (omega arith) whole.sounds whole.aparts
          local;
    unlocked = local.held ∙ whole.unlocked;
    arena_size = let le = whole.arena_size in omega (arith, arena_size, le);
  }
