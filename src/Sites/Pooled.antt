-- ===== src/Sites/Pooled.antt =====
-- malloc_cached and free_cached of src/allocator.cpp as changes of a size class's site.
use mathlib.Core.List.{append-nil, append_assoc}
use custom_memory_allocator.Base.{
  ℕ, ◌+◌, ◌≤◌, ◌<◌, ◌≡◌, ◌⊎◌, inl, inr, refl, sym, ap, ◌∙◌, subst, List, [], ◌∷◌, ◌++◌, All,
  All-left, All-right, All-append, In, In-All, In-front, In-back, In-append_left, In-append_right,
  In-append_cases, Spaced, arith,
}
use custom_memory_allocator.Run.{World}
use custom_memory_allocator.Os.{Platform}
use custom_memory_allocator.Pool.{Pool}
use custom_memory_allocator.Pool.Slots.{IsStock}
use custom_memory_allocator.Pool.Spared.{Spared}
use custom_memory_allocator.Pool.Batch.Chains.{slot_near}
use custom_memory_allocator.ThreadCache.{ThreadLocalCache, pool_address}
use custom_memory_allocator.ThreadCache.Shared.{IsShared}
use custom_memory_allocator.ThreadCache.Malloc.{Handed, Dry}
use custom_memory_allocator.ThreadCache.Free.{Freed}
use custom_memory_allocator.Sites.{Book, pool_site, Holds, IsLocal}
use custom_memory_allocator.Sites.Steps.{Unmoved, Grown, Shrunk}

abbrev pub book : Pool → ThreadLocalCache → (free cached live : List ℕ) → Book
book pool cache free cached live = record {
  pool = pool;
  cache = cache;
  free = free;
  cached = cached;
  live = live;
}

Spared-IsLocal :
    (used : List ℕ) (i : ℕ) (b b' : Book) (w w' : World)
    → Spared used b.pool w b'.pool w'
    → IsLocal (pool_site i b) (pool_site i b') w w'
Spared-IsLocal used i b b' w w' s = record {
  bytes = λ x (r, at, lo, hi) off. s.outer x r at lo hi off;
  regions = s.regions;
  held = s.held;
}

module _ (p : Platform) (i : ℕ) (b : Book) (w : World)
    (shared : IsShared w (pool_address p i) b.cache b.pool b.free b.cached b.live []) where
  -- The size of a slot's payload stays the same.
  payload_same :
      (w' : World) (cache : ThreadLocalCache) (pool : Pool) (free cached live : List ℕ)
      → IsShared w' (pool_address p i) cache pool free cached live []
      → pool.slot_total_size ≡ b.pool.slot_total_size
      → pool.slot_payload_size ≡ b.pool.slot_payload_size
  payload_same w' cache pool free cached live after same =
      omega (arith, same, after.is_stock.total, shared.is_stock.total)

  -- A live slot keeps its payload.
  slot_same :
      (used : List ℕ) (pool' : Pool) (w' : World) (q m x y : ℕ)
      → Spared used b.pool w pool' w'
      → In y used
      → q ≡ y + 16
      → m ≡ b.pool.slot_payload_size
      → q ≤ x
      → x < q + m
      → w'.mem x ≡ w.mem x
  slot_same used pool' w' q m x y s at start size lo hi =
      s.used_same y x at (omega (arith, start, lo))
        (omega (arith, start, size, hi, shared.is_stock.total))

  module _ (r : ℕ × ThreadLocalCache × Pool) (w' : World) where
    pub Handed-Grown :
        (h : Handed w (pool_address p i) b.pool b.free b.cached b.live [] r w')
        → Grown p w
            (pool_site i b)
            (pool_site i (book r.2 r.1 h.free h.cached (h.slot ∷ b.live)))
            w'
            r.0
            b.pool.slot_payload_size
    Handed-Grown h =
        let same =
          payload_same w' r.1 r.2 h.free h.cached (h.slot ∷ b.live) h.shared h.spared.total_same in
        let (_, _, _, _, behind) =
          slot_near w'.mem r.2 h.free h.cached h.slot (b.live ++ []) h.shared.is_stock in
        let near = All-left (Spaced r.2.slot_total_size h.slot) b.live [] behind in
        record {
          sound = h.shared;
          local =
              Spared-IsLocal (b.live ++ []) i b (book r.2 r.1 h.free h.cached (h.slot ∷ b.live)) w
                w' h.spared;
          new = (h.slot, inl refl, h.payload, sym same);
          kept = λ q m (y, at, start, size). (y, inr at, start, size ∙ sym same);
          only = λ q m held. taken held.0 held.1 held.2 (held.3 ∙ same);
          fresh = λ q m (y, at, start, size) x lo hi lo' hi'.
              let apart = In-All (Spaced r.2.slot_total_size h.slot) b.live y at near in
              omega (
                arith, h.payload, h.spared.total_same, shared.is_stock.total, start, size, lo, hi,
                lo', hi', apart,
              );
          same = λ q m x (y, at, start, size) lo hi.
              slot_same (b.live ++ []) r.2 w' q m x y h.spared (In-append_left b.live [] y at) start
                size lo hi;
        }
      where
        taken :
            {q m : ℕ} (y : ℕ)
            → In y (h.slot ∷ b.live)
            → q ≡ y + 16
            → m ≡ b.pool.slot_payload_size
            → ((q ≡ r.0) × (m ≡ b.pool.slot_payload_size)) ⊎ Holds (pool_site i b) q m
        taken y (inl e) start size = inl (start ∙ ap (λ (n : ℕ). n + 16) e ∙ sym h.payload, size)
        taken y (inr at) start size = inr (y, at, start, size)

    pub Dry-Unmoved :
        Dry p w (pool_address p i) b.pool b.free b.cached b.live [] r w'
        → Unmoved p w (pool_site i b) (pool_site i (book r.2 r.1 [] [] b.live)) w'
    Dry-Unmoved d =
        let same = payload_same w' r.1 r.2 [] [] b.live d.shared d.spared.total_same in
        record {
          sound = d.shared;
          local = Spared-IsLocal (b.live ++ []) i b (book r.2 r.1 [] [] b.live) w w' d.spared;
          kept = λ q m (y, at, start, size). (y, at, start, size ∙ sym same);
          only = λ q m (y, at, start, size). (y, at, start, size ∙ same);
          same = λ q m x (y, at, start, size) lo hi.
              slot_same (b.live ++ []) r.2 w' q m x y d.spared (In-append_left b.live [] y at) start
                size lo hi;
        }

-- A slot that was live joins the cache or, with others, the pool.
module _ (p : Platform) (i : ℕ) (b : Book) (w : World) (before after : List ℕ) (s : ℕ)
    (split : b.live ≡ before ++ s ∷ after)
    (shared : IsShared w (pool_address p i) b.cache b.pool b.free b.cached b.live []) where
  live_shared :
      IsShared w (pool_address p i) b.cache b.pool b.free b.cached (before ++ s ∷ after) []
  live_shared =
      subst (λ l. IsShared w (pool_address p i) b.cache b.pool b.free b.cached l []) split shared

  -- The slot has no byte in common with the others.
  live_near : All (Spaced b.pool.slot_total_size s) (before ++ after)
  live_near =
      let e : b.cached ++ ((before ++ s ∷ after) ++ []) ≡ (b.cached ++ before) ++ s ∷ after =
        ap (λ l. b.cached ++ l) (append-nil (before ++ s ∷ after))
        ∙ sym (append_assoc b.cached before (s ∷ after)) in
      let stock = subst (λ l. IsStock w.mem b.pool b.free l) e live_shared.is_stock in
      let (_, _, _, left, right) =
        slot_near w.mem b.pool b.free (b.cached ++ before) s after stock in
      All-append (Spaced b.pool.slot_total_size s) before after
        (All-right (Spaced b.pool.slot_total_size s) b.cached before left) right

  pub live_before : (y : ℕ) → In y (before ++ after) → In y b.live
  live_before y at = subst (In y) (sym split) (In-back before s after y (inr at))

  pub live_after : (y : ℕ) → In y b.live → (y ≡ s) ⊎ In y (before ++ after)
  live_after y at = In-front before s after y (subst (In y) split at)

  pub Freed-Shrunk :
      (r : ThreadLocalCache × Pool) (w' : World)
      → (f : Freed w (pool_address p i) s b.pool b.free b.cached (before ++ after) [] r w')
      → Shrunk p w
          (pool_site i b)
          (pool_site i (book r.1 r.0 (f.moved ++ b.free) f.kept (before ++ after)))
          w'
          (s + 16)
          b.pool.slot_payload_size
  Freed-Shrunk r w' f =
      let same =
        payload_same p i b w shared w' r.0 r.1 (f.moved ++ b.free) f.kept (before ++ after) f.shared
          f.spared.total_same in
      record {
        sound = f.shared;
        local =
            Spared-IsLocal ((before ++ after) ++ []) i b
              (book r.1 r.0 (f.moved ++ b.free) f.kept (before ++ after)) w w' f.spared;
        kept = λ q m (y, at, start, size). elim (live_after y at) [
          | inl e ↦ inl (start ∙ ap (λ (n : ℕ). n + 16) e, size)
          | inr rest ↦ inr (y, rest, start, size ∙ sym same)
        ];
        only = λ q m (y, at, start, size). (y, live_before y at, start, size ∙ same);
        gone = λ (y, at, start, size).
            let off = In-All (Spaced b.pool.slot_total_size s) (before ++ after) y at live_near in
            omega (arith, start, shared.is_stock.total, off);
        back = (s, back f.moved f.kept f.split, refl);
        same = λ q m x (y, at, start, size) lo hi.
            slot_same p i b w shared ((before ++ after) ++ []) r.1 w' q m x y f.spared
              (In-append_left (before ++ after) [] y at) start (size ∙ same) lo hi;
      }
    where
      back : (moved kept : List ℕ) → s ∷ b.cached ≡ moved ++ kept → In s (kept ++ (moved ++ b.free))
      back moved kept whole =
          let at : In s (moved ++ kept) = subst (In s) whole (inl refl) in
          elim (In-append_cases moved kept s at) [
            | inl i ↦ In-append_right kept (moved ++ b.free) s (In-append_left moved b.free s i)
            | inr i ↦ In-append_left kept (moved ++ b.free) s i
          ]
