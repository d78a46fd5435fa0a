-- ===== src/ThreadCache/Detach.antt =====
-- flush_batch_to_pool: where the walk along the cache ends, and a chain that joins the pool's.
use mathlib.Core.List.{append_assoc}
use custom_memory_allocator.Base.{
  ℕ, zero, suc, ◌+◌, ◌≤◌, ◌<◌, ◌^◌, ◌≡◌, ◌⊎◌, refl, sym, ap, subst, ◌∙◌, inl, inr, false, null,
  List, [], ◌∷◌, ◌++◌, arith, All, length, length-append, head_or, AllSpaced, All-swap,
  AllSpaced-swap, add64, ◌==◌, ==_of_ne,
}
use custom_memory_allocator.Memory.{Memory, write_word}
use custom_memory_allocator.Memory.Access.{read_word-write_word}
use custom_memory_allocator.Run.{World, done}
use custom_memory_allocator.Pool.{Pool}
use custom_memory_allocator.Pool.Slots.{IsStock, IsPlaced, Chain, Chain-write}
use custom_memory_allocator.Pool.Batch.Chains.{Chain-append, Chain-left, Chain-right, slot_near}
use custom_memory_allocator.ThreadCache.{detach}

-- Where the walk along a chain stops: `k` slots on, or at the chain's end.
pub record Detached (k n : ℕ) (w : World) (z : ℕ) (zs : List ℕ) : Type 0 where
  pub before : List ℕ
  pub last : ℕ
  pub rest : List ℕ
  pub split : z ∷ zs ≡ before ++ last ∷ rest
  pub run : detach k z n w ≡ done (last, n + length before) w
  pub at_most : length before ≤ k
  pub full : (length before ≡ k) ⊎ (rest ≡ [])

n_zero : (n : ℕ) → n ≡ n + 0
n_zero n = omega arith

pub detach-Detached :
    (k n : ℕ) (w : World) (z : ℕ) (zs : List ℕ)
    → n + k < 2 ^ 64
    → Chain w.mem null (z ∷ zs)
    → Detached k n w z zs
unfolding detach
detach-Detached zero n w z zs few c = record {
  before = [];
  last = z;
  rest = zs;
  split = refl;
  run = ap (λ (c : ℕ). done (z, c) w) (n_zero n);
  at_most = omega arith;
  full = inl refl;
}
detach-Detached (suc k) n w z [] few (pos, low, link, _) = record {
  before = [];
  last = z;
  rest = [];
  split = refl;
  run = rw link (ap (λ (c : ℕ). done (z, c) w) (n_zero n));
  at_most = omega arith;
  full = inr refl;
}
detach-Detached (suc k) n w z (x ∷ xs) few (pos, low, link, rest) =
    let d = detach-Detached k (n + 1) w x xs (omega arith) rest in
    let nonnull : (x == 0) ≡ false = ==_of_ne x 0 (omega (arith, rest.0)) in
    let more : add64 n 1 ≡ n + 1 = omega arith in
    let e : n + 1 + length d.before ≡ n + suc (length d.before) = omega arith in
    record {
      before = z ∷ d.before;
      last = d.last;
      rest = d.rest;
      split = ap (λ l. z ∷ l) d.split;
      run = rw (link, nonnull, more) (d.run ∙ ap (λ (c : ℕ). done (d.last, c) w) e);
      at_most = omega (arith, d.at_most);
      full = elim d.full [ inl h ↦ inl (omega arith) | inr h ↦ inr h ];
    }

-- A chain of used slots, its last one linked to the pool's chain, is free.
pub give_back-IsStock :
    (m : Memory) (pool : Pool) (free ys : List ℕ) (y : ℕ) (rest live : List ℕ) (stop head : ℕ)
    → IsStock m pool free (ys ++ y ∷ (rest ++ live))
    → Chain m stop (ys ++ y ∷ [])
    → head ≡ head_or y ys
    → IsStock
        (write_word m y pool.free_head)
        (record pool { free_head = head })
        (ys ++ y ∷ free)
        (rest ++ live)
give_back-IsStock m pool free ys y rest live stop head i c h =
    let wide : 8 ≤ pool.slot_total_size = omega (arith, i.total) in
    let ds = ys ++ y ∷ [] in
    let us = rest ++ live in
    let e = sym (append_assoc ys (y ∷ []) us) in
    let e' : ds ++ (free ++ us) ≡ (ys ++ y ∷ free) ++ us =
      append_assoc ys (y ∷ []) (free ++ us) ∙ sym (append_assoc ys (y ∷ free) us) in
    let (_, _, near_free, near_ys, _) = slot_near m pool free ys y us i in
    let (y_pos, y_low, _, _) = Chain-right m stop ys (y ∷ []) c in
    let start = Chain-left m stop ys (y ∷ []) c in
    record {
      total = i.total;
      payload = i.payload;
      head = h ∙ start_kept ys;
      chain =
          Chain-append (write_word m y pool.free_head) null ys (y ∷ free)
            (Chain-write m y pool.free_head _ wide y ys near_ys start)
            (
              y_pos,
              y_low,
              read_word-write_word m y pool.free_head (head_fits free i.head i.chain) ∙ i.head,
              Chain-write m y pool.free_head _ wide null free near_free i.chain,
            );
      spaced = subst (AllSpaced pool.slot_total_size) e' (
          AllSpaced-swap _ free ds us
            (subst (λ l. AllSpaced pool.slot_total_size (free ++ l)) e i.spaced));
      placed = subst (All (IsPlaced pool)) e' (
          All-swap (IsPlaced pool) free ds us
            (subst (λ l. All (IsPlaced pool) (free ++ l)) e i.placed));
      full = omega (arith, i.full, length-append ys (y ∷ us), length-append ys (y ∷ free));
    }
  where
    start_kept : (ys : List ℕ) → head_or y ys ≡ head_or null (ys ++ y ∷ free)
    start_kept [] = refl
    start_kept (x ∷ xs) = refl

    head_fits :
        (free : List ℕ)
        → pool.free_head ≡ head_or null free
        → Chain m null free
        → pool.free_head < 2 ^ 64
    head_fits [] h c = omega arith
    head_fits (x ∷ xs) h c = omega (arith, h, c.1)
