-- ===== src/Pool/Allocate.antt =====
-- Pool::deallocate: a live slot becomes the first free one.
use mathlib.Core.List.{append_assoc}
use custom_memory_allocator.Base.{
  ℕ, ◌+◌, ◌≤◌, ◌<◌, ◌^◌, ◌≡◌, refl, sym, subst, ◌∙◌, null, List, [], ◌∷◌, ◌++◌, arith, All,
  All-left, All-right, All-append, head_or, Spaced, AllSpaced, AllSpaced-drop, length-append, sub64,
}
use custom_memory_allocator.Memory.{Memory, read_word}
use custom_memory_allocator.Memory.Access.{read_word-write_word, write_word-outside}
use custom_memory_allocator.Run.{World}
use custom_memory_allocator.Run.Ends.{Ends, ends}
use custom_memory_allocator.Pool.{Pool, deallocate}
use custom_memory_allocator.Pool.Slots.{
  IsPool, IsPlaced, Chain, SameButSlot, Chain-write, tags-write,
}

head_fits :
    (m : Memory) (pool : Pool) (free : List ℕ)
    → pool.free_head ≡ head_or null free
    → Chain m null free
    → pool.free_head < 2 ^ 64
head_fits m pool [] h c = omega arith
head_fits m pool (x ∷ xs) h c = omega (arith, h, c.1)

-- What deallocate leaves when the live slot `s` comes back.
pub record Deallocated (w : World) (this s : ℕ) (free live : List ℕ) (pool' : Pool) (w' : World)
    : Type 0 where
  pub pool_after : IsPool w'.mem this pool' (s ∷ free) live
  pub only : SameButSlot s w.mem w'.mem
  pub process : w'.process ≡ w.process

-- deallocate of a live slot's payload makes that slot the first free one, keeps the pool
-- well-formed, and writes nothing but the slot's header.
pub deallocate-cons :
    (w : World) (this : ℕ) (pool : Pool) (free before : List ℕ) (s : ℕ) (after : List ℕ)
    → IsPool w.mem this pool free (before ++ s ∷ after)
    → Ends (Deallocated w this s free (before ++ after)) (deallocate pool (s + 16) w)
unfolding deallocate
deallocate-cons w this pool free before s after i =
    let e = sym (append_assoc free before (s ∷ after)) in
    let e' = append_assoc free before after in
    let spaced = subst (AllSpaced pool.slot_total_size) e i.spaced in
    let (near, others) = AllSpaced-drop _ (free ++ before) s after spaced in
    let placed = subst (All (IsPlaced pool)) e i.placed in
    let at : IsPlaced pool s = (All-right (IsPlaced pool) (free ++ before) (s ∷ after) placed).0 in
    let slot : sub64 (s + 16) 16 ≡ s = omega (arith, i.total, at.0, at.2) in
    let wide : 8 ≤ pool.slot_total_size = omega (arith, i.total) in
    let near' = subst (All (Spaced pool.slot_total_size s)) e' near in
    let tags = i.tags in
    let tags' =
      All-append (λ y. read_word w.mem y ≡ this) before after (All-left _ before (s ∷ after) tags)
        (All-right (λ y. read_word w.mem y ≡ this) before (s ∷ after) tags).1 in
    rw slot (
      ends (record {
        pool_after = record {
          total = i.total;
          payload = i.payload;
          head = refl;
          chain = (
            at.0,
            omega (arith, i.total, at.2),
            read_word-write_word w.mem s pool.free_head (head_fits w.mem pool free i.head i.chain)
                ∙ i.head,
            Chain-write w.mem s pool.free_head _ wide null free (All-left _ free _ near') i.chain,
          );
          tags =
              tags-write w.mem s pool.free_head _ wide this (before ++ after)
                (All-right _ free _ near') tags';
          spaced = (near', subst (AllSpaced pool.slot_total_size) e' others);
          placed = (
            at,
            subst (All (IsPlaced pool)) e' (
                All-append (IsPlaced pool) (free ++ before) after
                  (All-left (IsPlaced pool) (free ++ before) (s ∷ after) placed)
                  (All-right (IsPlaced pool) (free ++ before) (s ∷ after) placed).1),
          );
          full =
              omega (arith, i.full, length-append before (s ∷ after), length-append before after);
        };
        only = λ a out. write_word-outside w.mem s pool.free_head a out;
        process = refl;
      }))
