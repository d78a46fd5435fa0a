-- ===== src/ThreadCache/Flush.antt =====
-- flush_batch_to_pool: the first half of a full cache goes back to the pool in one go.
use mathlib.Core.List.{append_assoc}
use custom_memory_allocator.Base.{
  ℕ, suc, ◌+◌, ◌≤◌, ◌≡◌, refl, sym, ap, subst, ◌∙◌, inl, inr, true, false, null, List, [], ◌∷◌,
  ◌++◌, arith, All, All-left, All-right, length, length-append, head_or, last_or, Spaced,
  if◌then◌else◌, ◌==◌, ==_of_eq,
}
use custom_memory_allocator.Memory.{read_word, write_word}
use custom_memory_allocator.Memory.Access.{write_word-write_self}
use custom_memory_allocator.Run.{World, Mutex, holds, with_lock}
use custom_memory_allocator.Run.Ends.{Ends, ends}
use custom_memory_allocator.Pool.{Pool, deallocate_batch}
use custom_memory_allocator.Pool.Slots.{IsStock, Chain, Chain-write, tags-write}
use custom_memory_allocator.Pool.Restock.{AreMapped}
use custom_memory_allocator.Pool.Spared.{Spared, header-Spared}
use custom_memory_allocator.Pool.Batch.Chains.{IsBatch, Chain-left, Chain-right, slot_near}
use custom_memory_allocator.ThreadCache.{ThreadLocalCache, flush_batch_to_pool}
use custom_memory_allocator.ThreadCache.Shared.{IsShared, batch_of}
use custom_memory_allocator.ThreadCache.Pop.{next_tail, Chain-pos}
use custom_memory_allocator.ThreadCache.Detach.{detach-Detached, give_back-IsStock}

-- What a flush leaves: 32 slots more in the pool and as many less in the cache.
pub record Flushed (w : World) (owner : ℕ) (pool : Pool) (free cached live others : List ℕ)
    (r : ThreadLocalCache × Pool) (w' : World) : Type 0 where
  pub moved : List ℕ
  pub kept : List ℕ
  pub split : cached ≡ moved ++ kept
  pub half : length moved ≡ 32
  pub shared : IsShared w' owner r.0 r.1 (moved ++ free) kept live others
  pub spared : Spared (live ++ others) pool w r.1 w'

pub last_or-append :
    (d : ℕ) (ys : List ℕ) (y : ℕ) (rest : List ℕ) → last_or d (ys ++ y ∷ rest) ≡ last_or y rest
last_or-append d [] y rest = refl
last_or-append d (x ∷ xs) y rest = last_or-append x xs y rest

head_of_split :
    (z : ℕ) (zs ys : List ℕ) (y : ℕ) (rest : List ℕ) → z ∷ zs ≡ ys ++ y ∷ rest → z ≡ head_or y ys
head_of_split z zs [] y rest e = ap (λ l. head_or 0 l) e
head_of_split z zs (x ∷ xs) y rest e = ap (λ l. head_or 0 l) e

-- The memory after a flush.
flushed-IsShared :
    (w : World) (owner : ℕ) (cache : ThreadLocalCache) (pool : Pool) (free ys : List ℕ) (y : ℕ)
    (rest live others : List ℕ) (head count : ℕ)
    → IsStock w.mem pool free ((ys ++ y ∷ rest) ++ (live ++ others))
    → AreMapped w.process.mapped pool.arenas
    → IsBatch w.mem (batch_of cache) (ys ++ y ∷ rest)
    → All (λ x. read_word w.mem x ≡ owner) live
    → head ≡ head_or y ys
    → length rest ≤ 64
    → count ≡ length rest
    → IsShared
        (record w { mem = write_word w.mem y pool.free_head })
        owner
        (record {
          head = read_word w.mem y;
          tail = if read_word w.mem y == null then null else cache.tail;
          count = count;
        })
        (record pool { free_head = head })
        ((ys ++ y ∷ []) ++ free)
        rest
        live
        others
flushed-IsShared w owner cache pool free ys y rest live others head count i ms b tags at few same =
    let wide : 8 ≤ pool.slot_total_size = omega (arith, i.total) in
    let i1 = subst (IsStock w.mem pool free) (append_assoc ys (y ∷ rest) (live ++ others)) i in
    let (_, _, _, _, near) = slot_near w.mem pool free ys y (rest ++ (live ++ others)) i1 in
    let near_rest = All-left (Spaced pool.slot_total_size y) rest (live ++ others) near in
    let near_all = All-right (Spaced pool.slot_total_size y) rest (live ++ others) near in
    let near_live = All-left (Spaced pool.slot_total_size y) live others near_all in
    let c = subst (Chain w.mem null) (sym (append_assoc ys (y ∷ []) rest)) b.chain in
    let (_, _, link, tail_chain) = Chain-right w.mem null ys (y ∷ rest) b.chain in
    let e = sym (append_assoc ys (y ∷ []) free) in
    record {
      is_stock =
          subst
            (λ l.
              IsStock (write_word w.mem y pool.free_head) (record pool { free_head = head }) l
                (rest ++ (live ++ others)))
            e
            (give_back-IsStock w.mem pool free ys y rest (live ++ others) (head_or null rest) head
              i1 (Chain-left w.mem null (ys ++ y ∷ []) rest c) at);
      are_mapped = ms;
      is_batch = record {
        head = link;
        tail =
            next_tail (read_word w.mem y) cache.tail y rest link
              (Chain-pos w.mem null rest tail_chain) (b.tail ∙ last_or-append null ys y rest);
        count = same;
        chain = Chain-write w.mem y pool.free_head _ wide null rest near_rest tail_chain;
      };
      tags = tags-write w.mem y pool.free_head _ wide owner live near_live tags;
      few = few;
    }

pub flush_batch_to_pool-Flushed :
    (w : World) (owner index : ℕ) (cache : ThreadLocalCache) (pool : Pool)
    (free zs live others : List ℕ)
    → holds (Mutex.pool index) w.process.held ≡ false
    → IsStock w.mem pool free ((cache.head ∷ zs) ++ (live ++ others))
    → AreMapped w.process.mapped pool.arenas
    → IsBatch w.mem (batch_of cache) (cache.head ∷ zs)
    → All (λ x. read_word w.mem x ≡ owner) live
    → 32 ≤ length zs
    → length zs ≤ 64
    → Ends
        (Flushed w owner pool free (cache.head ∷ zs) live others)
        (flush_batch_to_pool index cache pool w)
unfolding flush_batch_to_pool with_lock deallocate_batch
flush_batch_to_pool-Flushed w owner index cache pool free zs live others unheld i ms b tags many
      few =
    let d = detach-Detached 31 1 w cache.head zs (omega arith) b.chain in
    let y = d.last in
    let size : suc (length zs) ≡ length d.before + suc (length d.rest) =
      ap length d.split ∙ length-append d.before (d.last ∷ d.rest) in
    let full : length d.before ≡ 31 = elim d.full [
      | inl h ↦ h
      | inr h ↦
          let none_left : length d.rest ≡ 0 = ap length h in
          absurd (omega (arith, size, d.at_most, none_left, many))
    ] in
    let own : (index == index) ≡ true = ==_of_eq index index refl in
    let twice = write_word-write_self w.mem y 0 pool.free_head in
    let i' = subst (λ l. IsStock w.mem pool free (l ++ (live ++ others))) d.split i in
    let b' = subst (IsBatch w.mem (batch_of cache)) d.split b in
    let i1 =
      subst (IsStock w.mem pool free) (append_assoc d.before (y ∷ d.rest) (live ++ others)) i' in
    let (_, placed, _, _, near) =
      slot_near w.mem pool free d.before y (d.rest ++ (live ++ others)) i1 in
    let wide : 8 ≤ pool.slot_total_size = omega (arith, i.total) in
    rw (d.run, unheld, own, twice)
      (ends (record {
        moved = d.before ++ y ∷ [];
        kept = d.rest;
        split = d.split ∙ sym (append_assoc d.before (y ∷ []) d.rest);
        half = omega (arith, length-append d.before (y ∷ []), full);
        shared =
            flushed-IsShared w owner cache pool free d.before y d.rest live others cache.head _ i'
              ms b' tags (head_of_split cache.head zs d.before y d.rest d.split)
              (omega (arith, size, few)) (omega (arith, b.count, size, few, full));
        spared =
            header-Spared (live ++ others) pool (record pool { free_head = cache.head }) w y
              pool.free_head wide placed (All-right _ d.rest (live ++ others) near) refl refl;
      }))
