-- ===== src/Pool/Spared.antt =====
-- What the operations of a pool leave alone: the used slots and the areas of others.
use mathlib.Core.List.{append_assoc}
use custom_memory_allocator.Base.{
  ℕ, ◌+◌, ◌≤◌, ◌<◌, ◌^◌, ◌≡◌, ◌⊎◌, refl, sym, ap, subst, ◌∙◌, inl, inr, Bool, true, false, null,
  List, [], ◌∷◌, ◌++◌, arith, All, All-left, All-right, All-append, length, length-append, In,
  In-All, All-of_In, Spaced, AllSpaced, AllSpaced-insert, ◌==◌, ==_of_eq, ==_of_ne,
}
use custom_memory_allocator.Memory.{read_word, write_word}
use custom_memory_allocator.Memory.Access.{read_word-agree, write_word-outside}
use custom_memory_allocator.Run.{World, OsRegion}
use custom_memory_allocator.Run.Ends.{Ends, ends, Ends-weaken}
use custom_memory_allocator.Os.{Platform}
use custom_memory_allocator.Os.Laws.{IsKernel}
use custom_memory_allocator.Pool.{Pool, PoolArena, ensure_slot}
use custom_memory_allocator.Pool.Slots.{IsStock, IsPlaced, Lies, Chain-write}
use custom_memory_allocator.Pool.Restock.{
  AreMapped, IsOutside, Lies-same, Restocked, Restock, Starved, expand-Restock,
}

-- Between two worlds: the slots in `used` keep every byte, and so does each mapped byte outside the
-- pool's arenas, which stays outside; the areas stay mapped and the mutexes held.
pub record Spared (used : List ℕ) (pool : Pool) (w : World) (pool' : Pool) (w' : World)
    : Type 0 where
  pub used_same : (y a : ℕ) → In y used → y ≤ a → a < y + pool.slot_total_size → w'.mem a ≡ w.mem a
  pub outer :
      (a : ℕ) (r : OsRegion)
      → In r w.process.mapped
      → r.base ≤ a
      → a < r.base + r.size
      → IsOutside pool.arenas a
      → (w'.mem a ≡ w.mem a) × IsOutside pool'.arenas a
  pub regions : (r : OsRegion) → In r w.process.mapped → In r w'.process.mapped
  pub held : w'.process.held ≡ w.process.held
  pub total_same : pool'.slot_total_size ≡ pool.slot_total_size

pub Spared-refl : (used : List ℕ) (pool : Pool) (w : World) → Spared used pool w pool w
Spared-refl used pool w = record {
  used_same = λ y a at lo hi. refl;
  outer = λ a r at lo hi out. (refl, out);
  regions = λ r at. at;
  held = refl;
  total_same = refl;
}

pub Spared-trans :
    {used more : List ℕ} {pool pool' pool'' : Pool} {w w' w'' : World}
    → ((y : ℕ) → In y used → In y more)
    → Spared used pool w pool' w'
    → Spared more pool' w' pool'' w''
    → Spared used pool w pool'' w''
Spared-trans sub s t = record {
  used_same = λ y a at lo hi.
      t.used_same y a (sub y at) lo (omega (arith, s.total_same)) ∙ s.used_same y a at lo hi;
  outer = λ a r at lo hi out.
      let (e, out') = s.outer a r at lo hi out in
      let (e', out'') = t.outer a r (s.regions r at) lo hi out' in (e' ∙ e, out'');
  regions = λ r at. t.regions r (s.regions r at);
  held = t.held ∙ s.held;
  total_same = t.total_same ∙ s.total_same;
}

pub Spared-weaken :
    {used more : List ℕ} {pool pool' : Pool} {w w' : World}
    → ((y : ℕ) → In y used → In y more)
    → Spared more pool w pool' w'
    → Spared used pool w pool' w'
Spared-weaken sub s = record {
  used_same = λ y a at lo hi. s.used_same y a (sub y at) lo hi;
  outer = s.outer;
  regions = s.regions;
  held = s.held;
  total_same = s.total_same;
}

-- A byte outside the arenas is in no slot.
pub Lies-apart :
    (as' : List PoolArena) (total x a : ℕ)
    → Lies as' total x
    → IsOutside as' a
    → (a < x) ⊎ (x + total ≤ a)
Lies-apart [] total x a lies out = absurd lies
Lies-apart (q ∷ as') total x a (inl h) out = ground (arith, out.0)
Lies-apart (q ∷ as') total x a (inr h) out = Lies-apart as' total x a h out.1

-- Writing a slot's header spares the other slots and the areas of others.
pub header-Spared :
    (used : List ℕ) (pool pool' : Pool) (w : World) (s v : ℕ)
    → 8 ≤ pool.slot_total_size
    → IsPlaced pool s
    → All (Spaced pool.slot_total_size s) used
    → pool'.arenas ≡ pool.arenas
    → pool'.slot_total_size ≡ pool.slot_total_size
    → Spared used pool w pool' (record w { mem = write_word w.mem s v })
header-Spared used pool pool' w s v wide (_, _, _, lies) near same_arenas same_total = record {
  used_same = λ y a at lo hi.
      let apart = In-All (Spaced pool.slot_total_size s) used y at near in
      write_word-outside w.mem s v a (ground (arith, apart));
  outer = λ a r at lo hi out.
      let apart = Lies-apart pool.arenas pool.slot_total_size s a lies out in
      (
        write_word-outside w.mem s v a (ground (arith, apart)),
        subst (λ q. IsOutside q a) (sym same_arenas) out,
      );
  regions = λ r at. at;
  held = refl;
  total_same = same_total;
}

Restocked-Spared :
    (w w' : World) (pool pool' : Pool) (free used : List ℕ)
    → IsStock w.mem pool free used
    → AreMapped w.process.mapped pool.arenas
    → Restocked w pool free used pool' w'
    → Spared used pool w pool' w'
Restocked-Spared w w' pool pool' free used i ms got = record {
  used_same = λ y a at lo hi.
      let (_, _, _, lies) =
        In-All (IsPlaced pool) used y at (All-right (IsPlaced pool) free used i.placed) in
      Lies-same w w' pool.arenas pool.slot_total_size y ms got.same lies a lo hi;
  outer = λ a r at lo hi out. (got.same a r at lo hi, got.outside a r at lo hi out);
  regions = got.regions;
  held = got.held;
  total_same = got.total_same;
}

-- Slots that were free, or, when none was, those of a new arena.
abbrev pub Supplied : (free slots : List ℕ) → Type 0
Supplied free slots = (slots ≡ free) ⊎ ((free ≡ []) × (256 ≤ length slots))

-- A pool with a free slot at hand.
pub record Ready (w : World) (pool : Pool) (free used : List ℕ) (pool' : Pool) (w' : World)
    : Type 0 where
  pub others : List ℕ
  pub from : Supplied free (pool'.free_head ∷ others)
  pub is_stock : IsStock w'.mem pool' (pool'.free_head ∷ others) used
  pub are_mapped : AreMapped w'.process.mapped pool'.arenas
  pub spared : Spared used pool w pool' w'

-- ensure_slot answers false only for an empty pool for which the system has no memory, and then
-- changes nothing.
abbrev pub Ensured : Platform → World → Pool → (free used : List ℕ) → Bool × Pool → World → Type 0
Ensured p w pool free used (false, pool') w' =
    (free ≡ []) × (pool' ≡ pool) × (w' ≡ w) × Starved p pool w
Ensured p w pool free used (true, pool') w' = Ready w pool free used pool' w'

Restocked-Ready :
    (w w' : World) (pool pool' : Pool) (used slots : List ℕ)
    → IsStock w'.mem pool' slots used
    → 256 ≤ length slots
    → AreMapped w'.process.mapped pool'.arenas
    → Spared used pool w pool' w'
    → Ready w pool [] used pool' w'
Restocked-Ready w w' pool pool' used [] i more ms s = absurd (omega arith)
Restocked-Ready w w' pool pool' used (x ∷ xs) i more ms s = record {
  others = xs;
  from = inr (refl, more);
  is_stock = subst (λ y. IsStock w'.mem pool' (y ∷ xs) used) (sym i.head) i;
  are_mapped = ms;
  spared = s;
}

Restock-Ensured :
    (p : Platform) (w w' : World) (pool : Pool) (used : List ℕ) (r : Bool × Pool)
    → IsStock w.mem pool [] used
    → AreMapped w.process.mapped pool.arenas
    → Restock p w pool [] used r w'
    → Ensured p w pool [] used r w'
Restock-Ensured p w w' pool used (false, pool') i ms (same_pool, same_world, starved) =
    (refl, same_pool, same_world, starved)
Restock-Ensured p w w' pool used (true, pool') i ms got =
    Restocked-Ready w w' pool pool' used got.slots got.is_stock
      (omega (arith, got.more, ap (λ (l : List ℕ). length l) got.split, length-append got.added []))
      got.are_mapped (Restocked-Spared w w' pool pool' [] used i ms got)

pub ensure_slot-Ensured :
    (p : Platform) (w : World) (pool : Pool) (free used : List ℕ)
    → IsKernel p
    → pool.slot_total_size < 2 ^ 40
    → IsStock w.mem pool free used
    → AreMapped w.process.mapped pool.arenas
    → Ends (Ensured p w pool free used) (ensure_slot p pool w)
unfolding ensure_slot
ensure_slot-Ensured p w pool [] used k small i ms =
    let empty : (pool.free_head == 0) ≡ true = ==_of_eq pool.free_head 0 i.head in
    rw empty (
      Ends-weaken (expand-Restock p w pool [] used k small i ms)
        (λ r w' got. Restock-Ensured p w w' pool used r i ms got))
ensure_slot-Ensured p w pool (x ∷ xs) used k small i ms =
    let nonnull : (pool.free_head == 0) ≡ false =
      ==_of_ne pool.free_head 0 (omega (arith, i.head, i.chain.0)) in
    rw nonnull (
      ends (record {
        others = xs;
        from = inl (ap (λ y. y ∷ xs) i.head);
        is_stock = subst (λ y. IsStock w.mem pool (y ∷ xs) used) (sym i.head) i;
        are_mapped = ms;
        spared = Spared-refl used pool w;
      }))

-- The first free slot joins the used ones, `before` and `after` it.
pub pop-IsStock :
    (w : World) (pool : Pool) (s v : ℕ) (free before after : List ℕ)
    → IsStock w.mem pool (s ∷ free) (before ++ after)
    → IsStock
        (write_word w.mem s v)
        (record pool { free_head = read_word w.mem s })
        free
        (before ++ s ∷ after)
pop-IsStock w pool s v free before after i =
    let wide : 8 ≤ pool.slot_total_size = omega (arith, i.total) in
    let (_, _, link, rest) = i.chain in
    let e = append_assoc free before (s ∷ after) in
    let e' = sym (append_assoc free before after) in
    let near = subst (All (Spaced pool.slot_total_size s)) e' i.spaced.0 in
    let spaced = subst (AllSpaced pool.slot_total_size) e' i.spaced.1 in
    let placed = subst (All (IsPlaced pool)) e' i.placed.1 in
    record {
      total = i.total;
      payload = i.payload;
      head = link;
      chain = Chain-write w.mem s v _ wide null free (All-left _ free _ i.spaced.0) rest;
      spaced =
          subst (AllSpaced pool.slot_total_size) e
            (AllSpaced-insert _ (free ++ before) s after near spaced);
      placed = subst (All (IsPlaced pool)) e (
          All-append (IsPlaced pool) (free ++ before) (s ∷ after)
            (All-left (IsPlaced pool) (free ++ before) after placed)
            (i.placed.0, All-right (IsPlaced pool) (free ++ before) after placed));
      full = omega (arith, i.full, length-append before after, length-append before (s ∷ after));
    }

-- The tags of slots that keep their bytes.
pub tags-Spared :
    (live : List ℕ) (owner : ℕ) (pool pool' : Pool) (w w' : World)
    → 8 ≤ pool.slot_total_size
    → Spared live pool w pool' w'
    → All (λ y. read_word w.mem y ≡ owner) live
    → All (λ y. read_word w'.mem y ≡ owner) live
tags-Spared live owner pool pool' w w' wide s tags =
    All-of_In (λ y. read_word w'.mem y ≡ owner) live
      λ y at.
        read_word-agree w.mem w'.mem y (λ b lo hi. s.used_same y b at lo (omega arith))
        ∙ In-All (λ z. read_word w.mem z ≡ owner) live y at tags
