-- ===== src/Pool/Restock.antt =====
-- Pool::expand over a stock of slots, of which some are free and the others used.
use native.Mathlib.Nat.{div-mul-le_self, le-div_iff_mul-le}
use custom_memory_allocator.Base.{
  ℕ, zero, suc, ◌+◌, ◌*◌, ◌/◌, ◌≤◌, ◌<◌, ◌^◌, ◌%◌, ◌≡◌, ◌⊎◌, refl, sym, ap, subst, ◌∙◌, inl, inr,
  Bool, true, false, null, List, [], ◌∷◌, ◌++◌, Option, none, some, arith, All, All-map, All-left,
  All-append, length, AllSpaced, In, In-All, mul64,
}
use custom_memory_allocator.Memory.{Memory, read_word}
use custom_memory_allocator.Memory.Access.{read_word-agree}
use custom_memory_allocator.Run.{World, OsRegion}
use custom_memory_allocator.Run.Ends.{Ends, ends, Ends-continue}
use custom_memory_allocator.Os.{Platform}
use custom_memory_allocator.Os.Laws.{
  IsKernel, IsDisjoint, IsAcquired, Refuses, Acquired, os_acquire-Acquired,
}
use custom_memory_allocator.Pool.{Pool, PoolArena, expand, expand_into}
use custom_memory_allocator.Pool.Slots.{IsStock, IsPlaced, Lies, Chain, capacity-append}
use custom_memory_allocator.Pool.Carve.{
  carved_slots, carved_slots-append, carved_slots-AllSpaced, carved_slots-All, Away, carve-IsCarved,
}

abbrev pub region_of : PoolArena → OsRegion
region_of a = record { base = a.base; size = a.size }

-- Every arena of the pool is mapped.
abbrev pub AreMapped : List OsRegion → List PoolArena → Type 0
AreMapped mapped = All (λ a. In (region_of a) mapped)

-- A slot that lies in a mapped area shares no byte with a new one.
Lies-Away :
    (mapped : List OsRegion) (as' : List PoolArena) (base size total x : ℕ)
    → AreMapped mapped as'
    → All (IsDisjoint base size) mapped
    → Lies as' total x
    → Away total base (base + size) x
Lies-Away mapped [] base size total x ms clear lies = absurd lies
Lies-Away mapped (a ∷ as') base size total x ms clear (inl in_a) =
    let apart = In-All (IsDisjoint base size) mapped (region_of a) ms.0 clear in
    ground (arith, apart)
Lies-Away mapped (a ∷ as') base size total x ms clear (inr later) =
    Lies-Away mapped as' base size total x ms.1 clear later

Lies-left : (as' bs : List PoolArena) (total x : ℕ) → Lies as' total x → Lies (as' ++ bs) total x
Lies-left [] bs total x l = absurd l
Lies-left (a ∷ as') bs total x (inl h) = inl h
Lies-left (a ∷ as') bs total x (inr l) = inr (Lies-left as' bs total x l)

Lies-right : (as' bs : List PoolArena) (total x : ℕ) → Lies bs total x → Lies (as' ++ bs) total x
Lies-right [] bs total x l = l
Lies-right (a ∷ as') bs total x l = inr (Lies-right as' bs total x l)

length-carved_slots :
    (base total k i : ℕ) (acc : List ℕ) → length (carved_slots k i base total acc) ≡ k + length acc
length-carved_slots base total zero i acc = omega arith
length-carved_slots base total (suc k) i acc =
    omega (arith, length-carved_slots base total k (i + 1) ((base + i * total) ∷ acc))

-- Slots that are away from the changed bytes read the same.
abbrev pub SameAt : Memory → Memory → ℕ → Type 0
SameAt m m' x = read_word m' x ≡ read_word m x

SameAt-Away :
    (m m' : Memory) (total lo hi : ℕ) (xs : List ℕ)
    → 8 ≤ total
    → ((a : ℕ) → (a < lo) ⊎ (hi ≤ a) → m' a ≡ m a)
    → All (Away total lo hi) xs
    → All (SameAt m m') xs
SameAt-Away m m' total lo hi xs wide same away =
    All-map (Away total lo hi) (SameAt m m') xs
      (λ x off. read_word-agree m m' x (λ b l h. same b (ground arith))) away

pub Chain-same :
    (m m' : Memory) (stop : ℕ) (xs : List ℕ)
    → All (SameAt m m') xs
    → Chain m stop xs
    → Chain m' stop xs
Chain-same m m' stop [] s c = tt
Chain-same m m' stop (x ∷ xs) s (pos, fits, link, rest) =
    (pos, fits, s.0 ∙ link, Chain-same m m' stop xs s.1 rest)

pub tags-same :
    (m m' : Memory) (this : ℕ) (xs : List ℕ)
    → All (SameAt m m') xs
    → All (λ y. read_word m y ≡ this) xs
    → All (λ y. read_word m' y ≡ this) xs
tags-same m m' this [] s t = tt
tags-same m m' this (x ∷ xs) s t = (s.0 ∙ t.0, tags-same m m' this xs s.1 t.1)

-- A slot of a mapped arena reads the same as long as mapped bytes do.
pub Lies-same :
    (w w' : World) (as' : List PoolArena) (total x : ℕ)
    → AreMapped w.process.mapped as'
    → ((a : ℕ) (r : OsRegion)
        → In r w.process.mapped
        → r.base ≤ a
        → a < r.base + r.size
        → w'.mem a ≡ w.mem a)
    → Lies as' total x
    → (a : ℕ) → x ≤ a
    → a < x + total
    → w'.mem a ≡ w.mem a
Lies-same w w' [] total x ms same lies a lo hi = absurd lies
Lies-same w w' (q ∷ as') total x ms same (inl (u, v)) a lo hi =
    same a (region_of q) ms.0 (omega arith) (omega arith)
Lies-same w w' (q ∷ as') total x ms same (inr later) a lo hi =
    Lies-same w w' as' total x ms.1 same later a lo hi

-- The byte lies in none of the arenas.
abbrev pub IsOutside : List PoolArena → ℕ → Type 0
IsOutside as' a = All (λ r. (a < r.base) ⊎ (r.base + r.size ≤ a)) as'

-- What an expansion leaves: the slots of a new arena before the free ones, the same used ones, and the bytes of every area that
-- was mapped before; the new arena covers no such byte.
pub record Restocked (w : World) (pool : Pool) (free used : List ℕ) (pool' : Pool) (w' : World)
    : Type 0 where
  pub slots : List ℕ
  pub is_stock : IsStock w'.mem pool' slots used
  pub added : List ℕ
  pub split : slots ≡ added ++ free
  pub more : 256 ≤ length added
  pub are_mapped : AreMapped w'.process.mapped pool'.arenas
  pub held : w'.process.held ≡ w.process.held
  pub same :
      (a : ℕ) (r : OsRegion)
      → In r w.process.mapped
      → r.base ≤ a
      → a < r.base + r.size
      → w'.mem a ≡ w.mem a
  pub outside :
      (a : ℕ) (r : OsRegion)
      → In r w.process.mapped
      → r.base ≤ a
      → a < r.base + r.size
      → IsOutside pool.arenas a
      → IsOutside pool'.arenas a
  pub regions : (r : OsRegion) → In r w.process.mapped → In r w'.process.mapped
  pub total_same : pool'.slot_total_size ≡ pool.slot_total_size

-- The system has no memory for one more arena of the pool.
abbrev pub Starved : Platform → Pool → World → Type 0
Starved p pool w = Refuses p w (pool.slot_total_size * 256)

abbrev pub Restock : Platform → World → Pool → (free used : List ℕ) → Bool × Pool → World → Type 0
Restock p w pool free used (false, pool') w' = (pool' ≡ pool) × (w' ≡ w) × Starved p pool w
Restock p w pool free used (true, pool') w' = Restocked w pool free used pool' w'

AreMapped-cons :
    (r : OsRegion) (mapped : List OsRegion) (as' : List PoolArena)
    → AreMapped mapped as'
    → AreMapped (r ∷ mapped) as'
AreMapped-cons r mapped [] h = tt
AreMapped-cons r mapped (a ∷ as') h = (inr h.0, AreMapped-cons r mapped as' h.1)

placed-Away :
    (pool : Pool) (mapped : List OsRegion) (base size : ℕ) (xs : List ℕ)
    → AreMapped mapped pool.arenas
    → All (IsDisjoint base size) mapped
    → All (IsPlaced pool) xs
    → All (Away pool.slot_total_size base (base + size)) xs
placed-Away pool mapped base size xs ms clear placed =
    All-map (IsPlaced pool) (Away pool.slot_total_size base (base + size)) xs
      (λ x (_, _, _, lies).
        Lies-Away mapped pool.arenas base size pool.slot_total_size x ms clear lies)
      placed

-- The `j`-th new slot is aligned and lies in the new arena.
new_slot-IsPlaced :
    (pool : Pool) (region : OsRegion) (j : ℕ)
    → pool.slot_total_size % 16 ≡ 0
    → 0 < region.base
    → region.base % 4096 ≡ 0
    → region.base + region.size ≤ 2 ^ 47
    → 0 < pool.slot_total_size
    → j < region.size / pool.slot_total_size
    → (0 < region.base + j * pool.slot_total_size)
      × ((region.base + j * pool.slot_total_size) % 16 ≡ 0)
      × (region.base + j * pool.slot_total_size + pool.slot_total_size ≤ region.base + region.size)
new_slot-IsPlaced pool region j even pos aligned low wide h =
    let total = pool.slot_total_size in
    let q = total / 16 in
    let t : total ≡ 16 * q = omega arith in
    let e1 : j * total ≡ j * (16 * q) = ap (λ (n : ℕ). j * n) t in
    let e2 : j * (16 * q) ≡ 16 * (j * q) = omega arith in
    let whole : (j + 1) * total ≤ region.size / total * total = grind arith in
    let fits : region.size / total * total ≤ region.size = div-mul-le_self region.size total in
    (omega arith, omega arith, omega arith)

new_slot :
    {m : Memory} {free live : List ℕ} (pool : Pool) (region : OsRegion) (j head : ℕ)
    → IsStock m pool free live
    → 0 < region.base
    → region.base % 4096 ≡ 0
    → region.base + region.size ≤ 2 ^ 47
    → j < region.size / pool.slot_total_size
    → IsPlaced
        (record pool {
          free_head = head;
          arenas = pool.arenas ++ record { base = region.base; size = region.size } ∷ [];
        })
        (region.base + j * pool.slot_total_size)
new_slot pool region j head i pos aligned low h =
    let (a, b, c) =
      new_slot-IsPlaced pool region j (omega (arith, i.total, i.payload)) pos aligned low
        (omega (arith, i.total)) h in
    (a, b, omega arith, Lies-right pool.arenas _ _ _ (inl (omega arith, c)))

enough_slots : (size total : ℕ) → 0 < total → total * 256 ≤ size → 256 ≤ size / total
enough_slots size total pos h = (le-div_iff_mul-le pos).1 (omega arith)

expand_into-Restocked :
    (p : Platform) (w w1 : World) (pool : Pool) (free live : List ℕ) (region : OsRegion)
    → IsStock w.mem pool free live
    → AreMapped w.process.mapped pool.arenas
    → IsAcquired (pool.slot_total_size * 256) w region w1
    → Ends (Restock p w pool free live) (expand_into p pool (some region) w1)
unfolding expand_into
expand_into-Restocked p w w1 pool free live region i ms got =
    let total = pool.slot_total_size in
    let k = region.size / total in
    let arenas' = pool.arenas ++ record { base = region.base; size = region.size } ∷ [] in
    let top : k * total ≤ region.size = div-mul-le_self region.size total in
    let away =
      placed-Away pool w.process.mapped region.base region.size (free ++ live) ms got.clear
        i.placed in
    let near =
      All-map (Away total region.base (region.base + region.size))
        (Away total (region.base + 0 * total) (region.base + (0 + k) * total)) (free ++ live)
        (λ x a. ground arith) away in
    let same1 =
      SameAt-Away w.mem w1.mem total region.base _ (free ++ live) (omega (arith, i.total)) got.same
        away in
    let chain1 = Chain-same w.mem w1.mem null free (All-left _ free live same1) i.chain in
    rw i.head (
      Ends-continue
        (carve-IsCarved region.base total (omega (arith, i.total)) got.pos k 0 w1 free
          (omega (arith, got.low)) (All-left _ free live near) chain1)
        λ head w2 c.
          let slots = carved_slots k 0 region.base total free in
          let e = carved_slots-append region.base total k 0 free live in
          ends (record {
            slots = slots;
            is_stock = record {
              total = i.total;
              payload = i.payload;
              head = c.head;
              chain = c.chain;
              spaced =
                  subst (AllSpaced total) (sym e)
                    (carved_slots-AllSpaced region.base total k 0 (free ++ live) near i.spaced);
              placed =
                  subst (All (IsPlaced (record pool { free_head = head; arenas = arenas' })))
                    (sym e)
                    (carved_slots-All region.base total
                      (IsPlaced (record pool { free_head = head; arenas = arenas' })) k 0
                      (free ++ live)
                      (λ j lo hi.
                        new_slot pool region j head i got.pos got.aligned got.low (omega arith))
                      (All-map (IsPlaced pool)
                        (IsPlaced (record pool { free_head = head; arenas = arenas' }))
                        (free ++ live)
                        (λ x (a, b, d, lies). (a, b, d, Lies-left pool.arenas _ total x lies))
                        i.placed));
              full = omega (
                arith,
                i.full,
                length-carved_slots region.base total k 0 free,
                capacity-append total pool.arenas
                    (record { base = region.base; size = region.size } ∷ []),
              );
            };
            added = carved_slots k 0 region.base total [];
            split = sym (carved_slots-append region.base total k 0 [] free);
            more = omega (
              arith,
              enough_slots region.size total (omega (arith, i.total)) got.room,
              length-carved_slots region.base total k 0 [],
            );
            are_mapped =
                subst (λ q. AreMapped q.mapped arenas') (sym c.process)
                  (subst (λ l. AreMapped l arenas') (sym got.mapped)
                    (All-append (λ a. In (region_of a) (region ∷ w.process.mapped)) pool.arenas _
                      (AreMapped-cons region w.process.mapped pool.arenas ms) (inl refl, tt)));
            held = ap (λ q. q.held) c.process ∙ got.held;
            same = λ a r at lo hi.
                let apart =
                  In-All (IsDisjoint region.base region.size) w.process.mapped r at got.clear in
                c.same a (ground (arith, apart)) ∙ got.same a (ground (arith, apart));
            outside = λ a r at lo hi out.
                let apart =
                  In-All (IsDisjoint region.base region.size) w.process.mapped r at got.clear in
                All-append (λ q. (a < q.base) ⊎ (q.base + q.size ≤ a)) pool.arenas _ out
                  (ground (arith, apart), tt);
            regions = λ r at.
                subst (λ q. In r q.mapped) (sym c.process) (subst (In r) (sym got.mapped) (inr at));
            total_same = refl;
          }))

expand_case :
    (p : Platform) (w w1 : World) (pool : Pool) (free live : List ℕ) (o : Option OsRegion)
    → IsStock w.mem pool free live
    → AreMapped w.process.mapped pool.arenas
    → Acquired p (pool.slot_total_size * 256) w o w1
    → Ends (Restock p w pool free live) (expand_into p pool o w1)
unfolding expand_into
expand_case p w w1 pool free live none i ms got =
    let refused : Starved p pool w = elim got.1 [
      | inl none_needed ↦ absurd (omega (arith, none_needed, i.total))
      | inr refused ↦ refused
    ] in
    ends (refl, got.0, refused)
expand_case p w w1 pool free live (some region) i ms got =
    expand_into-Restocked p w w1 pool free live region i ms got

pub expand-Restock :
    (p : Platform) (w : World) (pool : Pool) (free live : List ℕ)
    → IsKernel p
    → pool.slot_total_size < 2 ^ 40
    → IsStock w.mem pool free live
    → AreMapped w.process.mapped pool.arenas
    → Ends (Restock p w pool free live) (expand p pool w)
unfolding expand
expand-Restock p w pool free live k small i ms =
    let whole : mul64 pool.slot_total_size 256 ≡ pool.slot_total_size * 256 = omega arith in
    rw whole (
      Ends-continue (os_acquire-Acquired p (pool.slot_total_size * 256) w k (omega arith))
        (λ o w1 got. expand_case p w w1 pool free live o i ms got))
