-- ===== src/Pool/Slots.antt =====
-- The well-formed pool: which slots are free, which are in use, and that none overlap.
use custom_memory_allocator.Base.{
  ℕ, ◌+◌, ◌/◌, ◌≤◌, ◌<◌, ◌^◌, ◌%◌, ◌≡◌, ◌⊎◌, ◌∙◌, length, null, List, [], ◌∷◌, ◌++◌, arith, All,
  head_or, Spaced, AllSpaced,
}
use custom_memory_allocator.Memory.{Memory, read_word, write_word}
use custom_memory_allocator.Memory.Access.{read_word-write_other}
use custom_memory_allocator.Pool.{Pool, PoolArena}

-- The free slots are chained in this order, up to `stop`.
abbrev pub Chain : Memory → ℕ → List ℕ → Type 0
Chain m stop [] = Unit {0}
Chain m stop (x ∷ xs) = (0 < x) × (x < 2 ^ 64) × (read_word m x ≡ head_or stop xs) × Chain m stop xs

-- The slot's bytes lie in one of the arenas.
abbrev pub Lies : List PoolArena → ℕ → ℕ → Type 0
Lies [] total x = ⊥
Lies (a ∷ as') total x = ((a.base ≤ x) × (x + total ≤ a.base + a.size)) ⊎ Lies as' total x

-- How many slots were carved out of the arenas.
abbrev pub capacity : ℕ → List PoolArena → ℕ
capacity total [] = 0
capacity total (a ∷ as') = a.size / total + capacity total as'

pub capacity-append :
    (total : ℕ) (as' bs : List PoolArena)
    → capacity total (as' ++ bs) ≡ capacity total as' + capacity total bs
capacity-append total [] bs = omega arith
capacity-append total (a ∷ as') bs = omega (arith, capacity-append total as' bs)

abbrev pub IsPlaced : Pool → ℕ → Type 0
IsPlaced pool x =
    (0 < x)
    × (x % 16 ≡ 0)
    × (x + pool.slot_total_size ≤ 2 ^ 64)
    × Lies pool.arenas pool.slot_total_size x

-- `this` is the pool's address, `free` the free slots in their order, `live` those handed out; these
-- are all the slots of the arenas.
pub record IsPool (m : Memory) (this : ℕ) (pool : Pool) (free live : List ℕ) : Type 0 where
  pub total : pool.slot_total_size ≡ 16 + pool.slot_payload_size
  pub payload : pool.slot_payload_size % 16 ≡ 0
  pub head : pool.free_head ≡ head_or null free
  pub chain : Chain m null free
  pub tags : All (λ y. read_word m y ≡ this) live
  pub spaced : AllSpaced pool.slot_total_size (free ++ live)
  pub placed : All (IsPlaced pool) (free ++ live)
  pub full : length free + length live ≡ capacity pool.slot_total_size pool.arenas

-- The same for slots of which some wait in a batch or a cache: `used` are all those outside the
-- pool's own chain, whatever their headers hold. By `full`, no slot of the arenas is missing.
pub record IsStock (m : Memory) (pool : Pool) (free used : List ℕ) : Type 0 where
  pub total : pool.slot_total_size ≡ 16 + pool.slot_payload_size
  pub payload : pool.slot_payload_size % 16 ≡ 0
  pub head : pool.free_head ≡ head_or null free
  pub chain : Chain m null free
  pub spaced : AllSpaced pool.slot_total_size (free ++ used)
  pub placed : All (IsPlaced pool) (free ++ used)
  pub full : length free + length used ≡ capacity pool.slot_total_size pool.arenas

pub IsPool-IsStock :
    {m : Memory} {this : ℕ} {pool : Pool} {free live : List ℕ}
    → IsPool m this pool free live
    → IsStock m pool free live
IsPool-IsStock i = record {
  total = i.total;
  payload = i.payload;
  head = i.head;
  chain = i.chain;
  spaced = i.spaced;
  placed = i.placed;
  full = i.full;
}

pub IsStock-IsPool :
    {m : Memory} {this : ℕ} {pool : Pool} {free live : List ℕ}
    → IsStock m pool free live
    → All (λ y. read_word m y ≡ this) live
    → IsPool m this pool free live
IsStock-IsPool i tags = record {
  total = i.total;
  payload = i.payload;
  head = i.head;
  chain = i.chain;
  tags = tags;
  spaced = i.spaced;
  placed = i.placed;
  full = i.full;
}

-- Nothing but the header of the slot has changed.
abbrev pub SameButSlot : ℕ → Memory → Memory → Type 0
SameButSlot s m m' = (a : ℕ) → (a < s) ⊎ (s + 8 ≤ a) → m' a ≡ m a

module _ (m : Memory) (s v gap : ℕ) (wide : 8 ≤ gap) where
  -- Writing the header of a slot spares the others.
  pub spared_word : (x : ℕ) → Spaced gap s x → read_word (write_word m s v) x ≡ read_word m x
  spared_word x c = read_word-write_other m s v x (ground arith)

  pub Chain-write :
      (stop : ℕ) (xs : List ℕ)
      → All (Spaced gap s) xs
      → Chain m stop xs
      → Chain (write_word m s v) stop xs
  Chain-write stop [] c h = tt
  Chain-write stop (x ∷ xs) c (pos, fits, link, rest) =
      (pos, fits, spared_word x c.0 ∙ link, Chain-write stop xs c.1 rest)

  pub tags-write :
      (this : ℕ) (xs : List ℕ)
      → All (Spaced gap s) xs
      → All (λ y. read_word m y ≡ this) xs
      → All (λ y. read_word (write_word m s v) y ≡ this) xs
  tags-write this [] c h = tt
  tags-write this (x ∷ xs) c h = (spared_word x c.0 ∙ h.0, tags-write this xs c.1 h.1)
