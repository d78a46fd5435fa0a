-- ===== src/General/Store.antt =====
-- The blocks of the general path as a bag, and what memory and the free list say about them.
pub mod Frame
pub mod Replace
pub mod Listing
pub mod Order
pub mod Merge
pub mod Flag
pub mod Reuse
pub mod Split
pub mod Step
pub mod Tagged
use custom_memory_allocator.Base.{
  ℕ, ◌+◌, ◌≤◌, ◌<◌, ◌^◌, ◌%◌, ◌≡◌, ◌≢◌, ◌⊎◌, inl, inr, Bool, true, false, List, [], ◌∷◌, ◌++◌, All,
  In, refl, ◌∙◌, sym, arith,
}
use custom_memory_allocator.Memory.{Memory}
use custom_memory_allocator.Block.Tags.{IsBlock}
use custom_memory_allocator.FreeList.{FreeList}
use custom_memory_allocator.FreeList.Links.{IsFreeList}

-- A block is in a caller's hands, on the free list, or between the two while an operation runs.
pub data Kind : Type 0 where
  in_use listed detached : Kind

abbrev pub flag : Kind → Bool
flag in_use = false
flag listed = true
flag detached = true

pub record Blk : Type 0 where
  pub addr : ℕ
  pub size : ℕ
  pub kind : Kind

abbrev pub blk : ℕ → ℕ → Kind → Blk
blk a s k = record { addr = a; size = s; kind = k }

-- The tags in memory are right, and the block can hold links.
pub record IsGood (m : Memory) (b : Blk) : Type 0 where
  pub tags : IsBlock m b.addr b.size (flag b.kind)
  pub room : 16 ≤ b.size
  pub pos : 0 < b.addr
  pub low : b.addr + 32 + b.size ≤ 2 ^ 47
  pub aligned : b.addr % 16 ≡ 0

-- No byte in common, headers and footers included.
abbrev pub Off : Blk → Blk → Type 0
Off b c = (b.addr + 32 + b.size ≤ c.addr) ⊎ (c.addr + 32 + c.size ≤ b.addr)

abbrev pub AllOff : List Blk → Type 0
AllOff [] = Unit {0}
AllOff (b ∷ bs) = All (Off b) bs × AllOff bs

pub record IsStore (m : Memory) (list : FreeList) (bs : List Blk) (xs : List ℕ) : Type 0 where
  pub good : All (IsGood m) bs
  pub off : AllOff bs
  pub free_list : IsFreeList m list xs
  pub only_free : (x : ℕ) → In x xs → (s : ℕ) × In (blk x s listed) bs
  pub all_free : (x s : ℕ) → In (blk x s listed) bs → In x xs

-- The bytes from `lo` up to `hi` are none of the block's.
abbrev pub OffRange : ℕ → ℕ → Blk → Type 0
OffRange lo hi b = (hi ≤ b.addr) ⊎ (b.addr + 32 + b.size ≤ lo)

abbrev pub WithinRange : ℕ → ℕ → Blk → Type 0
WithinRange lo hi b = (lo ≤ b.addr) × (b.addr + 32 + b.size ≤ hi)

abbrev pub SameBut : ℕ → ℕ → Memory → Memory → Type 0
SameBut lo hi m m' = (a : ℕ) → (a < lo) ⊎ (hi ≤ a) → m' a ≡ m a

-- A byte that the general path leaves alone: it lies in no block, or in the payload of one in use.
abbrev pub Foreign : ℕ → Blk → Type 0
Foreign x b =
    (x < b.addr)
    ⊎ (b.addr + 32 + b.size ≤ x)
    ⊎ ((b.kind ≡ in_use) × (b.addr + 16 ≤ x) × (x < b.addr + 16 + b.size))

-- The bytes that are foreign to the blocks before keep their values, and are foreign to those after.
pub record Spares (before after : List Blk) (m m' : Memory) : Type 0 where
  pub byte : (x : ℕ) → All (Foreign x) before → (m' x ≡ m x) × All (Foreign x) after

pub Spares-trans :
    {bs bs' bs'' : List Blk} {m m' m'' : Memory}
    → Spares bs bs' m m'
    → Spares bs' bs'' m' m''
    → Spares bs bs'' m m''
Spares-trans f g = record {
  byte = λ x h. let (e, h') = f.byte x h in let (e', h'') = g.byte x h' in (e' ∙ e, h'');
}

pub Spares-refl : {bs : List Blk} {m : Memory} → Spares bs bs m m
Spares-refl = record { byte = λ x h. (refl, h) }

-- A byte foreign to a block that is not in use lies outside it.
pub Foreign-outside :
    (x : ℕ) (b : Blk) → b.kind ≢ in_use → Foreign x b → (x < b.addr) ⊎ (b.addr + 32 + b.size ≤ x)
Foreign-outside x b ne (inl h) = inl h
Foreign-outside x b ne (inr (inl h)) = inr h
Foreign-outside x b ne (inr (inr h)) = absurd (ne h.0)

pub Foreign-rekind :
    (x a s : ℕ) (k k' : Kind) → k ≢ in_use → Foreign x (blk a s k) → Foreign x (blk a s k')
Foreign-rekind x a s k k' ne f = elim (Foreign-outside x (blk a s k) ne f) [
  | inl h ↦ inl h
  | inr h ↦ inr (inl h)
]

pub listed-in_use : listed ≢ in_use
listed-in_use e = cc

pub detached-in_use : detached ≢ in_use
detached-in_use e = cc
