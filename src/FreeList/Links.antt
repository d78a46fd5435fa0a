-- ===== src/FreeList/Links.antt =====
-- When the links in memory are those of a given list of blocks, and what leaves them so.
use custom_memory_allocator.Base.{
  ℕ, ◌+◌, ◌≤◌, ◌<◌, ◌^◌, ◌≡◌, ◌∙◌, ◌⊎◌, true, null, List, [], ◌∷◌, ◌++◌, arith, false, ◌==◌,
  ==_of_ne, All, All-map, Spaced, AllSpaced, head_or, last_or, head_or-append,
}
use custom_memory_allocator.Memory.{Memory, read_word, write_word}
use custom_memory_allocator.Memory.Access.{
  read_word-write_word, read_word-write_other, write_word-outside,
}
use custom_memory_allocator.Block.{is_free, free_list_links}
use custom_memory_allocator.Run.{World, done}
use custom_memory_allocator.FreeList.{FreeList, check_free_block}

pub record IsNode (m : Memory) (prev next block : ℕ) : Type 0 where
  pub pos : 0 < block
  pub fits : block < 2 ^ 64
  pub free : is_free m block ≡ true
  pub next_link : read_word m (block + 16) ≡ next
  pub prev_link : read_word m (block + 16 + 8) ≡ prev

-- The blocks are linked in this order, between `prev` and `stop`.
abbrev pub Links : Memory → ℕ → ℕ → List ℕ → Type 0
Links m prev stop [] = Unit {0}
Links m prev stop (x ∷ xs) = IsNode m prev (head_or stop xs) x × Links m x stop xs

-- Two blocks share no byte of their headers and links.
abbrev pub Clear : ℕ → ℕ → Type 0
Clear = Spaced 32

abbrev pub Apart : List ℕ → Type 0
Apart = AllSpaced 32

pub record IsFreeList (m : Memory) (list : FreeList) (xs : List ℕ) : Type 0 where
  pub head : list.head ≡ head_or null xs
  pub links : Links m null null xs
  pub apart : Apart xs

-- Byte `a` belongs to no block's links.
abbrev pub OutsideOf : ℕ → ℕ → Type 0
OutsideOf a x = (a < x + 16) ⊎ (x + 32 ≤ a)

abbrev pub OutsideLinks : ℕ → List ℕ → Type 0
OutsideLinks a xs = All (OutsideOf a) xs

abbrev pub SameOutside : List ℕ → Memory → Memory → Type 0
SameOutside xs m m' = (a : ℕ) → OutsideLinks a xs → m' a ≡ m a

-- The words of a node read the same.
abbrev pub SameNode : Memory → Memory → ℕ → Type 0
SameNode m m' x =
    (read_word m' x ≡ read_word m x)
    × (read_word m' (x + 16) ≡ read_word m (x + 16))
    × (read_word m' (x + 16 + 8) ≡ read_word m (x + 16 + 8))

pub IsNode-frame :
    {m : Memory} {prev next x : ℕ} (m' : Memory)
    → SameNode m m' x
    → IsNode m prev next x
    → IsNode m' prev next x
unfolding is_free
IsNode-frame m' s n = record {
  pos = n.pos;
  fits = n.fits;
  free = rw s.0 n.free;
  next_link = s.1 ∙ n.next_link;
  prev_link = s.2 ∙ n.prev_link;
}

pub Links-frame :
    (m m' : Memory) (prev stop : ℕ) (xs : List ℕ)
    → All (SameNode m m') xs
    → Links m prev stop xs
    → Links m' prev stop xs
Links-frame m m' prev stop [] s l = tt
Links-frame m m' prev stop (x ∷ xs) s l =
    (IsNode-frame m' s.0 l.0, Links-frame m m' x stop xs s.1 l.1)

pub Links-append :
    (m : Memory) (prev stop : ℕ) (xs ys : List ℕ)
    → Links m prev (head_or stop ys) xs
    → Links m (last_or prev xs) stop ys
    → Links m prev stop (xs ++ ys)
Links-append m prev stop [] ys l r = r
Links-append m prev stop (x ∷ xs) ys l r =
    (rw (head_or-append stop xs ys) l.0, Links-append m x stop xs ys l.1 r)

pub Links-split :
    (m : Memory) (prev stop : ℕ) (xs ys : List ℕ)
    → Links m prev stop (xs ++ ys)
    → Links m prev (head_or stop ys) xs × Links m (last_or prev xs) stop ys
Links-split m prev stop [] ys l = (tt, l)
Links-split m prev stop (x ∷ xs) ys l =
    let (a, b) = Links-split m x stop xs ys l.1 in ((rw (← head_or-append stop xs ys) l.0, a), b)

-- A write to the links of `p` spares every node that is clear of `p`.
pub SameNode-write :
    (m : Memory) (p a v x : ℕ)
    → Clear p x
    → p + 16 ≤ a
    → a + 8 ≤ p + 32
    → SameNode m (write_word m a v) x
SameNode-write m p a v x clear lo hi = (
  read_word-write_other m a v x (ground arith),
  read_word-write_other m a v (x + 16) (ground arith),
  read_word-write_other m a v (x + 16 + 8) (ground arith),
)

pub SameNode-trans :
    (m m' m'' : Memory) (x : ℕ) → SameNode m m' x → SameNode m' m'' x → SameNode m m'' x
SameNode-trans m m' m'' x s t = (t.0 ∙ s.0, t.1 ∙ s.1, t.2 ∙ s.2)

pub SameNode-trans-All :
    (m m' m'' : Memory) (xs : List ℕ)
    → All (SameNode m m') xs
    → All (SameNode m' m'') xs
    → All (SameNode m m'') xs
SameNode-trans-All m m' m'' [] s t = tt
SameNode-trans-All m m' m'' (x ∷ xs) s t =
    (SameNode-trans m m' m'' x s.0 t.0, SameNode-trans-All m m' m'' xs s.1 t.1)

pub SameNode-write-All :
    (m : Memory) (p a v : ℕ) (xs : List ℕ)
    → All (Clear p) xs
    → p + 16 ≤ a
    → a + 8 ≤ p + 32
    → All (SameNode m (write_word m a v)) xs
SameNode-write-All m p a v xs clear lo hi =
    All-map (Clear p) (SameNode m (write_word m a v)) xs (λ x c. SameNode-write m p a v x c lo hi)
      clear

-- Such a write changes no byte outside the links of `p`.
pub links-write_outside :
    (m : Memory) (p a v b : ℕ)
    → p + 16 ≤ a
    → a + 8 ≤ p + 32
    → (b < p + 16) ⊎ (p + 32 ≤ b)
    → write_word m a v b ≡ m b
links-write_outside m p a v b lo hi out = write_word-outside m a v b (ground arith)

-- The assertions hold at a free block.
module _ (block : ℕ) (w : World) (free : is_free w.mem block ≡ true) where
  pub links_done : free_list_links block w ≡ done (block + 16) w
  unfolding free_list_links
  links_done = rw free

  pub check_done : 0 < block → check_free_block block w ≡ done tt w
  unfolding check_free_block
  check_done pos =
      let nonnull : (block == 0) ≡ false = ==_of_ne block 0 (omega arith) in rw (nonnull, free)

-- A node after one of its own links has been set.
module _ {m : Memory} {prev next x : ℕ} (n : IsNode m prev next x) (v : ℕ) (fits : v < 2 ^ 64) where
  pub IsNode-set_next : IsNode (write_word m (x + 16) v) prev v x
  unfolding is_free
  IsNode-set_next = record {
    pos = n.pos;
    fits = n.fits;
    free = rw (read_word-write_other m (x + 16) v x (omega arith)) n.free;
    next_link = read_word-write_word m (x + 16) v fits;
    prev_link = read_word-write_other m (x + 16) v (x + 16 + 8) (omega arith) ∙ n.prev_link;
  }

  pub IsNode-set_prev : IsNode (write_word m (x + 16 + 8) v) v next x
  unfolding is_free
  IsNode-set_prev = record {
    pos = n.pos;
    fits = n.fits;
    free = rw (read_word-write_other m (x + 16 + 8) v x (omega arith)) n.free;
    next_link = read_word-write_other m (x + 16 + 8) v (x + 16) (omega arith) ∙ n.next_link;
    prev_link = read_word-write_word m (x + 16 + 8) v fits;
  }
