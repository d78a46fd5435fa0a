-- ===== src/General/Store/Frame.antt =====
-- What a change of memory leaves true of the blocks that it does not touch.
use custom_memory_allocator.Base.{
  In-append_right, ◌++◌, ℕ, ◌+◌, ◌≤◌, ◌<◌, ◌≡◌, ◌⊎◌, inl, inr, List, [], ◌∷◌, All, All-of_In, In,
  In-All, sym, ap, subst, ◌∙◌, arith,
}
use custom_memory_allocator.Memory.{Memory}
use custom_memory_allocator.Memory.Access.{read_word-agree}
use custom_memory_allocator.FreeList.Links.{SameOutside, OutsideLinks, OutsideOf}
use custom_memory_allocator.General.Store.{
  listed, Blk, blk, Foreign, Foreign-outside, listed-in_use, IsGood, Off, AllOff, OffRange, SameBut,
}

pub Off-sym : (b c : Blk) → Off b c → Off c b
Off-sym b c (inl h) = inr h
Off-sym b c (inr h) = inl h

-- Two blocks of the bag are one block or have no byte in common.
pub AllOff-pair : (bs : List Blk) (b c : Blk) → AllOff bs → In b bs → In c bs → (b ≡ c) ⊎ Off b c
AllOff-pair [] b c off i j = absurd i
AllOff-pair (d ∷ bs) b c off (inl e) (inl f) = inl (e ∙ sym f)
AllOff-pair (d ∷ bs) b c off (inl e) (inr j) =
    inr (subst (λ x. Off x c) (sym e) (In-All (Off d) bs c j off.0))
AllOff-pair (d ∷ bs) b c off (inr i) (inl f) =
    inr (subst (λ x. Off b x) (sym f) (Off-sym d b (In-All (Off d) bs b i off.0)))
AllOff-pair (d ∷ bs) b c off (inr i) (inr j) = AllOff-pair bs b c off.1 i j

-- A block whose two tag words are untouched stays good.
pub IsGood-same :
    (m m' : Memory) (b : Blk)
    → ((a : ℕ) → b.addr ≤ a → a < b.addr + 8 → m' a ≡ m a)
    → ((a : ℕ) → b.addr + 16 + b.size ≤ a → a < b.addr + 16 + b.size + 8 → m' a ≡ m a)
    → IsGood m b
    → IsGood m' b
IsGood-same m m' b head foot g = record {
  tags = record {
    head_tag = read_word-agree m m' b.addr head ∙ g.tags.head_tag;
    foot_tag = read_word-agree m m' (b.addr + 16 + b.size) foot ∙ g.tags.foot_tag;
    aligned = g.tags.aligned;
  };
  room = g.room;
  pos = g.pos;
  low = g.low;
  aligned = g.aligned;
}

pub IsGood-range :
    (m m' : Memory) (lo hi : ℕ) (b : Blk)
    → SameBut lo hi m m'
    → OffRange lo hi b
    → IsGood m b
    → IsGood m' b
IsGood-range m m' lo hi b same off g =
    IsGood-same m m' b (λ a l h. same a (ground arith)) (λ a l h. same a (ground arith)) g

-- Links are written only into the payloads of listed blocks.
pub IsGood-links :
    (m m' : Memory) (bs : List Blk) (xs : List ℕ)
    → SameOutside xs m m'
    → ((x : ℕ) → In x xs → (s : ℕ) × In (blk x s listed) bs)
    → AllOff bs
    → All (IsGood m) bs
    → All (IsGood m') bs
IsGood-links m m' bs xs same only off good = All-of_In (IsGood m') bs keep
  where
    outside :
        (b : Blk)
        → In b bs
        → (a : ℕ) → b.addr ≤ a
        → (a < b.addr + 8) ⊎ ((b.addr + 16 + b.size ≤ a) × (a < b.addr + 32 + b.size))
        → OutsideLinks a xs
    outside b i a lo place = All-of_In (OutsideOf a) xs λ x j.
        let (s, at) = only x j in
        let room = (In-All (IsGood m) bs (blk x s listed) at good).room in
        elim (AllOff-pair bs b (blk x s listed) off i at) [
          | inl e ↦
              let ea : b.addr ≡ x = ap (λ c. c.addr) e in
              let es : b.size ≡ s = ap (λ c. c.size) e in ground arith
          | inr apart ↦ ground arith
        ]

    keep : (b : Blk) → In b bs → IsGood m' b
    keep b i =
        IsGood-same m m' b (λ a lo hi. same a (outside b i a lo (inl hi)))
          (λ a lo hi. same a (outside b i a (omega arith) (inr (lo, omega arith))))
          (In-All (IsGood m) bs b i good)

-- A byte foreign to the blocks is no byte of a link.
pub Foreign-links :
    (bs : List Blk) (xs : List ℕ) (x : ℕ)
    → ((y : ℕ) → In y xs → (s : ℕ) × In (blk y s listed) bs)
    → All (Foreign x) bs
    → OutsideLinks x xs
Foreign-links bs xs x only h = All-of_In (OutsideOf x) xs λ y i.
    let (s, at) = only y i in
    let out =
      Foreign-outside x (blk y s listed) listed-in_use
        (In-All (Foreign x) bs (blk y s listed) at h) in
    ground arith

pub AllOff-cross : (xs ys : List Blk) (b c : Blk) → AllOff (xs ++ ys) → In b xs → In c ys → Off b c
AllOff-cross [] ys b c off i j = absurd i
AllOff-cross (x ∷ xs) ys b c off (inl e) j =
    subst (λ y. Off y c) (sym e) (In-All (Off x) (xs ++ ys) c (In-append_right xs ys c j) off.0)
AllOff-cross (x ∷ xs) ys b c off (inr i) j = AllOff-cross xs ys b c off.1 i j
