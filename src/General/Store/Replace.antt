-- ===== src/General/Store/Replace.antt =====
-- One or two blocks that are not on the list give way to others in the same bytes.
use custom_memory_allocator.Base.{
  ℕ, ◌+◌, ◌≢◌, inl, inr, List, [], ◌∷◌, ◌++◌, All, All-map, All-append, All-right, All-of_In, In,
  In-All, In-append_right, sym, ap, arith,
}
use custom_memory_allocator.Memory.{Memory}
use custom_memory_allocator.Memory.Access.{read_word-agree}
use custom_memory_allocator.FreeList.{FreeList}
use custom_memory_allocator.FreeList.Links.{IsFreeList, SameNode, Links-frame}
use custom_memory_allocator.General.Store.{
  listed, Blk, blk, IsGood, Off, AllOff, IsStore, OffRange, WithinRange, SameBut,
}
use custom_memory_allocator.General.Store.Frame.{IsGood-range}

abbrev pub NotListed : Blk → Type 0
NotListed b = b.kind ≢ listed

not_listed : (b : Blk) (x s : ℕ) → NotListed b → blk x s listed ≢ b
not_listed b x s n e = n (ap (λ c. c.kind) (sym e))

-- A listed block is none of those that are not.
listed_rest :
    (old rest : List Blk) (x s : ℕ)
    → All NotListed old
    → In (blk x s listed) (old ++ rest)
    → In (blk x s listed) rest
listed_rest [] rest x s n i = i
listed_rest (b ∷ old) rest x s n (inl e) = absurd (not_listed b x s n.0 e)
listed_rest (b ∷ old) rest x s n (inr i) = listed_rest old rest x s n.1 i

AllOff-right : (xs ys : List Blk) → AllOff (xs ++ ys) → AllOff ys
AllOff-right [] ys a = a
AllOff-right (x ∷ xs) ys a = AllOff-right xs ys a.1

pub AllOff-append :
    (xs ys : List Blk) → AllOff xs → AllOff ys → All (λ b. All (Off b) ys) xs → AllOff (xs ++ ys)
AllOff-append [] ys a b c = b
AllOff-append (x ∷ xs) ys a b c = (All-append (Off x) xs ys a.0 c.0, AllOff-append xs ys a.1 b c.1)

-- The free list survives a change of bytes of blocks that are not on it.
pub IsFreeList-range :
    (m m' : Memory) (list : FreeList) (xs : List ℕ) (rest : List Blk) (lo hi : ℕ)
    → SameBut lo hi m m'
    → ((x : ℕ) → In x xs → (s : ℕ) × In (blk x s listed) rest)
    → All (IsGood m) rest
    → All (OffRange lo hi) rest
    → IsFreeList m list xs
    → IsFreeList m' list xs
IsFreeList-range m m' list xs rest lo hi same only good off l = record {
  head = l.head;
  links = Links-frame m m' 0 0 xs (All-of_In (SameNode m m') xs node) l.links;
  apart = l.apart;
}
  where
    node : (x : ℕ) → In x xs → SameNode m m' x
    node x i =
        let (s, at) = only x i in
        let room = (In-All (IsGood m) rest (blk x s listed) at good).room in
        let away = In-All (OffRange lo hi) rest (blk x s listed) at off in
        (
          read_word-agree m m' x (λ a l h. same a (ground arith)),
          read_word-agree m m' (x + 16) (λ a l h. same a (ground arith)),
          read_word-agree m m' (x + 16 + 8) (λ a l h. same a (ground arith)),
        )

pub IsStore-replace :
    (m m' : Memory) (list : FreeList) (old new rest : List Blk) (xs : List ℕ) (lo hi : ℕ)
    → IsStore m list (old ++ rest) xs
    → All NotListed old
    → All (OffRange lo hi) rest
    → SameBut lo hi m m'
    → All (IsGood m') new
    → All NotListed new
    → AllOff new
    → All (WithinRange lo hi) new
    → IsStore m' list (new ++ rest) xs
IsStore-replace m m' list old new rest xs lo hi st n_old off same good n_new off_new within =
    let good_rest = All-right (IsGood m) old rest st.good in
    let only : (x : ℕ) → In x xs → (s : ℕ) × In (blk x s listed) rest =
      λ x i. let (s, at) = st.only_free x i in (s, listed_rest old rest x s n_old at) in
    record {
      good = All-append (IsGood m') new rest good (
          All-of_In (IsGood m') rest λ b i.
            IsGood-range m m' lo hi b same (In-All (OffRange lo hi) rest b i off)
              (In-All (IsGood m) rest b i good_rest));
      off = AllOff-append new rest off_new (AllOff-right old rest st.off) (
          All-map (WithinRange lo hi) (λ b. All (Off b) rest) new
            (λ b w. All-map (OffRange lo hi) (Off b) rest (λ c o. ground arith) off) within);
      free_list = IsFreeList-range m m' list xs rest lo hi same only good_rest off st.free_list;
      only_free = λ x i. let (s, at) = only x i in (s, In-append_right new rest _ at);
      all_free =
          λ x s i. st.all_free x s (In-append_right old rest _ (listed_rest new rest x s n_new i));
    }
