-- ===== src/General/Store/Flag.antt =====
-- A block that is not listed changes hands: its flag is set or cleared.
use custom_memory_allocator.Base.{
  Bool, true, false, ◌⊎◌, inl, inr, ◌<◌, ◌≤◌, ◌≡◌, ℕ, ◌+◌, ◌≢◌, List, [], ◌∷◌, All, All-map, ◌∙◌,
  arith, subst, sym,
}
use custom_memory_allocator.Memory.{Memory, write_word}
use custom_memory_allocator.Memory.Access.{
  read_word-write_word, read_word-write_other, write_word-outside,
}
use custom_memory_allocator.Block.{set_free}
use custom_memory_allocator.Block.Tags.{tag, set_free-tag}
use custom_memory_allocator.FreeList.{FreeList}
use custom_memory_allocator.General.Store.{
  Kind, listed, flag, Blk, blk, Foreign, IsGood, Off, IsStore, OffRange, SameBut,
}
use custom_memory_allocator.General.Store.Replace.{IsStore-replace}
use custom_memory_allocator.General.Store.Tagged.{tag_fits}

pub OffRange-one :
    (a s : ℕ) (k : Kind) (rest : List Blk)
    → All (Off (blk a s k)) rest
    → All (OffRange a (a + 32 + s)) rest
OffRange-one a s k rest off =
    All-map (Off (blk a s k)) (OffRange a (a + 32 + s)) rest (λ c o. ground arith) off

-- set_free on a block that is not listed, to the flag of another such kind, keeps the bag well-formed.
pub set_free-IsStore :
    (m : Memory) (list : FreeList) (a s : ℕ) (k k' : Kind) (rest : List Blk) (xs : List ℕ)
    → k ≢ listed
    → k' ≢ listed
    → IsStore m list (blk a s k ∷ rest) xs
    → IsStore (set_free a (flag k') m) list (blk a s k' ∷ rest) xs
set_free-IsStore m list a s k k' rest xs ne ne' st =
    let old = st.good.0 in
    let low = old.low in
    let room = old.room in
    let place = old.tags.aligned in
    let m' = write_word m a (tag s (flag k')) in
    let same : SameBut a (a + 32 + s) m m' = λ b out. write_word-outside m a _ b (ground arith) in
    let good : IsGood m' (blk a s k') = record {
      tags = record {
        head_tag = read_word-write_word m a (tag s (flag k')) (tag_fits s (flag k') (omega arith));
        foot_tag = read_word-write_other m a _ (a + 16 + s) (omega arith) ∙ old.tags.foot_tag;
        aligned = old.tags.aligned;
      };
      room = old.room;
      pos = old.pos;
      low = old.low;
      aligned = old.aligned;
    } in
    subst (λ m2. IsStore m2 list (blk a s k' ∷ rest) xs)
      (sym (set_free-tag m a s (omega arith) (flag k) (flag k') old.tags.head_tag))
      (IsStore-replace m m' list (blk a s k ∷ []) (blk a s k' ∷ []) rest xs a (a + 32 + s) st
        (ne, tt) (OffRange-one a s k rest st.off.0) same (good, tt) (ne', tt) (tt, tt)
        ((omega arith, omega arith), tt))

header_outside : (x a s : ℕ) (k : Kind) → Foreign x (blk a s k) → (x < a) ⊎ (a + 8 ≤ x)
header_outside x a s k (inl h) = inl h
header_outside x a s k (inr (inl h)) = inr (omega arith)
header_outside x a s k (inr (inr h)) = inr (omega (arith, h.1))

-- The header's word is all that changes.
pub set_free-Foreign :
    (m : Memory) (a s x : ℕ) (free : Bool) (k : Kind)
    → Foreign x (blk a s k)
    → set_free a free m x ≡ m x
unfolding set_free
set_free-Foreign m a s x true k f = write_word-outside m a _ x (header_outside x a s k f)
set_free-Foreign m a s x false k f = write_word-outside m a _ x (header_outside x a s k f)
