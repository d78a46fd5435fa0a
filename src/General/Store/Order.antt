-- ===== src/General/Store/Order.antt =====
-- The bag of blocks has no order: any block of it can stand in front.
use custom_memory_allocator.Base.{
  ℕ, List, [], ◌∷◌, ◌++◌, All, All-left, All-right, All-append, In-front, In-back,
}
use custom_memory_allocator.Memory.{Memory}
use custom_memory_allocator.FreeList.{FreeList}
use custom_memory_allocator.General.Store.{listed, Blk, blk, IsGood, Off, AllOff, IsStore}
use custom_memory_allocator.General.Store.Frame.{Off-sym}

module _ (ps : List Blk) (b : Blk) (qs : List Blk) where
  pub All-front : (P : Blk → Type 0) → All P (ps ++ b ∷ qs) → All P (b ∷ ps ++ qs)
  All-front P h =
      let tail = All-right P ps (b ∷ qs) h in
      (tail.0, All-append P ps qs (All-left P ps (b ∷ qs) h) tail.1)

  pub All-back : (P : Blk → Type 0) → All P (b ∷ ps ++ qs) → All P (ps ++ b ∷ qs)
  All-back P h = All-append P ps (b ∷ qs) (All-left P ps qs h.1) (h.0, All-right P ps qs h.1)

AllOff-front :
    (ps : List Blk) (b : Blk) (qs : List Blk) → AllOff (ps ++ b ∷ qs) → AllOff (b ∷ ps ++ qs)
AllOff-front [] b qs off = off
AllOff-front (p ∷ ps) b qs off =
    let (clear, rest) = AllOff-front ps b qs off.1 in
    let (p_b, p_rest) = All-front ps b qs (Off p) off.0 in
    ((Off-sym p b p_b, clear), (p_rest, rest))

pub IsStore-front :
    (m : Memory) (list : FreeList) (ps : List Blk) (b : Blk) (qs : List Blk) (xs : List ℕ)
    → IsStore m list (ps ++ b ∷ qs) xs
    → IsStore m list (b ∷ ps ++ qs) xs
IsStore-front m list ps b qs xs st = record {
  good = All-front ps b qs (IsGood m) st.good;
  off = AllOff-front ps b qs st.off;
  free_list = st.free_list;
  only_free = λ x i. let (s, at) = st.only_free x i in (s, In-front ps b qs (blk x s listed) at);
  all_free = λ x s i. st.all_free x s (In-back ps b qs (blk x s listed) i);
}

AllOff-back :
    (ps : List Blk) (b : Blk) (qs : List Blk) → AllOff (b ∷ ps ++ qs) → AllOff (ps ++ b ∷ qs)
AllOff-back [] b qs off = off
AllOff-back (p ∷ ps) b qs off = (
  All-back ps b qs (Off p) (Off-sym b p off.0.0, off.1.0),
  AllOff-back ps b qs (off.0.1, off.1.1),
)

pub IsStore-back :
    (m : Memory) (list : FreeList) (ps : List Blk) (b : Blk) (qs : List Blk) (xs : List ℕ)
    → IsStore m list (b ∷ ps ++ qs) xs
    → IsStore m list (ps ++ b ∷ qs) xs
IsStore-back m list ps b qs xs st = record {
  good = All-back ps b qs (IsGood m) st.good;
  off = AllOff-back ps b qs st.off;
  free_list = st.free_list;
  only_free = λ x i. let (s, at) = st.only_free x i in (s, In-back ps b qs (blk x s listed) at);
  all_free = λ x s i. st.all_free x s (In-front ps b qs (blk x s listed) i);
}
