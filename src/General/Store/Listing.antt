-- ===== src/General/Store/Listing.antt =====
-- Taking a block off the free list and putting one on it.
use custom_memory_allocator.Base.{
  ℕ, ◌≤◌, ◌≡◌, ◌≢◌, inl, inr, List, [], ◌∷◌, ◌++◌, All, All-of_In, In, In-All, In-append_cases,
  In-append_left, In-append_right, In-split, refl, sym, ap, subst, arith, AllSpaced-drop,
}
use custom_memory_allocator.Memory.{Memory}
use custom_memory_allocator.Run.{World}
use custom_memory_allocator.Run.Ends.{Ends, Ends-weaken}
use custom_memory_allocator.Block.Tags.{IsBlock-is_free}
use custom_memory_allocator.FreeList.{FreeList, insert, remove}
use custom_memory_allocator.FreeList.Links.{Clear, IsFreeList}
use custom_memory_allocator.FreeList.Insert.{IsFresh, insert-cons}
use custom_memory_allocator.FreeList.Remove.{remove-erase}
use custom_memory_allocator.General.Store.{
  Kind, listed, detached, flag, Blk, blk, Foreign, Foreign-rekind, Spares, detached-in_use, IsGood,
  Off, AllOff, IsStore,
}
use custom_memory_allocator.General.Store.Frame.{IsGood-links, Foreign-links}

-- Only the ghost kind differs, and the flag is the same.
pub IsGood-relabel :
    (m : Memory) (a s : ℕ) (k k' : Kind)
    → flag k ≡ flag k'
    → IsGood m (blk a s k)
    → IsGood m (blk a s k')
IsGood-relabel m a s k k' e g = record {
  tags = record {
    head_tag = rw (← e) g.tags.head_tag;
    foot_tag = g.tags.foot_tag;
    aligned = g.tags.aligned;
  };
  room = g.room;
  pos = g.pos;
  low = g.low;
  aligned = g.aligned;
}

-- A block at the front of the bag becomes another kind of the same extent.
pub record Listed (w : World) (a s : ℕ) (k : Kind) (rest : List Blk) (list' : FreeList) (w' : World)
    : Type 0 where
  pub xs : List ℕ
  pub store : IsStore w'.mem list' (blk a s k ∷ rest) xs
  pub spares : Spares (blk a s k ∷ rest) (blk a s k ∷ rest) w.mem w'.mem
  pub process : w'.process ≡ w.process

other_listed :
    (bs : List Blk) (a s x t : ℕ) → AllOff (blk a s listed ∷ bs) → In (blk x t listed) bs → x ≢ a
other_listed bs a s x t off i e =
    let apart = In-All (Off (blk a s listed)) bs (blk x t listed) i off.0 in ground (arith, apart)

Apart-ne : (b : ℕ) (xs : List ℕ) → All (Clear b) xs → In b xs → ⊥
Apart-ne b [] c i = i
Apart-ne b (x ∷ xs) c (inl e) = ground (arith, c.0)
Apart-ne b (x ∷ xs) c (inr i) = Apart-ne b xs c.1 i

-- The list keeps its blocks when one that is not of the rest leaves it.
module _ (a s : ℕ) (rest : List Blk) (ys zs : List ℕ) (clear : All (Clear a) (ys ++ zs))
    (off : AllOff (blk a s listed ∷ rest)) where
  held_around : (x : ℕ) → In x (ys ++ zs) → In x (ys ++ a ∷ zs)
  held_around x i = elim (In-append_cases ys zs x i) [
    | inl j ↦ In-append_left ys (a ∷ zs) x j
    | inr j ↦ In-append_right ys (a ∷ zs) x (inr j)
  ]

  held_by_rest :
      (x : ℕ)
      → (t : ℕ) × In (blk x t listed) (blk a s listed ∷ rest)
      → In x (ys ++ zs)
      → (t : ℕ) × In (blk x t listed) rest
  held_by_rest x (t, inl e) i =
      absurd (Apart-ne a (ys ++ zs) clear (subst (λ y. In y (ys ++ zs)) (ap (λ b. b.addr) e) i))
  held_by_rest x (t, inr j) i = (t, j)

  still_held : (x t : ℕ) → In (blk x t listed) rest → In x (ys ++ a ∷ zs) → In x (ys ++ zs)
  still_held x t j i = elim (In-append_cases ys (a ∷ zs) x i) [
    | inl k ↦ In-append_left ys zs x k
    | inr (inl e) ↦ absurd (other_listed rest a s x t off j e)
    | inr (inr k) ↦ In-append_right ys zs x k
  ]

pub detached-listed : detached ≢ listed
detached-listed e = cc

listed_tail :
    (a s x t : ℕ) (k : Kind) (rest : List Blk)
    → k ≢ listed
    → In (blk x t listed) (blk a s k ∷ rest)
    → In (blk x t listed) rest
listed_tail a s x t k rest ne (inl e) = absurd (ne (ap (λ b. b.kind) (sym e)))
listed_tail a s x t k rest ne (inr i) = i

-- remove of a listed block leaves it detached and everything else as it was.
pub remove-detached :
    (w : World) (list : FreeList) (a s : ℕ) (rest : List Blk) (xs : List ℕ)
    → IsStore w.mem list (blk a s listed ∷ rest) xs
    → Ends (Listed w a s detached rest) (remove list a w)
remove-detached w list a s rest xs st =
    let (ys, zs, e) = In-split xs a (st.all_free a s (inl refl)) in
    let l = subst (IsFreeList w.mem list) e st.free_list in
    let clear = (AllSpaced-drop 32 ys a zs l.apart).0 in
    Ends-weaken (remove-erase w list ys a zs l) λ list' w' r.
      let good =
        IsGood-links w.mem w'.mem (blk a s listed ∷ rest) (ys ++ a ∷ zs) r.outside
          (λ x i. st.only_free x (rw e i)) st.off st.good in
      record {
        xs = ys ++ zs;
        store = record {
          good = (IsGood-relabel w'.mem a s listed detached refl good.0, good.1);
          off = st.off;
          free_list = r.list;
          only_free = λ x i.
              let (t, at) =
                held_by_rest a s rest ys zs clear st.off x
                  (st.only_free x (rw e (held_around a s rest ys zs clear st.off x i))) i in
              (t, inr at);
          all_free = λ x t i.
              let j = listed_tail a s x t detached rest detached-listed i in
              still_held a s rest ys zs clear st.off x t j (rw e at st.all_free x t (inr j));
        };
        spares = record {
          byte = λ x h.
              let h' : All (Foreign x) (blk a s listed ∷ rest) =
                (Foreign-rekind x a s detached listed detached-in_use h.0, h.1) in
              let out = Foreign-links (blk a s listed ∷ rest) xs x st.only_free h' in
              (r.outside x (rw e at out), h);
        };
        process = r.process;
      }

apart_from_listed :
    (m : Memory) (list : FreeList) (b : Blk) (rest : List Blk) (xs : List ℕ)
    → AllOff (b ∷ rest)
    → All (IsGood m) rest
    → 16 ≤ b.size
    → ((x : ℕ) → In x xs → (t : ℕ) × In (blk x t listed) rest)
    → All (Clear b.addr) xs
apart_from_listed m list b rest xs off good room only = All-of_In (Clear b.addr) xs λ x i.
    let (t, at) = only x i in
    let fits = (In-All (IsGood m) rest (blk x t listed) at good).room in
    let apart = In-All (Off b) rest (blk x t listed) at off.0 in ground arith

listed_or_head :
    (a s : ℕ) (rest : List Blk) (xs : List ℕ)
    → ((x : ℕ) → In x xs → (t : ℕ) × In (blk x t listed) rest)
    → (x : ℕ) → In x (a ∷ xs)
    → (t : ℕ) × In (blk x t listed) (blk a s listed ∷ rest)
listed_or_head a s rest xs only x (inl e) = (s, inl (rw e refl))
listed_or_head a s rest xs only x (inr i) = let (t, at) = only x i in (t, inr at)

free_or_head :
    (a s : ℕ) (rest : List Blk) (xs : List ℕ)
    → ((x t : ℕ) → In (blk x t listed) rest → In x xs)
    → (x t : ℕ) → In (blk x t listed) (blk a s listed ∷ rest)
    → In x (a ∷ xs)
free_or_head a s rest xs all x t (inl e) = inl (ap (λ b. b.addr) e)
free_or_head a s rest xs all x t (inr i) = inr (all x t i)

-- insert of a detached block lists it and leaves everything else as it was.
pub insert-listed :
    (w : World) (list : FreeList) (a s : ℕ) (rest : List Blk) (xs : List ℕ)
    → IsStore w.mem list (blk a s detached ∷ rest) xs
    → Ends (Listed w a s listed rest) (insert list a w)
insert-listed w list a s rest xs st =
    let good : IsGood w.mem (blk a s detached) = st.good.0 in
    let only : (x : ℕ) → In x xs → (t : ℕ) × In (blk x t listed) rest = λ x i.
      let (t, at) = st.only_free x i in (t, listed_tail a s x t detached rest detached-listed at) in
    let fresh : IsFresh w.mem a xs = record {
      pos = good.pos;
      fits = omega (arith, good.low);
      free = IsBlock-is_free good.tags;
      clear =
          apart_from_listed w.mem list (blk a s detached) rest xs st.off st.good.1 good.room only;
    } in
    Ends-weaken (insert-cons w list a xs fresh st.free_list) λ list' w' (l, outside, kept).
      let relabelled : All (IsGood w.mem) (blk a s listed ∷ rest) =
        (IsGood-relabel w.mem a s detached listed refl good, st.good.1) in
      let listed_at : (x : ℕ)
          → In x (a ∷ xs)
          → (t : ℕ) × In (blk x t listed) (blk a s listed ∷ rest) =
        listed_or_head a s rest xs only in
      record {
        xs = a ∷ xs;
        store = record {
          good =
              IsGood-links w.mem w'.mem (blk a s listed ∷ rest) (a ∷ xs) outside listed_at st.off
                relabelled;
          off = st.off;
          free_list = l;
          only_free = listed_at;
          all_free = free_or_head a s rest xs (λ x t i. st.all_free x t (inr i));
        };
        spares = record {
          byte =
              λ x h. (outside x (Foreign-links (blk a s listed ∷ rest) (a ∷ xs) x listed_at h), h);
        };
        process = kept;
      }
