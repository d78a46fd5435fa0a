-- ===== src/General/Store/Merge.antt =====
-- Two neighbouring blocks become one.
use custom_memory_allocator.Base.{
  ℕ, ◌+◌, ◌%◌, ◌≡◌, ◌≢◌, ◌⊎◌, ◌<◌, ◌≤◌, inl, inr, List, [], ◌∷◌, All, All-of_In, In-All, refl, ◌∙◌,
  arith, add64,
}
use custom_memory_allocator.Run.{World, done}
use custom_memory_allocator.Run.Ends.{Ends, ends, Ends-continue}
use custom_memory_allocator.Block.Tags.{IsBlock-get_size}
use custom_memory_allocator.FreeList.{FreeList}
use custom_memory_allocator.General.{General}
use custom_memory_allocator.General.Blocks.{combined_payload_size, merge, absorb_right_neighbor}
use custom_memory_allocator.General.Store.{
  Kind, listed, detached, flag, Blk, blk, Foreign, Foreign-rekind, Spares, detached-in_use,
  listed-in_use, IsGood, Off, IsStore, OffRange,
}
use custom_memory_allocator.General.Store.Replace.{IsStore-replace}
use custom_memory_allocator.General.Store.Step.{Leaves}
use custom_memory_allocator.General.Store.Order.{IsStore-front}
use custom_memory_allocator.General.Store.Listing.{remove-detached, detached-listed}
use custom_memory_allocator.General.Store.Tagged.{
  tagged, tagged-IsBlock, tagged-same, tagged-SameBut, set_size-tagged,
}

-- What lies off two neighbours lies off the bytes of both.
OffRange-pair :
    (a s t : ℕ) (k : Kind) (rest : List Blk)
    → All (Off (blk a s k)) rest
    → All (Off (blk (a + 32 + s) t detached)) rest
    → All (OffRange a (a + 32 + (s + 32 + t))) rest
OffRange-pair a s t k rest off off' = All-of_In (OffRange a (a + 32 + (s + 32 + t))) rest λ c i.
    let h = In-All (Off (blk a s k)) rest c i off in
    let h' = In-All (Off (blk (a + 32 + s) t detached)) rest c i off' in ground arith

-- A byte foreign to two neighbours is foreign to the block that they make, and none of its tags.
Foreign-pair :
    (x a s t : ℕ) (k : Kind)
    → Foreign x (blk a s k)
    → Foreign x (blk (a + 32 + s) t detached)
    → Foreign x (blk a (s + 32 + t) k)
      × ((x < a) ⊎ (a + 8 ≤ x))
      × ((x < a + 16 + (s + 32 + t)) ⊎ (a + 24 + (s + 32 + t) ≤ x))
Foreign-pair x a s t k (inl h) g = (inl h, inl h, inl (omega arith))
Foreign-pair x a s t k (inr (inr (e, lo, hi))) g =
    (inr (inr (e, lo, omega arith)), inr (omega arith), inl (omega arith))
Foreign-pair x a s t k (inr (inl h)) (inl g) = absurd (omega arith)
Foreign-pair x a s t k (inr (inl h)) (inr (inl g)) =
    (inr (inl (omega arith)), inr (omega arith), inr (omega arith))
Foreign-pair x a s t k (inr (inl h)) (inr (inr (e, lo, hi))) = absurd (detached-in_use e)

-- A block and the one right behind it, neither of them on the list.
module _ (w : World) (list : FreeList) (a s t : ℕ) (k : Kind) (rest : List Blk) (xs : List ℕ)
    (st : IsStore w.mem list (blk a s k ∷ blk (a + 32 + s) t detached ∷ rest) xs)
    (ne : k ≢ listed) where
  merge-tagged :
      merge a (a + 32 + s) w ≡ done tt (record w { mem = tagged w.mem a (s + 32 + t) (flag k) })
  unfolding merge combined_payload_size
  merge-tagged =
      let one = st.good.0 in
      let two = st.good.1.0 in
      let aligned = one.tags.aligned in
      let aligned' = two.tags.aligned in
      let low = two.low in
      let sum : add64 (add64 (add64 s 16) 16) t ≡ s + 32 + t = omega arith in
      rw
        (
          IsBlock-get_size one.tags,
          IsBlock-get_size two.tags,
          sum,
          set_size-tagged w.mem a (s + 32 + t) (flag k) (omega arith) (omega arith) s one.tags,
        )
        refl

  -- merge gives the first of two neighbouring blocks the bytes of both, and the bag of blocks stays well-formed.
  pub merge-IsStore :
      Ends
        (λ u w'.
          IsStore w'.mem list (blk a (s + 32 + t) k ∷ rest) xs
          × Spares
              (blk a s k ∷ blk (a + 32 + s) t detached ∷ rest)
              (blk a (s + 32 + t) k ∷ rest)
              w.mem
              w'.mem
          × (w'.process ≡ w.process))
        (merge a (a + 32 + s) w)
  merge-IsStore =
      let one = st.good.0 in
      let two = st.good.1.0 in
      let aligned = one.tags.aligned in
      let aligned' = two.tags.aligned in
      let low = two.low in
      let whole : (s + 32 + t) % 16 ≡ 0 = omega arith in
      let good : IsGood (tagged w.mem a (s + 32 + t) (flag k)) (blk a (s + 32 + t) k) = record {
        tags = tagged-IsBlock w.mem a (s + 32 + t) (flag k) whole (omega arith);
        room = omega (arith, one.room);
        pos = one.pos;
        low = omega arith;
        aligned = one.aligned;
      } in
      rw merge-tagged (
        ends (
          IsStore-replace w.mem (tagged w.mem a (s + 32 + t) (flag k)) list
              (blk a s k ∷ blk (a + 32 + s) t detached ∷ []) (blk a (s + 32 + t) k ∷ []) rest xs a
              (a + 32 + (s + 32 + t)) st (ne, (detached-listed, tt))
              (OffRange-pair a s t k rest st.off.0.1 st.off.1.0)
              (tagged-SameBut w.mem a (s + 32 + t) (flag k) whole (omega arith)) (good, tt) (ne, tt)
              (tt, tt) ((omega arith, omega arith), tt),
          record {
            byte = λ x h.
                let out = Foreign-pair x a s t k h.0 h.1.0 in
                (
                  tagged-same w.mem a (s + 32 + t) (flag k) whole (omega arith) x out.1 out.2,
                  (out.0, h.1.1),
                );
          },
          refl,
        ))

-- absorb_right_neighbor takes the free block right behind a block off the list and gives its bytes
-- to that block, and the bag of blocks stays well-formed.
pub absorb_right_neighbor-Leaves :
    (w : World) (g : General) (a s t : ℕ) (k : Kind) (rest : List Blk) (xs : List ℕ)
    → k ≢ listed
    → IsStore w.mem g.free_list (blk a s k ∷ blk (a + 32 + s) t listed ∷ rest) xs
    → Ends
        (Leaves g w (blk a s k ∷ blk (a + 32 + s) t listed ∷ rest) (blk a (s + 32 + t) k ∷ rest))
        (absorb_right_neighbor g a (a + 32 + s) w)
unfolding absorb_right_neighbor
absorb_right_neighbor-Leaves w g a s t k rest xs ne st =
    let right_first =
      IsStore-front w.mem g.free_list (blk a s k ∷ []) (blk (a + 32 + s) t listed) rest xs st in
    Ends-continue (remove-detached w g.free_list (a + 32 + s) t (blk a s k ∷ rest) xs right_first)
      λ list w1 l.
        let pair =
          IsStore-front w1.mem list (blk (a + 32 + s) t detached ∷ []) (blk a s k) rest l.xs
            l.store in
        Ends-continue (merge-IsStore w1 list a s t k rest l.xs pair ne)
          λ u w2 (store, spares, kept). ends (record {
            xs = l.xs;
            store = store;
            spares = record {
              byte = λ x h.
                  let (f, (f', hs)) = h in
                  let f'' = Foreign-rekind x (a + 32 + s) t listed detached listed-in_use f' in
                  let (e, (_, (_, _))) = l.spares.byte x (f'', (f, hs)) in
                  let (e', after) = spares.byte x (f, (f'', hs)) in (e' ∙ e, after);
            };
            arenas = refl;
            arena_size = refl;
            process = kept ∙ l.process;
          })
