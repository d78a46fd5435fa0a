-- ===== src/General/Store/Split.antt =====
-- A block gives the bytes it does not need to a new free block.
use custom_memory_allocator.Base.{
  ℕ, ◌+◌, ◌≤◌, ◌%◌, ◌≡◌, ◌≢◌, inl, inr, true, false, List, [], ◌∷◌, All, All-map, refl, ◌∙◌, arith,
  sub64, ltb, leb, ◌-◌, if◌then◌else◌, lt_cases, Bool-cases, ◌⊎◌, ◌<◌, subst,
}
use custom_memory_allocator.Memory.{Memory}
use custom_memory_allocator.Run.{World, continue, pure}
use custom_memory_allocator.Run.Ends.{Ends, ends, Ends-continue}
use custom_memory_allocator.Block.Tags.{IsBlock, IsBlock-get_size, IsBlock-next}
use custom_memory_allocator.FreeList.{insert}
use custom_memory_allocator.General.{General}
use custom_memory_allocator.General.Blocks.{maybe_split, with_list}
use custom_memory_allocator.General.Store.{
  Kind, in_use, listed, detached, flag, Blk, blk, Foreign, IsGood, Off, IsStore, OffRange, SameBut,
}
use custom_memory_allocator.General.Store.Replace.{IsStore-replace}
use custom_memory_allocator.General.Store.Frame.{IsGood-range}
use custom_memory_allocator.General.Store.Step.{Leaves, Leaves-refl}
use custom_memory_allocator.General.Store.Listing.{insert-listed, detached-listed}
use custom_memory_allocator.General.Store.Tagged.{
  tagged, tagged-IsBlock, tagged-SameBut, tagged-Foreign, set_size-tagged, construct-tagged,
}

-- The bytes of a block of `n + 32 + r` bytes as two blocks, the second one free.
abbrev cut : Memory → ℕ → ℕ → ℕ → Kind → Memory
cut m a n r k = tagged (tagged m a n (flag k)) (a + 32 + n) r true

module _ (w : World) (g : General) (a n r : ℕ) (k : Kind) (rest : List Blk) (xs : List ℕ)
    (st : IsStore w.mem g.free_list (blk a (n + 32 + r) k ∷ rest) xs) (ne : k ≢ listed)
    (aligned : n % 16 ≡ 0) (n_room : 16 ≤ n) (r_room : 16 ≤ r) where
  r_aligned : r % 16 ≡ 0
  r_aligned = let e = st.good.0.tags.aligned in omega arith

  first_IsBlock : IsBlock (tagged w.mem a n (flag k)) a n (flag k)
  first_IsBlock = let low = st.good.0.low in tagged-IsBlock w.mem a n (flag k) aligned (omega arith)

  maybe_split-cut : maybe_split g a n w ≡ (
      continue
        (insert g.free_list (a + 32 + n) (record w { mem = cut w.mem a n r k }))
        λ list. pure (with_list g list))
  unfolding maybe_split
  maybe_split-cut =
      let low = st.good.0.low in
      let size = IsBlock-get_size st.good.0.tags in
      let enough : leb n (n + 32 + r) ≡ true = ground arith in
      let remainder : sub64 (n + 32 + r) n ≡ 32 + r = omega arith in
      let split : ltb (32 + r) 48 ≡ false = ground arith in
      let left : sub64 (sub64 (32 + r) 16) 16 ≡ r = omega arith in
      rw
        (
          size,
          enough,
          remainder,
          split,
          left,
          set_size-tagged w.mem a n (flag k) aligned (omega arith) (n + 32 + r) st.good.0.tags,
          IsBlock-next first_IsBlock,
          construct-tagged (tagged w.mem a n (flag k)) (a + 32 + n) r true r_aligned (omega arith),
        )
        refl

  cut_first : IsGood (cut w.mem a n r k) (blk a n k)
  cut_first =
      let whole = st.good.0 in
      let low = whole.low in
      let off : OffRange (a + 32 + n) (a + 32 + n + 32 + r) (blk a n k) = inr (omega arith) in
      IsGood-range (tagged w.mem a n (flag k)) (cut w.mem a n r k) (a + 32 + n)
        (a + 32 + n + 32 + r) (blk a n k)
        (tagged-SameBut (tagged w.mem a n (flag k)) (a + 32 + n) r true r_aligned (omega arith)) off
        (record {
          tags = first_IsBlock;
          room = n_room;
          pos = whole.pos;
          low = omega arith;
          aligned = whole.aligned;
        })

  cut_second : IsGood (cut w.mem a n r k) (blk (a + 32 + n) r detached)
  cut_second =
      let whole = st.good.0 in
      let low = whole.low in
      let place = whole.aligned in
      record {
        tags =
            tagged-IsBlock (tagged w.mem a n (flag k)) (a + 32 + n) r true r_aligned (omega arith);
        room = r_room;
        pos = omega arith;
        low = omega arith;
        aligned = omega arith;
      }

  cut-SameBut : SameBut a (a + 32 + (n + 32 + r)) w.mem (cut w.mem a n r k)
  cut-SameBut b out =
      let low = st.good.0.low in
      tagged-SameBut (tagged w.mem a n (flag k)) (a + 32 + n) r true r_aligned (omega arith) b
        (ground arith)
      ∙ tagged-SameBut w.mem a n (flag k) aligned (omega arith) b (ground arith)

  cut-IsStore :
      IsStore (cut w.mem a n r k) g.free_list (blk (a + 32 + n) r detached ∷ blk a n k ∷ rest) xs
  cut-IsStore =
      IsStore-replace w.mem (cut w.mem a n r k) g.free_list (blk a (n + 32 + r) k ∷ [])
        (blk (a + 32 + n) r detached ∷ blk a n k ∷ []) rest xs a (a + 32 + (n + 32 + r)) st (ne, tt)
        (All-map (Off (blk a (n + 32 + r) k)) (OffRange a (a + 32 + (n + 32 + r))) rest
          (λ c o. ground arith) st.off.0)
        cut-SameBut (cut_second, (cut_first, tt)) (detached-listed, (ne, tt))
        ((inr (omega arith), tt), (tt, tt))
        ((omega arith, omega arith), ((omega arith, omega arith), tt))

  split-Leaves :
      Ends
        (Leaves g w
          (blk (a + 32 + n) r listed ∷ blk a n k ∷ rest)
          (blk (a + 32 + n) r listed ∷ blk a n k ∷ rest))
        (maybe_split g a n w)
  split-Leaves =
      let w1 : World = record w { mem = cut w.mem a n r k } in
      rw maybe_split-cut (
        Ends-continue
          (insert-listed w1 g.free_list (a + 32 + n) r (blk a n k ∷ rest) xs cut-IsStore)
          λ list w2 l. ends (record {
            xs = l.xs;
            store = l.store;
            spares = record {
              byte = λ x h.
                  let low = st.good.0.low in
                  let (e, _) = l.spares.byte x h in
                  (
                    e
                        ∙ tagged-Foreign (tagged w.mem a n (flag k)) (a + 32 + n) r true r_aligned
                            (omega arith) listed x h.0
                        ∙ tagged-Foreign w.mem a n (flag k) aligned (omega arith) k x h.1.0,
                    h,
                  );
            };
            arenas = refl;
            arena_size = refl;
            process = l.process;
          }))

-- The bag of blocks once a block of `s` bytes has been cut down to `n`: what is left becomes a free
-- block if it has room for the tags and the links of one.
unfoldable pub after_split : (a s n : ℕ) → Kind → List Blk → List Blk
after_split a s n k rest =
    if ltb (s - n) 48
    then blk a s k ∷ rest
    else blk (a + 32 + n) (s - n - 32) listed ∷ blk a n k ∷ rest

-- maybe_split cuts a block that is not listed down to a smaller aligned size and frees what is left
-- if that is 48 bytes at least; else it changes nothing. The bag of blocks stays well-formed.
pub maybe_split-Leaves :
    (w : World) (g : General) (a s n : ℕ) (k : Kind) (rest : List Blk) (xs : List ℕ)
    → IsStore w.mem g.free_list (blk a s k ∷ rest) xs
    → k ≢ listed
    → n % 16 ≡ 0
    → 16 ≤ n
    → n ≤ s
    → Ends (Leaves g w (after_split a s n k rest) (after_split a s n k rest)) (maybe_split g a n w)
unfolding maybe_split after_split
maybe_split-Leaves w g a s n k rest xs st ne aligned room fits =
    let low = st.good.0.low in
    elim (lt_cases (s - n) 48) [
      | inl few ↦
          let size = IsBlock-get_size st.good.0.tags in
          let enough : leb n s ≡ true = ground arith in
          let remainder : sub64 s n ≡ s - n = omega arith in
          let short : ltb (s - n) 48 ≡ true = ground arith in
          rw (size, enough, remainder, short) (ends (Leaves-refl st))
      | inr many ↦
          let long : ltb (s - n) 48 ≡ false = ground arith in
          let e : s ≡ n + 32 + (s - n - 32) = omega arith in
          rw long (
            split-Leaves w g a n (s - n - 32) k rest xs
              (subst (λ t. IsStore w.mem g.free_list (blk a t k ∷ rest) xs) e st) ne aligned room
              (omega arith))
    ]

-- A byte outside the block is foreign to what has become of it.
pub after_split-Foreign :
    (x a s n : ℕ) (k : Kind) (rest : List Blk)
    → (x < a) ⊎ (a + 32 + s ≤ x)
    → n ≤ s
    → All (Foreign x) rest
    → All (Foreign x) (after_split a s n k rest)
unfolding after_split
after_split-Foreign x a s n k rest (inl h) fits hs = elim (Bool-cases (ltb (s - n) 48)) [
  | inl e ↦ rw e (inl h, hs)
  | inr e ↦ rw e (inl (omega arith), (inl h, hs))
]
after_split-Foreign x a s n k rest (inr h) fits hs = elim (lt_cases (s - n) 48) [
  | inl few ↦ let e : ltb (s - n) 48 ≡ true = ground arith in rw e (inr (inl h), hs)
  | inr many ↦
      let e : ltb (s - n) 48 ≡ false = ground arith in
      rw e (inr (inl (omega arith)), (inr (inl (omega arith)), hs))
]

-- A byte of the payload that stays is foreign to what has become of a block in use.
pub after_split-payload :
    (x a s n : ℕ) (rest : List Blk)
    → a + 16 ≤ x
    → x < a + 16 + n
    → n ≤ s
    → All (Foreign x) rest
    → All (Foreign x) (after_split a s n in_use rest)
unfolding after_split
after_split-payload x a s n rest lo hi fits hs = elim (Bool-cases (ltb (s - n) 48)) [
  | inl e ↦ rw e (inr (inr (refl, lo, omega arith)), hs)
  | inr e ↦ rw e (inl (omega arith), (inr (inr (refl, lo, hi)), hs))
]
