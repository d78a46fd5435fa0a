-- ===== src/General/Heap/Malloc.antt =====
-- The part of my_malloc behind the general path's lock, as its caller sees it.
use custom_memory_allocator.Base.{
  In-front, In-back, ℕ, ◌+◌, ◌-◌, ◌≤◌, ◌<◌, ◌^◌, ◌%◌, ◌≡◌, ◌⊎◌, refl, sym, ap, ◌∙◌, subst, false,
  null, List, [], ◌∷◌, ◌++◌, All, In, In-All, In-split, In-append_cases, In-append_left,
  In-append_right, inl, inr, arith, ltb, leb, ◌==◌, Bool-cases, ==_of_ne,
}
use custom_memory_allocator.Memory.{Memory}
use custom_memory_allocator.Run.{OsRegion, World}
use custom_memory_allocator.Run.Ends.{Ends, Ends-weaken}
use custom_memory_allocator.Os.{Platform}
use custom_memory_allocator.Os.Laws.{IsKernel, MappedByte}
use custom_memory_allocator.Block.{get_size}
use custom_memory_allocator.Block.Tags.{IsBlock-get_size}
use custom_memory_allocator.FreeList.Search.{first_fit, find_first_fit-first_fit}
use custom_memory_allocator.General.{Arena, General, align_up}
use custom_memory_allocator.General.Align.{align_up_least}
use custom_memory_allocator.General.Blocks.{malloc_general, reuse}
use custom_memory_allocator.General.Store.{Foreign, in_use, listed, Blk, blk, IsGood, Off, AllOff}
use custom_memory_allocator.General.Store.Frame.{AllOff-pair, AllOff-cross}
use custom_memory_allocator.General.Store.Reuse.{in_use-listed}
use custom_memory_allocator.General.Heap.{Part, part, bag, arenas_of, OffArena, IsHeap}
use custom_memory_allocator.General.Heap.Place.{exchange_arena}
use custom_memory_allocator.General.Heap.Middle.{around, take_out-In, put_back-In}
use custom_memory_allocator.General.Heap.Reuse.{handed_out, reuse-IsHeap}
use custom_memory_allocator.General.Heap.Bump.{Refused, Bumped, bump-Bumped}
use custom_memory_allocator.General.Heap.Fuel.{carved_enough}

-- A request that succeeds: one more block is in use, with room for `n` bytes; the others in use are
-- the same ones, and no byte has changed that is foreign to the blocks before and after.
pub record Served (w : World) (g : General) (parts : List Part) (n : ℕ) (out : ℕ × General)
    (w' : World) : Type 0 where
  pub parts' : List Part
  pub addr : ℕ
  pub size : ℕ
  pub pointer : out.0 ≡ addr + 16
  pub room : n ≤ size
  pub snug : size ≤ n + 47
  pub heap : IsHeap w' out.1 parts'
  pub owned : In (blk addr size in_use) (bag parts')
  pub keeps : (c : Blk) → In c (bag parts) → c.kind ≡ in_use → In c (bag parts')
  pub only :
      (c : Blk)
      → In c (bag parts')
      → c.kind ≡ in_use
      → (c ≡ blk addr size in_use) ⊎ In c (bag parts)
  pub apart : (c : Blk) → In c (bag parts) → c.kind ≡ in_use → Off c (blk addr size in_use)
  pub same :
      (x : ℕ)
      → All (Foreign x) (bag parts)
      → All (Foreign x) (bag parts')
      → MappedByte w x
      → w'.mem x ≡ w.mem x
  pub lands :
      (x : ℕ)
      → MappedByte w x
      → All (OffArena x) (arenas_of parts)
      → All (OffArena x) (arenas_of parts')
  pub arena_size : out.1.arena_size ≡ g.arena_size
  pub mapped : (r : OsRegion) → In r w.process.mapped → In r w'.process.mapped
  pub held : w'.process.held ≡ w.process.held

Bumped-Served :
    (w : World) (g : General) (parts : List Part) (n : ℕ) (out : ℕ × General) (w' : World)
    → Bumped w g parts n out w'
    → Served w g parts n out w'
Bumped-Served w g parts n out w' b =
    let new = blk b.addr n in_use in
    let there : In new (bag b.parts') =
      rw b.blocks (In-append_right (bag parts) (new ∷ []) new (inl refl)) in
    record {
      parts' = b.parts';
      addr = b.addr;
      size = n;
      pointer = b.pointer;
      room = omega arith;
      snug = omega arith;
      heap = b.heap;
      owned = there;
      keeps = λ c i e. rw b.blocks (In-append_left (bag parts) (new ∷ []) c i);
      only = λ c i e. elim (In-append_cases (bag parts) (new ∷ []) c (rw b.blocks at i)) [
        | inl j ↦ inr j
        | inr (inl j) ↦ inl j
        | inr (inr j) ↦ absurd j
      ];
      apart = λ c i e.
          let off : AllOff (bag parts ++ new ∷ []) = rw b.blocks at b.heap.store.off in
          AllOff-cross (bag parts) (new ∷ []) c new off i (inl refl);
      same = λ x f f' m. b.same x (In-All (Foreign x) (bag b.parts') new there f') m;
      lands = b.lands;
      arena_size = b.arena_size;
      mapped = b.mapped;
      held = b.held;
    }

-- The first fit is none or a block of the list with room.
first_fit-In :
    (m : Memory) (need : ℕ) (xs : List ℕ) (r : ℕ)
    → first_fit m need xs ≡ r
    → (r ≡ null) ⊎ (In r xs × (need ≤ get_size m r))
first_fit-In m need [] r e = inl (sym e)
first_fit-In m need (x ∷ xs) r e = elim (Bool-cases (leb need (get_size m x))) [
  | inl f ↦
      let found : x ≡ r = rw f at e in
      let fits : need ≤ get_size m x = ground arith in
      inr (inl (sym found), subst (λ y. need ≤ get_size m y) found fits)
  | inr f ↦
      let further : first_fit m need xs ≡ r = rw f at e in
      elim (first_fit-In m need xs r further) [
        | inl none ↦ inl none
        | inr (i, fits) ↦ inr (inr i, fits)
      ]
]

-- The place of a block among the arenas.
pub bag-split :
    (parts : List Part) (b : Blk)
    → In b (bag parts)
    → (before : List Part) × (arena : Arena) × (ps : List Blk) × (qs : List Blk) × (behind : List
        Part)
      × (parts ≡ before ++ part arena (ps ++ b ∷ qs) ∷ behind)
bag-split [] b i = absurd i
bag-split (p ∷ parts) b i = elim (In-append_cases p.blocks (bag parts) b i) [
  | inl j ↦
      let (ps, qs, e) = In-split p.blocks b j in
      ([], p.arena, ps, qs, parts, ap (λ l. part p.arena l ∷ parts) e)
  | inr j ↦
      let (before, arena, ps, qs, behind, e) = bag-split parts b j in
      (p ∷ before, arena, ps, qs, behind, ap (λ l. p ∷ l) e)
]

module _ (before : List Part) (arena : Arena) (ps : List Blk) (a s n : ℕ) (qs : List Blk)
    (behind : List Part) where
  abbrev old_parts : List Part
  old_parts = before ++ part arena (ps ++ blk a s listed ∷ qs) ∷ behind

  -- What is in use around the block is not the block.
  in_use_around :
      (c : Blk)
      → In c (bag (before ++ part arena (ps ++ blk a s listed ∷ qs) ∷ behind))
      → c.kind ≡ in_use
      → In c (around before ps qs behind)
  in_use_around c i e = elim (take_out-In before arena ps (blk a s listed) qs behind c i) [
    | inl same ↦ absurd (in_use-listed (sym e ∙ ap (λ b. b.kind) same))
    | inr j ↦ j
  ]

  -- The blocks in use after the block has been handed out.
  pub handed_out-In :
      (size : ℕ) × (n ≤ s → n ≤ size)
      × (n ≤ s → size ≤ s)
      × (n ≤ s → size ≤ n + 47)
      × ((c : Blk)
          → In c (blk a size in_use ∷ around before ps qs behind)
          → In c (bag (before ++ part arena (ps ++ handed_out a s n qs) ∷ behind)))
      × ((c : Blk)
          → In c (bag (before ++ part arena (ps ++ handed_out a s n qs) ∷ behind))
          → c.kind ≡ in_use
          → In c (blk a size in_use ∷ around before ps qs behind))
  unfolding handed_out
  handed_out-In = elim (Bool-cases (ltb (s - n) 48)) [
    | inl e ↦ rw e (
      s,
      λ fits. fits,
      λ fits. omega arith,
      λ fits. ground (arith, e),
      put_back-In before arena ps (blk a s in_use) qs behind,
      λ c i k. take_out-In before arena ps (blk a s in_use) qs behind c i,
    )
    | inr e ↦
        let left = blk (a + 32 + n) (s - n - 32) listed in
        rw e (
          n,
          λ fits. omega arith,
          λ fits. fits,
          λ fits. omega arith,
          λ c i.
              put_back-In before arena ps (blk a n in_use) (left ∷ qs) behind c
                (with_left left c i),
          λ c i k.
              without_left left refl c k
                (take_out-In before arena ps (blk a n in_use) (left ∷ qs) behind c i),
        )
  ]
    where
      with_left :
          (left c : Blk)
          → In c (blk a n in_use ∷ around before ps qs behind)
          → In c (blk a n in_use ∷ around before ps (left ∷ qs) behind)
      with_left left c (inl e) = inl e
      with_left left c (inr i) = inr (In-back (bag before ++ ps) left (qs ++ bag behind) c (inr i))

      without_left :
          (left : Blk)
          → left.kind ≡ listed
          → (c : Blk) → c.kind ≡ in_use
          → In c (blk a n in_use ∷ around before ps (left ∷ qs) behind)
          → In c (blk a n in_use ∷ around before ps qs behind)
      without_left left l c k (inl e) = inl e
      without_left left l c k (inr i) =
          elim (In-front (bag before ++ ps) left (qs ++ bag behind) c i) [
            | inl e ↦ absurd (in_use-listed (sym k ∙ ap (λ b. b.kind) e ∙ l))
            | inr j ↦ inr j
          ]

  pub reuse-Served :
      (w : World) (g : General)
      → IsHeap w g (before ++ part arena (ps ++ blk a s listed ∷ qs) ∷ behind)
      → n % 16 ≡ 0
      → 16 ≤ n
      → n ≤ s
      → Ends
          (Served w g (before ++ part arena (ps ++ blk a s listed ∷ qs) ∷ behind) n)
          (reuse g a n w)
  reuse-Served w g heap aligned room fits =
      let (size, enough, within, near, into, out_of) = handed_out-In in
      Ends-weaken (reuse-IsHeap before arena ps a s n qs behind w g heap aligned room fits)
        λ out w' (at, whole, kept). record {
          parts' = before ++ part arena (ps ++ handed_out a s n qs) ∷ behind;
          addr = a;
          size = size;
          pointer = at;
          room = enough fits;
          snug = near fits;
          heap = whole;
          owned = into (blk a size in_use) (inl refl);
          keeps = λ c i e. into c (inr (in_use_around c i e));
          only = λ c i e. elim (out_of c i e) [
            | inl same ↦ inl same
            | inr j ↦ inr (put_back-In before arena ps (blk a s listed) qs behind c (inr j))
          ];
          apart = λ c i e.
              let old =
                put_back-In before arena ps (blk a s listed) qs behind (blk a s listed)
                  (inl refl) in
              elim (AllOff-pair (bag old_parts) c (blk a s listed) heap.store.off i old) [
                | inl same ↦ absurd (in_use-listed (sym e ∙ ap (λ b. b.kind) same))
                | inr off ↦ let le = within fits in ground arith
              ];
          same = λ x f f' m. (kept.spares.byte x f).0;
          lands = λ x m off.
              exchange_arena before (part arena (ps ++ blk a s listed ∷ qs))
                (part arena (ps ++ handed_out a s n qs)) behind (OffArena x) (λ h. h) off;
          arena_size = kept.arena_size;
          mapped = λ r i. rw kept.process i;
          held = ap (λ q. q.held) kept.process;
        }

pub malloc_general-Served :
    (p : Platform) (w : World) (g : General) (parts : List Part) (size : ℕ)
    → IsKernel p
    → IsHeap w g parts
    → 0 < size
    → size ≤ 2 ^ 62
    → g.arena_size ≤ 2 ^ 63
    → Ends
        (λ out w'. Refused p w g (align_up size) out w' ⊎ Served w g parts (align_up size) out w')
        (malloc_general p g size w)
unfolding malloc_general
malloc_general-Served p w g parts size k heap pos small modest =
    let n = align_up size in
    let (aligned, le, lt, _) = align_up_least size (omega arith) in
    let found =
      find_first_fit-first_fit w _ n g.free_list heap.xs heap.store.free_list
        (carved_enough w g parts heap) in
    elim (first_fit-In w.mem n heap.xs (first_fit w.mem n heap.xs) refl) [
      | inl none ↦
          rw (found, none)
            (Ends-weaken
              (bump-Bumped p w g parts n k heap aligned (omega arith) (omega arith) modest)
              λ out w' b. elim b [
                | inl r ↦ inl r
                | inr c ↦ inr (Bumped-Served w g parts n out w' c)
              ])
      | inr (i, fits) ↦
          let a = first_fit w.mem n heap.xs in
          let (s, at) = heap.store.only_free a i in
          let good = In-All (IsGood w.mem) (bag parts) (blk a s listed) at heap.store.good in
          let room : n ≤ s = rw (IsBlock-get_size good.tags) at fits in
          let nonnull : (a == 0) ≡ false = ==_of_ne a 0 (omega (arith, good.pos)) in
          let (before, arena, ps, qs, behind, e) = bag-split parts (blk a s listed) at in
          let heap' = subst (λ l. IsHeap w g l) e heap in
          rw (found, nonnull)
            (Ends-weaken
              (reuse-Served before arena ps a s n qs behind w g heap' aligned (omega arith) room)
              λ out w' c. inr (subst (λ l. Served w g l n out w') (sym e) c))
    ]
