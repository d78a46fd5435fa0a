-- ===== src/Sites/Freed.antt =====
-- free_general of src/allocator.cpp, behind its lock, as a change of the general path's site.
use custom_memory_allocator.Base.{
  ℕ, ◌+◌, ◌≤◌, ◌<◌, ◌≡◌, ◌⊎◌, inl, inr, refl, sym, ap, ◌∙◌, subst, true, false, List, [], ◌∷◌, ◌++◌,
  All, In, In-All, In-append_cases, In-append_left, In-append_right, Bool-cases, arith,
}
use custom_memory_allocator.Run.{World, Mutex, holds, with_lock}
use custom_memory_allocator.Run.Ends.{Ends}
use custom_memory_allocator.Run.Locks.{locked, unlocked, with_lock-Ends}
use custom_memory_allocator.Os.{Platform}
use custom_memory_allocator.General.{Arena, General}
use custom_memory_allocator.General.Blocks.{free_general}
use custom_memory_allocator.General.Store.{
  Foreign, in_use, listed, detached, flag, Kind, Blk, blk, Off, OffRange,
}
use custom_memory_allocator.General.Store.Reuse.{in_use-listed}
use custom_memory_allocator.General.Heap.{
  Part, part, bag, arenas_of, OffArena, IsHeap, Tiles, PartTiles,
}
use custom_memory_allocator.General.Heap.Place.{exchange_arena, Tiles-split, held_part}
use custom_memory_allocator.General.Heap.Middle.{
  around, take_out, take_out-All, put_back-All, take_out-In, put_back-In, Kept,
}
use custom_memory_allocator.General.Heap.CoalesceRight.{grown}
use custom_memory_allocator.General.Heap.CoalesceLeft.{widened}
use custom_memory_allocator.General.Heap.Free.{freed, free_general-IsHeap}
use custom_memory_allocator.Sites.{heap_site, Holds, IsBack}
use custom_memory_allocator.Sites.Keep.{OffArena-blocks}
use custom_memory_allocator.Sites.Steps.{Shrunk}
use custom_memory_allocator.Sites.Blocks.{IsHeap-set_held, OffArena-Foreign, payload-Foreign}

in_use_flag : (k : Kind) → k ≡ in_use → flag k ≡ true → ⊥
in_use_flag k e f = let same = ap flag e in cc

-- Coalescing takes away no block in use and adds none.
pub grown-keeps :
    (s : ℕ) (qs : List Blk) (c : Blk) → c.kind ≡ in_use → In c qs → In c (grown s qs).1
grown-keeps s [] c k i = i
grown-keeps s (d ∷ qs) c k i = elim (Bool-cases (flag d.kind)) [
  | inl e ↦ rw e (elim i [
    | inl same ↦ absurd (in_use_flag d.kind (ap (λ b. b.kind) (sym same) ∙ k) e)
    | inr j ↦ j
  ])
  | inr e ↦ rw e i
]

pub grown-only : (s : ℕ) (qs : List Blk) (c : Blk) → In c (grown s qs).1 → In c qs
grown-only s [] c i = i
grown-only s (d ∷ qs) c i = elim (Bool-cases (flag d.kind)) [
  | inl e ↦ inr (rw e at i)
  | inr e ↦ rw e at i
]

widened-keeps :
    (a s : ℕ) (ps : List Blk) (c : Blk) → c.kind ≡ in_use → In c ps → In c (widened a s ps).2
widened-keeps a s [] c k i = i
widened-keeps a s (d ∷ []) c k i = elim (Bool-cases (flag d.kind)) [
  | inl e ↦ rw e (elim i [
    | inl same ↦ absurd (in_use_flag d.kind (ap (λ b. b.kind) (sym same) ∙ k) e)
    | inr j ↦ j
  ])
  | inr e ↦ rw e i
]
widened-keeps a s (d ∷ e ∷ ps) c k (inl same) = inl same
widened-keeps a s (d ∷ e ∷ ps) c k (inr i) = inr (widened-keeps a s (e ∷ ps) c k i)

widened-only : (a s : ℕ) (ps : List Blk) (c : Blk) → In c (widened a s ps).2 → In c ps
widened-only a s [] c i = i
widened-only a s (d ∷ []) c i = elim (Bool-cases (flag d.kind)) [
  | inl e ↦ inr (rw e at i)
  | inr e ↦ rw e at i
]
widened-only a s (d ∷ e ∷ ps) c (inl same) = inl same
widened-only a s (d ∷ e ∷ ps) c (inr i) = inr (widened-only a s (e ∷ ps) c i)

-- The merged block spans the one that was freed.
grown-spans : (s : ℕ) (qs : List Blk) → s ≤ (grown s qs).0
grown-spans s [] = omega arith
grown-spans s (d ∷ qs) = elim (Bool-cases (flag d.kind)) [
  | inl e ↦ rw e (omega arith)
  | inr e ↦ rw e (omega arith)
]

widened-spans :
    (lo a s : ℕ) (ps : List Blk)
    → Tiles lo ps a
    → ((widened a s ps).0 ≤ a) × ((widened a s ps).0 + (widened a s ps).1 ≡ a + s)
widened-spans lo a s [] t = (omega arith, refl)
widened-spans lo a s (d ∷ []) t = elim (Bool-cases (flag d.kind)) [
  | inl e ↦ rw e (omega (arith, t.0, t.1), omega (arith, t.0, t.1))
  | inr e ↦ rw e (omega arith, refl)
]
widened-spans lo a s (d ∷ e ∷ ps) t = widened-spans (lo + 32 + d.size) a s (e ∷ ps) t.1

-- A block around the place, when the lists on its two sides give way to others.
pub around-In :
    (before : List Part) (ps ps' qs qs' : List Blk) (behind : List Part) (c : Blk)
    → (In c ps → In c ps')
    → (In c qs → In c qs')
    → In c (around before ps qs behind)
    → In c (around before ps' qs' behind)
around-In before ps ps' qs qs' behind c f h i =
    elim (In-append_cases (bag before ++ ps) (qs ++ bag behind) c i) [
      | inl j ↦
          In-append_left (bag before ++ ps') (qs' ++ bag behind) c
            (elim (In-append_cases (bag before) ps c j) [
              | inl k ↦ In-append_left (bag before) ps' c k
              | inr k ↦ In-append_right (bag before) ps' c (f k)
            ])
      | inr j ↦
          In-append_right (bag before ++ ps') (qs' ++ bag behind) c
            (elim (In-append_cases qs (bag behind) c j) [
              | inl k ↦ In-append_left qs' (bag behind) c (h k)
              | inr k ↦ In-append_right qs' (bag behind) c k
            ])
    ]

module _ (p : Platform) (w : World) (g : General) (before : List Part) (arena : Arena)
    (ps : List Blk) (a s : ℕ) (qs : List Blk) (behind : List Part)
    (heap : IsHeap w g (before ++ part arena (ps ++ blk a s in_use ∷ qs) ∷ behind)) where
  abbrev old_parts : List Part
  old_parts = before ++ part arena (ps ++ blk a s in_use ∷ qs) ∷ behind

  abbrev new_parts : List Part
  new_parts = before ++ part arena (freed ps a s qs) ∷ behind

  -- The block has no byte in common with those around it.
  block_clear : All (Off (blk a s in_use)) (around before ps qs behind)
  block_clear =
      (take_out before arena ps (blk a s in_use) qs behind w.mem g.free_list heap.xs
        heap.store).off.0

  to_new : (c : Blk) → c.kind ≡ in_use → In c (around before ps qs behind) → In c (bag new_parts)
  unfolding freed
  to_new c k i =
      let (s1, qs1) = grown s qs in
      let (a2, s2, ps2) = widened a s1 ps in
      put_back-In before arena ps2 (blk a2 s2 listed) qs1 behind c (
        inr (
          around-In before ps ps2 qs qs1 behind c (widened-keeps a s1 ps c k) (grown-keeps s qs c k)
            i))

  from_new : (c : Blk) → c.kind ≡ in_use → In c (bag new_parts) → In c (around before ps qs behind)
  unfolding freed
  from_new c k i =
      let (s1, qs1) = grown s qs in
      let (a2, s2, ps2) = widened a s1 ps in
      elim (take_out-In before arena ps2 (blk a2 s2 listed) qs1 behind c i) [
        | inl same ↦ absurd (in_use-listed (sym k ∙ ap (λ b. b.kind) same))
        | inr j ↦
            around-In before ps2 ps qs1 qs behind c (widened-only a s1 ps c) (grown-only s qs c) j
      ]

  old_block : (c : Blk) → In c (around before ps qs behind) → In c (bag old_parts)
  old_block c i = put_back-In before arena ps (blk a s in_use) qs behind c (inr i)

  -- A byte that is foreign to the blocks around and outside the block keeps its value.
  outside_Foreign :
      (x : ℕ)
      → (x < a) ⊎ (a + 32 + s ≤ x)
      → All (Foreign x) (bag old_parts)
      → All (Foreign x) (bag (before ++ part arena (ps ++ blk a s detached ∷ qs) ∷ behind))
  outside_Foreign x out h =
      let (_, rest) = take_out-All before arena ps (blk a s in_use) qs behind (Foreign x) h in
      put_back-All before arena ps (blk a s detached) qs behind (Foreign x) (apart out, rest)
    where
      apart : (x < a) ⊎ (a + 32 + s ≤ x) → Foreign x (blk a s detached)
      apart (inl lt) = inl lt
      apart (inr le) = inr (inl le)

  module _ (g' : General) (w' : World) (heap' : IsHeap w' g' new_parts)
      (kept : Kept
        (bag (before ++ part arena (ps ++ blk a s detached ∷ qs) ∷ behind))
        (bag new_parts)
        g
        (locked Mutex.general w)
        g'
        w') where
    freed-only : (q m : ℕ) → Holds (heap_site g' new_parts) q m → Holds (heap_site g old_parts) q m
    freed-only q m (b, at, start) =
        (b, old_block (blk b m in_use) (from_new (blk b m in_use) refl at), start)

    freed-same :
        (q m x : ℕ) → Holds (heap_site g' new_parts) q m → q ≤ x → x < q + m → w'.mem x ≡ w.mem x
    freed-same q m x (b, at, start) lo hi =
        let i = from_new (blk b m in_use) refl at in
        let off =
          In-All (Off (blk a s in_use)) (around before ps qs behind) (blk b m in_use) i
            block_clear in
        let all =
          payload-Foreign w g old_parts b m x heap (old_block (blk b m in_use) i)
            (omega (arith, start, lo)) (omega (arith, start, hi)) in
        (kept.spares.byte x (outside_Foreign x (ground (arith, start, lo, hi, off)) all)).0

    freed-bytes :
        (x : ℕ)
        → All (OffArena x) (arenas_of old_parts)
        → (w'.mem x ≡ w.mem x) × All (OffArena x) (arenas_of new_parts)
    freed-bytes x off =
        let out = OffArena-blocks w g old_parts x heap off in
        let this =
          (take_out-All before arena ps (blk a s in_use) qs behind (OffRange x (x + 1)) out).0 in
        (
          (kept.spares.byte x (
              outside_Foreign x (ground (arith, this))
                (OffArena-Foreign w g old_parts x heap off))).0,
          exchange_arena before (part arena (ps ++ blk a s in_use ∷ qs))
              (part arena (freed ps a s qs)) behind (OffArena x) (λ h. h) off,
        )

    freed-kept :
        (q m : ℕ)
        → Holds (heap_site g old_parts) q m
        → ((q ≡ a + 16) × (m ≡ s)) ⊎ Holds (heap_site g' new_parts) q m
    freed-kept q m (b, at, start) =
        elim (take_out-In before arena ps (blk a s in_use) qs behind (blk b m in_use) at) [
          | inl e ↦
              let same : b ≡ a = ap (λ c. c.addr) e in
              inl (start ∙ ap (λ (k : ℕ). k + 16) same, ap (λ c. c.size) e)
          | inr i ↦ inr (b, to_new (blk b m in_use) refl i, start)
        ]

    freed-gone : Holds (heap_site g' new_parts) (a + 16) s → ⊥
    freed-gone (b, at, start) =
        let i = from_new (blk b s in_use) refl at in
        let off =
          In-All (Off (blk a s in_use)) (around before ps qs behind) (blk b s in_use) i
            block_clear in
        omega (arith, start, off)

    freed-back : IsBack (heap_site g' new_parts) (a + 16) s
    unfolding freed
    freed-back =
        let (s1, qs1) = grown s qs in
        let (a2, s2, ps2) = widened a s1 ps in
        let tiles =
          held_part before (part arena (ps ++ blk a s in_use ∷ qs)) behind PartTiles
            heap.layout.tiles in
        let (front, _) =
          Tiles-split arena.base ps (blk a s in_use) qs (arena.base + arena.used) tiles in
        let (start, ends_at) = widened-spans arena.base a s1 ps front in
        let wide = grown-spans s qs in
        (
          blk a2 s2 listed,
          put_back-In before arena ps2 (blk a2 s2 listed) qs1 behind (blk a2 s2 listed) (inl refl),
          refl,
          omega (arith, start),
          omega (arith, ends_at, wide),
        )

    freed-Shrunk :
        Shrunk p w (heap_site g old_parts) (heap_site g' new_parts) (unlocked w w') (a + 16) s
    freed-Shrunk = record {
      sound = IsHeap-set_held w.process.held w' g' new_parts heap';
      local = record {
        bytes = λ x m off. freed-bytes x off;
        regions = λ r i. subst (λ q. In r q.mapped) (sym kept.process) i;
        held = refl;
      };
      kept = freed-kept;
      only = freed-only;
      gone = freed-gone;
      back = freed-back;
      same = freed-same;
    }

  -- What free_general leaves of the site: one payload less.
  abbrev pub LargeFree : General → World → Type 0
  LargeFree g' w' =
      (parts' : List Part) × (g'.arena_size ≡ g.arena_size)
      × Shrunk p w (heap_site g old_parts) (heap_site g' parts') w' (a + 16) s

  pub free_general-LargeFree :
      holds Mutex.general w.process.held ≡ false
      → Ends LargeFree (with_lock Mutex.general (free_general g (a + 16)) w)
  free_general-LargeFree unheld =
      with_lock-Ends _ LargeFree Mutex.general (free_general g (a + 16)) w unheld
        (free_general-IsHeap (locked Mutex.general w) g before arena ps a s qs behind
          (IsHeap-set_held (Mutex.general ∷ w.process.held) w g old_parts heap))
        λ g' w' (heap', kept). (
          ap (λ q. q.held) kept.process,
          (new_parts, kept.arena_size, freed-Shrunk g' w' heap' kept),
        )
