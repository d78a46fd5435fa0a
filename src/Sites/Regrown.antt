-- ===== src/Sites/Regrown.antt =====
-- The part of my_realloc of src/allocator.cpp behind the general path's lock, where the block stays in
-- place, as a change of the general path's site.
use custom_memory_allocator.Base.{
  ℕ, ◌+◌, ◌≤◌, ◌^◌, ◌≡◌, ◌⊎◌, inl, inr, refl, sym, ap, ◌∙◌, subst, false, List, ◌∷◌, ◌++◌, In,
  Bool-cases, leb, arith,
}
use custom_memory_allocator.Run.{World, Mutex, holds, with_lock}
use custom_memory_allocator.Run.Ends.{Ends}
use custom_memory_allocator.Run.Locks.{locked, unlocked, with_lock-Ends}
use custom_memory_allocator.Os.{Platform}
use custom_memory_allocator.General.{Arena, General, align_up}
use custom_memory_allocator.General.Align.{align_up_least}
use custom_memory_allocator.General.Blocks.{Regrowth, in_place, must_move, realloc_general}
use custom_memory_allocator.General.Store.{in_use, Blk, blk}
use custom_memory_allocator.General.Heap.{Part, part, bag, OffArena, IsHeap}
use custom_memory_allocator.General.Heap.Place.{exchange_arena}
use custom_memory_allocator.General.Heap.Middle.{around, take_out-In, put_back-In}
use custom_memory_allocator.General.Heap.CoalesceRight.{grown}
use custom_memory_allocator.General.Heap.Malloc.{handed_out-In}
use custom_memory_allocator.General.Heap.Regrow.{regrown, InPlace, realloc_general-IsHeap}
use custom_memory_allocator.Sites.{heap_site}
use custom_memory_allocator.Sites.Blocks.{IsHeap-set_held, OffArena-Foreign, payload-Foreign}
use custom_memory_allocator.Sites.Freed.{grown-keeps, grown-only, around-In}
use custom_memory_allocator.Sites.Steps.{Regrown}

-- What is in use once the block has been made to hold `n` bytes.
regrown-In :
    (before : List Part) (arena : Arena) (ps : List Blk) (a s n : ℕ) (qs : List Blk)
    (behind : List Part)
    → n ≤ (grown s qs).0
    → (size : ℕ) × (n ≤ size)
      × ((size ≡ s) ⊎ (size ≤ n + 47))
      × ((c : Blk)
          → c.kind ≡ in_use
          → In c (blk a size in_use ∷ around before ps qs behind)
          → In c (bag (before ++ part arena (ps ++ regrown a s n qs) ∷ behind)))
      × ((c : Blk)
          → In c (bag (before ++ part arena (ps ++ regrown a s n qs) ∷ behind))
          → c.kind ≡ in_use
          → In c (blk a size in_use ∷ around before ps qs behind))
unfolding regrown
regrown-In before arena ps a s n qs behind fits = elim (Bool-cases (leb n s)) [
  | inl e ↦ rw e (
    s,
    ground (arith, e),
    inl refl,
    λ c k. put_back-In before arena ps (blk a s in_use) qs behind c,
    λ c i k. take_out-In before arena ps (blk a s in_use) qs behind c i,
  )
  | inr e ↦
      let (t, qs1) = grown s qs in
      let (size, enough, _, near, into, out_of) = handed_out-In before arena ps a t n qs1 behind in
      rw e (
        size,
        enough fits,
        inr (near fits),
        λ c k i. into c (elim i [
          | inl same ↦ inl same
          | inr j ↦ inr (around-In before ps ps qs qs1 behind c (λ h. h) (grown-keeps s qs c k) j)
        ]),
        λ c i k. elim (out_of c i k) [
          | inl same ↦ inl same
          | inr j ↦ inr (around-In before ps ps qs1 qs behind c (λ h. h) (grown-only s qs c) j)
        ],
      )
]

module _ (p : Platform) (w : World) (g : General) (before : List Part) (arena : Arena)
    (ps : List Blk) (a s : ℕ) (qs : List Blk) (behind : List Part)
    (heap : IsHeap w g (before ++ part arena (ps ++ blk a s in_use ∷ qs) ∷ behind)) where
  abbrev old_parts : List Part
  old_parts = before ++ part arena (ps ++ blk a s in_use ∷ qs) ∷ behind

  abbrev new_parts : ℕ → List Part
  new_parts n = before ++ part arena (ps ++ regrown a s n qs) ∷ behind

  module _ (n : ℕ) (fits : n ≤ (grown s qs).0) (r : Regrowth × General) (w' : World)
      (i : InPlace
        (locked Mutex.general w)
        g
        before
        arena
        ps
        (blk a s in_use ∷ qs)
        (regrown a s n qs)
        behind
        r
        w') where
    InPlace-Regrown :
        (size : ℕ) × (n ≤ size)
        × ((size ≡ s) ⊎ (size ≤ n + 47))
        × Regrown p w
            (heap_site g old_parts)
            (heap_site r.1 (new_parts n))
            (unlocked w w')
            (a + 16)
            s
            size
    InPlace-Regrown =
        let (size, room, snug, into, out_of) = regrown-In before arena ps a s n qs behind fits in
        (
          size,
          room,
          snug,
          record {
            sound = IsHeap-set_held w.process.held w' r.1 (new_parts n) i.heap;
            local = record {
              bytes = λ x m off. (
                (i.kept.spares.byte x (OffArena-Foreign w g old_parts x heap off)).0,
                exchange_arena before (part arena (ps ++ blk a s in_use ∷ qs))
                    (part arena (ps ++ regrown a s n qs)) behind (OffArena x) (λ h. h) off,
              );
              regions = λ o at. subst (λ q. In o q.mapped) (sym i.kept.process) at;
              held = refl;
            };
            new = (a, into (blk a size in_use) refl (inl refl), refl);
            kept = λ q m (b, at, start).
                elim (take_out-In before arena ps (blk a s in_use) qs behind (blk b m in_use) at) [
                  | inl e ↦
                      let addr : b ≡ a = ap (λ c. c.addr) e in
                      inl (start ∙ ap (λ (k : ℕ). k + 16) addr, ap (λ c. c.size) e)
                  | inr j ↦ inr (b, into (blk b m in_use) refl (inr j), start)
                ];
            only = λ q m (b, at, start). elim (out_of (blk b m in_use) at refl) [
              | inl e ↦
                  let addr : b ≡ a = ap (λ c. c.addr) e in
                  inl (start ∙ ap (λ (k : ℕ). k + 16) addr, ap (λ c. c.size) e)
              | inr j ↦ inr (
                b,
                put_back-In before arena ps (blk a s in_use) qs behind (blk b m in_use) (inr j),
                start,
              )
            ];
            same = λ q m x (b, at, start) lo hi.
                (i.kept.spares.byte x (
                  payload-Foreign w g old_parts b m x heap at (omega (arith, start, lo))
                    (omega (arith, start, hi)))).0;
          },
        )

  -- The block stays in place with room for the request, or nothing has changed.
  abbrev pub LargeRealloc : ℕ → Regrowth × General → World → Type 0
  LargeRealloc new_size r w' =
      ((parts' : List Part) × (size : ℕ) × (r.0 ≡ in_place)
        × (new_size ≤ size)
        × ((size ≡ s) ⊎ (size ≤ new_size + 4096))
        × (r.1.arena_size ≡ g.arena_size)
        × Regrown p w (heap_site g old_parts) (heap_site r.1 parts') w' (a + 16) s size)
      ⊎ ((r.0 ≡ must_move s) × (r.1 ≡ g) × (w' ≡ w))

  pub realloc_general-LargeRealloc :
      (new_size : ℕ)
      → new_size ≤ 2 ^ 62
      → holds Mutex.general w.process.held ≡ false
      → Ends
          (LargeRealloc new_size)
          (with_lock Mutex.general (realloc_general g (a + 16) new_size) w)
  realloc_general-LargeRealloc new_size small unheld =
      with_lock-Ends _ (LargeRealloc new_size) Mutex.general (realloc_general g (a + 16) new_size) w
        unheld
        (realloc_general-IsHeap (locked Mutex.general w) g before arena ps a s new_size qs behind
          (IsHeap-set_held (Mutex.general ∷ w.process.held) w g old_parts heap)
          (omega (arith, small)))
        λ r w' got. elim got [
          | inl (fits, i) ↦
              let (size, room, snug, step) = InPlace-Regrown (align_up new_size) fits r w' i in
              let (_, up, near, _) = align_up_least new_size (omega (arith, small)) in
              (
                ap (λ q. q.held) i.kept.process,
                inl (
                  new_parts (align_up new_size),
                  size,
                  i.verdict,
                  omega (arith, up, room),
                  elim snug [ inl e ↦ inl e | inr le ↦ inr (omega (arith, near, le)) ],
                  i.kept.arena_size,
                  step,
                ),
              )
          | inr (_, m) ↦ (
            ap (λ u. u.process.held) m.world,
            inr (m.verdict, m.general, ap (unlocked w) m.world),
          )
        ]
