-- ===== src/Sites/Scribble.antt =====
-- The program may write into the payloads in its hands: the allocator stays whole.
use custom_memory_allocator.Base.{
  ℕ, ◌+◌, ◌≤◌, ◌<◌, ◌≡◌, ◌⊎◌, inl, inr, sym, ap, ◌∙◌, subst, List, [], ◌++◌, All-of_In, In, In-All,
  In-split, In-front, In-append_left, In-append_right, Spaced, AllSpaced, AllSpaced-drop, arith,
  ◌==◌, Bool-cases, eq_of_==, ne_of_==,
}
use custom_memory_allocator.Memory.Access.{read_word-agree}
use custom_memory_allocator.Run.{World, OsRegion}
use custom_memory_allocator.Os.{Platform}
use custom_memory_allocator.Pool.Restock.{SameAt}
use custom_memory_allocator.ThreadCache.{pool_address}
use custom_memory_allocator.General.{General}
use custom_memory_allocator.General.Store.{in_use, blk}
use custom_memory_allocator.General.Store.Frame.{AllOff-pair}
use custom_memory_allocator.General.Store.Reuse.{in_use-listed}
use custom_memory_allocator.General.Heap.{Part, bag, IsHeap}
use custom_memory_allocator.Allocator.{Allocator}
use custom_memory_allocator.Sites.{
  Book, Site, pool_site, heap_site, IsSound, SiteApart, Holds, Disjoint,
}
use custom_memory_allocator.Sites.Keep.{range_cases, shared_same, IsHeap-same, IsSound-keep}
use custom_memory_allocator.Sites.Payloads.{payload_inside}
use custom_memory_allocator.Sites.Family.{sites_Disjoint}
use custom_memory_allocator.Sites.Steps.{InHand}
use custom_memory_allocator.Sites.Whole.{IsWhole}

-- Two of a list of spaced slots are one, or apart.
Spaced-cases :
    (gap : ℕ) (xs : List ℕ) (y z : ℕ)
    → AllSpaced gap xs
    → In y xs
    → In z xs
    → (z ≡ y) ⊎ Spaced gap y z
Spaced-cases gap xs y z spaced at at' =
    let (before, after, split) = In-split xs y at in
    let near = (AllSpaced-drop gap before y after (subst (AllSpaced gap) split spaced)).0 in
    elim (In-front before y after z (subst (In z) split at')) [
      | inl e ↦ inl e
      | inr i ↦ inr (In-All (Spaced gap y) (before ++ after) z i near)
    ]

-- Only bytes of the payload have changed.
abbrev pub OnlyWithin : (ptr n : ℕ) → World → World → Type 0
OnlyWithin ptr n w w' = (x : ℕ) → (x < ptr) ⊎ (ptr + n ≤ x) → w'.mem x ≡ w.mem x

live_slot : (b : Book) (s : ℕ) → In s b.live → In s (b.free ++ (b.cached ++ (b.live ++ [])))
live_slot b s at =
    In-append_right b.free (b.cached ++ (b.live ++ [])) s
      (In-append_right b.cached (b.live ++ []) s (In-append_left b.live [] s at))

module _ (p : Platform) (w w' : World) (ptr n : ℕ) (only : OnlyWithin ptr n w w')
    (regions : (r : OsRegion) → In r w.process.mapped → In r w'.process.mapped) where
  scribbled_shared :
      (i : ℕ) (b : Book)
      → Holds (pool_site i b) ptr n
      → IsSound p w (pool_site i b)
      → IsSound p w' (pool_site i b)
  scribbled_shared i b (s, at, start, size) sound =
      let all = b.free ++ (b.cached ++ (b.live ++ [])) in
      let total = sound.is_stock.total in
      shared_same w w' regions (pool_address p i) b
        (All-of_In (SameAt w.mem w'.mem) all λ z j. read_word-agree w.mem w'.mem z λ x lo hi.
          only x
            (elim (Spaced-cases b.pool.slot_total_size all s z sound.is_stock.spaced
              (live_slot b s at) j) [
                | inl same ↦ inl (omega (arith, same, start, hi))
                | inr (inl lt) ↦ inr (omega (arith, lt, start, size, total, lo))
                | inr (inr lt) ↦ inl (omega (arith, lt, start, total, hi))
              ]))
        sound

  scribbled-IsHeap :
      (g : General) (parts : List Part)
      → Holds (heap_site g parts) ptr n
      → IsHeap w g parts
      → IsHeap w' g parts
  scribbled-IsHeap g parts (a, at, start) heap =
      IsHeap-same w w' regions g parts
        (λ b i x lo hi where_at.
          only x (elim (AllOff-pair (bag parts) b (blk a n in_use) heap.store.off i at) [
            | inl same ↦
                let addr : b.addr ≡ a = ap (λ c. c.addr) same in
                let size : b.size ≡ n = ap (λ c. c.size) same in
                elim where_at [
                  | inl k ↦ absurd (in_use-listed (sym (ap (λ c. c.kind) same) ∙ k))
                  | inr (inl lt) ↦ inl (omega (arith, addr, start, lt))
                  | inr (inr le) ↦ inr (omega (arith, addr, size, start, le))
                ]
            | inr (inl before) ↦ inl (omega (arith, before, start, hi))
            | inr (inr behind) ↦ inr (omega (arith, behind, start, lo))
          ]))
        heap

  scribbled_here : (s : Site) → Holds s ptr n → IsSound p w s → IsSound p w' s
  scribbled_here (pool_site i b) held sound = scribbled_shared i b held sound
  scribbled_here (heap_site g parts) held sound = scribbled-IsHeap g parts held sound

  scribbled_there :
      (s t : Site) → SiteApart s t → Holds s ptr n → IsSound p w s → IsSound p w t → IsSound p w' t
  scribbled_there s t apart held sound other =
      IsSound-keep w w' regions p t
        (λ x. elim (range_cases x ptr n) [
          | inl out ↦ inr (only x out)
          | inr (lo, hi) ↦ elim (apart x) [
            | inl off ↦ absurd (payload_inside p w s ptr n x sound held lo hi off)
            | inr off ↦ inl off
          ]
        ])
        other

-- A change of bytes of one payload in hand, and of nothing else, leaves the allocator whole with the
-- same payloads in hand.
pub scribble-IsWhole :
    (p : Platform) (w w' : World) (a : Allocator) (f : ℕ → Site) (ptr n : ℕ)
    → IsWhole p w a f
    → InHand f ptr n
    → OnlyWithin ptr n w w'
    → w'.process ≡ w.process
    → IsWhole p w' a f
scribble-IsWhole p w w' a f ptr n whole (i, lt, held) only same =
    let regions : (r : OsRegion) → In r w.process.mapped → In r w'.process.mapped =
      λ r at. subst (λ q. In r q.mapped) (sym same) at in
    record {
      parts = whole.parts;
      heap = whole.heap;
      pools = whole.pools;
      sounds = λ j ltj. elim (Bool-cases (j == i)) [
        | inl e ↦
            let here = eq_of_== j i e in
            subst (λ k. IsSound p w' (f k)) (sym here)
              (scribbled_here p w w' ptr n only regions (f i) held (whole.sounds i lt))
        | inr e ↦
            let ne = ne_of_== j i e in
            scribbled_there p w w' ptr n only regions (f i) (f j)
              (whole.aparts i j lt ltj (λ h. ne (sym h))) held (whole.sounds i lt)
              (whole.sounds j ltj)
      ];
      aparts = whole.aparts;
      unlocked = ap (λ q. q.held) same ∙ whole.unlocked;
      arena_size = whole.arena_size;
    }

-- Two payloads in hand are one, or have no byte in common.
site_Disjoint :
    (p : Platform) (w : World) (s : Site) (q m q' m' : ℕ)
    → IsSound p w s
    → Holds s q m
    → Holds s q' m'
    → ((q ≡ q') × (m ≡ m')) ⊎ Disjoint q m q' m'
site_Disjoint p w (pool_site i b) q m q' m' sound (y, at, start, size) (z, at', start', size') =
    let all = b.free ++ (b.cached ++ (b.live ++ [])) in
    let total = sound.is_stock.total in
    elim (Spaced-cases b.pool.slot_total_size all y z sound.is_stock.spaced (live_slot b y at)
      (live_slot b z at')) [
        | inl same ↦ inl (omega (arith, start, start', same), size ∙ sym size')
        | inr apart ↦ inr (λ x lo hi lo' hi'.
            omega (arith, total, start, start', size, size', apart, lo, hi, lo', hi'))
      ]
site_Disjoint p w (heap_site g parts) q m q' m' sound (a, at, start) (b, at', start') =
    elim (AllOff-pair (bag parts) (blk a m in_use) (blk b m' in_use) sound.store.off at at') [
      | inl same ↦
          let addr : a ≡ b = ap (λ c. c.addr) same in
          inl (start ∙ ap (λ (k : ℕ). k + 16) addr ∙ sym start', ap (λ c. c.size) same)
      | inr apart ↦ inr (λ x lo hi lo' hi'. omega (arith, start, start', apart, lo, hi, lo', hi'))
    ]

-- Of a whole allocator, two payloads in hand are the same or have no byte in common.
pub InHand-Disjoint :
    (p : Platform) (w : World) (a : Allocator) (f : ℕ → Site) (q m q' m' : ℕ)
    → IsWhole p w a f
    → InHand f q m
    → InHand f q' m'
    → ((q ≡ q') × (m ≡ m')) ⊎ Disjoint q m q' m'
InHand-Disjoint p w a f q m q' m' whole (i, lt, held) (j, ltj, held') = elim (Bool-cases (i == j)) [
  | inl e ↦
      let same = eq_of_== i j e in
      site_Disjoint p w (f i) q m q' m' (whole.sounds i lt) held
        (subst (λ k. Holds (f k) q' m') (sym same) held')
  | inr e ↦ inr (
      sites_Disjoint p w (f i) (f j) q m q' m' (whole.aparts i j lt ltj (ne_of_== i j e))
        (whole.sounds i lt) (whole.sounds j ltj) held held')
]
