-- ===== src/General/Heap/Middle.antt =====
-- A block of an arena while an operation works on it: in front of the bag, and in its place.
use custom_memory_allocator.Base.{
  In-front, In-back, In, All-map, ℕ, ◌+◌, ◌≡◌, ◌≢◌, true, refl, sym, ap, ◌∙◌, subst, List, [], ◌∷◌,
  ◌++◌, All,
}
use custom_memory_allocator.Memory.{Memory}
use custom_memory_allocator.Run.{World}
use custom_memory_allocator.FreeList.{FreeList}
use custom_memory_allocator.General.{Arena, General}
use custom_memory_allocator.General.Store.{
  Kind, in_use, listed, detached, flag, Blk, blk, Spares, Spares-refl, Spares-trans, IsGood,
  IsStore,
}
use custom_memory_allocator.General.Store.Order.{IsStore-front, IsStore-back, All-back, All-front}
use custom_memory_allocator.General.Heap.{
  Settled, PartSettled, IsMapped, IsAssigned, IsHeap, Part, part, bag, arenas_of, Tiles, IsArena,
  AllArenaOff, PartTiles, IsLayout,
}
use custom_memory_allocator.General.Heap.Place.{Tiles-split, held_part}

pub append_assoc : {A : Type 0} (xs ys zs : List A) → (xs ++ ys) ++ zs ≡ xs ++ (ys ++ zs)
append_assoc [] ys zs = refl
append_assoc (x ∷ xs) ys zs = ap (λ l. x ∷ l) (append_assoc xs ys zs)

-- The other blocks of the bag.
abbrev pub around : List Part → List Blk → List Blk → List Part → List Blk
around before ps qs behind = (bag before ++ ps) ++ (qs ++ bag behind)

bag-place :
    (before : List Part) (arena : Arena) (ps : List Blk) (b : Blk) (qs : List Blk)
    (behind : List Part)
    → bag (before ++ part arena (ps ++ b ∷ qs) ∷ behind)
      ≡ (bag before ++ ps) ++ b ∷ (qs ++ bag behind)
bag-place [] arena ps b qs behind = append_assoc ps (b ∷ qs) (bag behind)
bag-place (p ∷ before) arena ps b qs behind =
    ap (λ l. p.blocks ++ l) (bag-place before arena ps b qs behind)
    ∙ sym (append_assoc p.blocks (bag before ++ ps) (b ∷ (qs ++ bag behind)))
    ∙ ap (λ l. l ++ b ∷ (qs ++ bag behind)) (sym (append_assoc p.blocks (bag before) ps))

module _ (before : List Part) (arena : Arena) (ps : List Blk) (b : Blk) (qs : List Blk)
    (behind : List Part) where
  pub take_out :
      (m : Memory) (list : FreeList) (xs : List ℕ)
      → IsStore m list (bag (before ++ part arena (ps ++ b ∷ qs) ∷ behind)) xs
      → IsStore m list (b ∷ around before ps qs behind) xs
  take_out m list xs st =
      IsStore-front m list (bag before ++ ps) b (qs ++ bag behind) xs
        (subst (λ bs. IsStore m list bs xs) (bag-place before arena ps b qs behind) st)

  pub put_back :
      (m : Memory) (list : FreeList) (xs : List ℕ)
      → IsStore m list (b ∷ around before ps qs behind) xs
      → IsStore m list (bag (before ++ part arena (ps ++ b ∷ qs) ∷ behind)) xs
  put_back m list xs st =
      subst (λ bs. IsStore m list bs xs) (sym (bag-place before arena ps b qs behind))
        (IsStore-back m list (bag before ++ ps) b (qs ++ bag behind) xs st)

  pub take_out-All :
      (P : Blk → Type 0)
      → All P (bag (before ++ part arena (ps ++ b ∷ qs) ∷ behind))
      → All P (b ∷ around before ps qs behind)
  take_out-All P h =
      All-front (bag before ++ ps) b (qs ++ bag behind) P
        (subst (λ bs. All P bs) (bag-place before arena ps b qs behind) h)

  pub put_back-All :
      (P : Blk → Type 0)
      → All P (b ∷ around before ps qs behind)
      → All P (bag (before ++ part arena (ps ++ b ∷ qs) ∷ behind))
  put_back-All P h =
      subst (λ bs. All P bs) (sym (bag-place before arena ps b qs behind))
        (All-back (bag before ++ ps) b (qs ++ bag behind) P h)

  pub take_out-In :
      (c : Blk)
      → In c (bag (before ++ part arena (ps ++ b ∷ qs) ∷ behind))
      → In c (b ∷ around before ps qs behind)
  take_out-In c i =
      In-front (bag before ++ ps) b (qs ++ bag behind) c
        (subst (λ bs. In c bs) (bag-place before arena ps b qs behind) i)

  pub put_back-In :
      (c : Blk)
      → In c (b ∷ around before ps qs behind)
      → In c (bag (before ++ part arena (ps ++ b ∷ qs) ∷ behind))
  put_back-In c i =
      subst (λ bs. In c bs) (sym (bag-place before arena ps b qs behind))
        (In-back (bag before ++ ps) b (qs ++ bag behind) c i)

pub arenas_of-part :
    (before : List Part) (arena : Arena) (bs bs' : List Blk) (behind : List Part)
    → arenas_of (before ++ part arena bs ∷ behind) ≡ arenas_of (before ++ part arena bs' ∷ behind)
arenas_of-part [] arena bs bs' behind = refl
arenas_of-part (p ∷ before) arena bs bs' behind =
    ap (λ l. p.arena ∷ l) (arenas_of-part before arena bs bs' behind)

pub All-part :
    (P : Part → Type 0) (before : List Part) (p p' : Part) (behind : List Part)
    → P p'
    → All P (before ++ p ∷ behind)
    → All P (before ++ p' ∷ behind)
All-part P [] p p' behind h all = (h, all.1)
All-part P (q ∷ before) p p' behind h all = (all.0, All-part P before p p' behind h all.1)

-- The blocks of one arena give way to others that tile the same bytes.
pub IsLayout-part :
    (g g' : General) (before : List Part) (arena : Arena) (bs bs' : List Blk) (behind : List Part)
    → g'.arenas ≡ g.arenas
    → Tiles arena.base bs' (arena.base + arena.used)
    → IsLayout g (before ++ part arena bs ∷ behind)
    → IsLayout g' (before ++ part arena bs' ∷ behind)
IsLayout-part g g' before arena bs bs' behind e tiles layout =
    let same = arenas_of-part before arena bs bs' behind in
    record {
      arenas = e ∙ layout.arenas ∙ same;
      tiles = All-part PartTiles before (part arena bs) (part arena bs') behind tiles layout.tiles;
      each = subst (λ l. All IsArena l) same layout.each;
      off = subst AllArenaOff same layout.off;
    }

-- A block that is off the list and may be marked free.
pub record Middle (w : World) (g : General) (before : List Part) (arena : Arena) (ps : List Blk)
    (a s : ℕ) (qs : List Blk) (behind : List Part) : Type 0 where
  pub xs : List ℕ
  pub store : IsStore w.mem g.free_list (blk a s detached ∷ around before ps qs behind) xs
  pub layout : IsLayout g (before ++ part arena (ps ++ blk a s detached ∷ qs) ∷ behind)

module _ {w : World} {g : General} {before : List Part} {arena : Arena} {ps : List Blk} {a s : ℕ}
    {qs : List Blk} {behind : List Part} (mid : Middle w g before arena ps a s qs behind) where
  pub Middle-goods :
      All (IsGood w.mem) (bag (before ++ part arena (ps ++ blk a s detached ∷ qs) ∷ behind))
  Middle-goods =
      put_back-All before arena ps (blk a s detached) qs behind (IsGood w.mem) mid.store.good

  pub Middle-Tiles : Tiles arena.base ps a × Tiles (a + 32 + s) qs (arena.base + arena.used)
  Middle-Tiles = Tiles-split arena.base ps (blk a s detached) qs (arena.base + arena.used) (
      held_part before (part arena (ps ++ blk a s detached ∷ qs)) behind PartTiles mid.layout.tiles)

-- All but the free list and the allocator's own bytes is as it was.
pub record Kept (before after : List Blk) (g : General) (w : World) (g' : General) (w' : World)
    : Type 0 where
  pub spares : Spares before after w.mem w'.mem
  pub arenas : g'.arenas ≡ g.arenas
  pub arena_size : g'.arena_size ≡ g.arena_size
  pub process : w'.process ≡ w.process

pub Kept-refl : {bs : List Blk} {g : General} {w : World} → Kept bs bs g w g w
Kept-refl = record { spares = Spares-refl; arenas = refl; arena_size = refl; process = refl }

pub Kept-trans :
    {bs bs1 bs2 : List Blk} {g g1 g2 : General} {w w1 w2 : World}
    → Kept bs bs1 g w g1 w1
    → Kept bs1 bs2 g1 w1 g2 w2
    → Kept bs bs2 g w g2 w2
Kept-trans k l = record {
  spares = Spares-trans k.spares l.spares;
  arenas = l.arenas ∙ k.arenas;
  arena_size = l.arena_size ∙ k.arena_size;
  process = l.process ∙ k.process;
}

pub listed_if_free : (k : Kind) → k ≢ detached → flag k ≡ true → k ≡ listed
listed_if_free in_use ne e = cc
listed_if_free listed ne e = refl
listed_if_free detached ne e = absurd (ne refl)

pub blk-listed :
    (c : Blk) (a : ℕ)
    → c.kind ≢ detached
    → flag c.kind ≡ true
    → c.addr ≡ a
    → c ≡ blk a c.size listed
blk-listed c a ne e at =
    ap (λ x. blk x c.size c.kind) at ∙ ap (λ k. blk a c.size k) (listed_if_free c.kind ne e)

-- The block behind the one in front comes second.
module _ (before : List Part) (ps : List Blk) (b c : Blk) (qs : List Blk) (behind : List Part) where
  pub next_second :
      (m : Memory) (list : FreeList) (xs : List ℕ)
      → IsStore m list (b ∷ around before ps (c ∷ qs) behind) xs
      → IsStore m list (b ∷ c ∷ around before ps qs behind) xs
  next_second m list xs st =
      IsStore-front m list (c ∷ []) b (around before ps qs behind) xs
        (IsStore-front m list (b ∷ (bag before ++ ps)) c (qs ++ bag behind) xs st)

  pub next_second-All :
      (P : Blk → Type 0)
      → All P (b ∷ around before ps (c ∷ qs) behind)
      → P b × P c × All P (around before ps qs behind)
  next_second-All P h =
      let (f, fs) = All-front (b ∷ (bag before ++ ps)) c (qs ++ bag behind) P h in (fs.0, f, fs.1)

-- The heap is whole again once the blocks of one arena have given way to others.
pub IsHeap-part :
    {w : World} {g : General} (w' : World) (g' : General) (before : List Part) (arena : Arena)
    (bs bs' : List Blk) (behind : List Part) (xs : List ℕ)
    → IsHeap w g (before ++ part arena bs ∷ behind)
    → IsStore w'.mem g'.free_list (bag (before ++ part arena bs' ∷ behind)) xs
    → g'.arenas ≡ g.arenas
    → w'.process ≡ w.process
    → Tiles arena.base bs' (arena.base + arena.used)
    → Settled bs'
    → All IsAssigned (bag (before ++ part arena bs' ∷ behind))
    → IsHeap w' g' (before ++ part arena bs' ∷ behind)
IsHeap-part {w} {g} w' g' before arena bs bs' behind xs heap store arenas process tiles settled
      assigned =
    let here = part arena bs in
    record {
      xs = xs;
      store = store;
      layout = IsLayout-part g g' before arena bs bs' behind arenas tiles heap.layout;
      settled = All-part PartSettled before here (part arena bs') behind settled heap.settled;
      assigned = assigned;
      mapped =
          subst (λ l. All (IsMapped w') l) (arenas_of-part before arena bs bs' behind)
            (All-map (IsMapped w) (IsMapped w') (arenas_of (before ++ here ∷ behind))
              (λ x i. rw process i) heap.mapped);
    }
