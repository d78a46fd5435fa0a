-- ===== src/General/Heap/CoalesceLeft.antt =====
-- my_free's step to the left: the free block in front of the block takes it in, if there is one.
use custom_memory_allocator.Base.{
  ℕ, ◌+◌, ◌≡◌, refl, sym, ap, ◌∙◌, subst, true, false, null, List, [], ◌∷◌, ◌++◌, All, All-right,
  arith, inl, inr, Bool-cases, snoc_cases, ◌==◌, ==_of_ne, if◌then◌else◌,
}
use custom_memory_allocator.Run.{World, pure, ◌>>=◌, ◌>>◌}
use custom_memory_allocator.Run.Ends.{Ends, ends, Ends-continue, Ends-weaken}
use custom_memory_allocator.FreeList.{remove}
use custom_memory_allocator.General.{Arena, General}
use custom_memory_allocator.General.Blocks.{coalesce_left, merge, with_list}
use custom_memory_allocator.General.Store.{
  Foreign, Foreign-rekind, listed-in_use, listed, Spares, flag, detached, Blk, blk, IsGood, IsStore,
}
use custom_memory_allocator.General.Store.Listing.{remove-detached, detached-listed}
use custom_memory_allocator.General.Store.Merge.{merge-IsStore}
use custom_memory_allocator.General.Store.Order.{IsStore-front, All-front}
use custom_memory_allocator.General.Heap.{Part, bag, Tiles, IsAssigned}
use custom_memory_allocator.General.Heap.Place.{Tiles-split, Tiles-join}
use custom_memory_allocator.General.Heap.Adjacent.{
  left_of, taken_if_free, left_of-snoc, left_neighbor_if_free-left_of,
}
use custom_memory_allocator.General.Heap.Middle.{
  around, append_assoc, Middle, Middle-goods, Middle-Tiles, IsLayout-part, Kept, Kept-refl,
  blk-listed,
}

-- The address and size of a block and the blocks in front of it, once the last of them has taken it
-- in if that is free.
abbrev pub widened : ℕ → ℕ → List Blk → ℕ × ℕ × List Blk
widened a s [] = (a, s, [])
widened a s (c ∷ []) = if flag c.kind then (c.addr, c.size + 32 + s, []) else (a, s, c ∷ [])
widened a s (c ∷ d ∷ ps) = let (a', s', ps') = widened a s (d ∷ ps) in (a', s', c ∷ ps')

pub widened-free :
    (a s : ℕ) (ps : List Blk) (c : Blk)
    → flag c.kind ≡ true
    → widened a s (ps ++ c ∷ []) ≡ (c.addr, c.size + 32 + s, ps)
widened-free a s [] c e = rw e refl
widened-free a s (p ∷ []) c e = rw e refl
widened-free a s (p ∷ q ∷ ps) c e = rw (widened-free a s (q ∷ ps) c e) refl

pub widened-taken :
    (a s : ℕ) (ps : List Blk) (c : Blk)
    → flag c.kind ≡ false
    → widened a s (ps ++ c ∷ []) ≡ (a, s, ps ++ c ∷ [])
widened-taken a s [] c e = rw e refl
widened-taken a s (p ∷ []) c e = rw e refl
widened-taken a s (p ∷ q ∷ ps) c e = rw (widened-taken a s (q ∷ ps) c e) refl

-- What coalesce_left leaves.
pub record Widened (g : General) (w : World) (old : List Blk) (before : List Part) (arena : Arena)
    (r : ℕ × ℕ × List Blk) (qs : List Blk) (behind : List Part) (out : ℕ × General) (w' : World)
    : Type 0 where
  pub block : out.0 ≡ r.0
  pub mid : Middle w' out.1 before arena r.2 r.0 r.1 qs behind
  pub kept : Kept old (blk r.0 r.1 detached ∷ around before r.2 qs behind) g w out.1 w'

around-snoc :
    (before : List Part) (ps : List Blk) (c : Blk) (qs : List Blk) (behind : List Part)
    → around before (ps ++ c ∷ []) qs behind ≡ (bag before ++ ps) ++ c ∷ (qs ++ bag behind)
around-snoc before ps c qs behind =
    ap (λ l. l ++ (qs ++ bag behind)) (sym (append_assoc (bag before) ps (c ∷ [])))
    ∙ append_assoc (bag before ++ ps) (c ∷ []) (qs ++ bag behind)

module _ (w : World) (g : General) (before : List Part) (arena : Arena) (a s : ℕ) (qs : List Blk)
    (behind : List Part) where
  merged :
      (ps : List Blk) (c : Blk)
      → Middle w g before arena (ps ++ c ∷ []) a s qs behind
      → IsAssigned c
      → flag c.kind ≡ true
      → Ends
          (Widened g w
            (blk a s detached ∷ around before (ps ++ c ∷ []) qs behind)
            before
            arena
            (c.addr, c.size + 32 + s, ps)
            qs
            behind)
          ((do list ← remove g.free_list c.addr; merge c.addr a; pure (c.addr, with_list g list)) w)
  merged ps c mid assigned free =
      let (all_front, back) = Middle-Tiles mid in
      let (front, next) = Tiles-split arena.base ps c [] a all_front in
      let further : a + 32 + s ≡ c.addr + 32 + (c.size + 32 + s) = omega (arith, next) in
      let others = around before ps qs behind in
      let is_c = blk-listed c c.addr assigned free refl in
      let c_first : IsStore w.mem g.free_list (c ∷ blk a s detached ∷ others) mid.xs =
        IsStore-front w.mem g.free_list (blk a s detached ∷ (bag before ++ ps)) c (qs ++ bag behind)
          mid.xs
          (subst (λ l. IsStore w.mem g.free_list (blk a s detached ∷ l) mid.xs)
            (around-snoc before ps c qs behind) mid.store) in
      let c_listed =
        subst (λ x. IsStore w.mem g.free_list (x ∷ blk a s detached ∷ others) mid.xs) is_c
          c_first in
      Ends-continue
        (remove-detached w g.free_list c.addr c.size (blk a s detached ∷ others) mid.xs c_listed)
        λ list w1 l.
          let pair =
            subst
              (λ x.
                IsStore w1.mem list (blk c.addr c.size detached ∷ blk x s detached ∷ others) l.xs)
              (sym next) l.store in
          let merge_ends =
            subst
              (λ x.
                Ends
                  (λ u w2.
                    IsStore w2.mem list (blk c.addr (c.size + 32 + s) detached ∷ others) l.xs
                    × Spares
                        (blk c.addr c.size detached
                          ∷ blk (c.addr + 32 + c.size) s detached
                          ∷ others)
                        (blk c.addr (c.size + 32 + s) detached ∷ others) w1.mem w2.mem
                    × (w2.process ≡ w1.process))
                  (merge c.addr x w1))
              next
              (merge-IsStore w1 list c.addr c.size s detached others l.xs pair detached-listed) in
          Ends-continue merge_ends λ u w2 (store, spares, kept). ends (record {
            block = refl;
            mid = record {
              xs = l.xs;
              store = store;
              layout =
                  IsLayout-part g (with_list g list) before arena
                    ((ps ++ c ∷ []) ++ blk a s detached ∷ qs)
                    (ps ++ blk c.addr (c.size + 32 + s) detached ∷ qs) behind refl
                    (Tiles-join arena.base ps (blk c.addr (c.size + 32 + s) detached) qs
                      (arena.base + arena.used) front
                      (subst (λ x. Tiles x qs (arena.base + arena.used)) further back))
                    mid.layout;
            };
            kept = record {
              spares = record {
                byte = λ x h.
                    let h' : All (Foreign x)
                        ((blk a s detached ∷ (bag before ++ ps)) ++ c ∷ (qs ++ bag behind)) =
                      (h.0, subst (All (Foreign x)) (around-snoc before ps c qs behind) h.1) in
                    let (f, fs) =
                      All-front (blk a s detached ∷ (bag before ++ ps)) c (qs ++ bag behind)
                        (Foreign x) h' in
                    let f' =
                      Foreign-rekind x c.addr c.size listed detached listed-in_use
                        (subst (Foreign x) is_c f) in
                    let (e1, _) = l.spares.byte x (f', fs) in
                    let (e2, after) =
                      spares.byte x
                        (f', (subst (λ y. Foreign x (blk y s detached)) (sym next) fs.0, fs.1)) in
                    (e2 ∙ e1, after);
              };
              arenas = refl;
              arena_size = refl;
              process = kept ∙ l.process;
            };
          })

  pub coalesce_left-widened :
      (ps : List Blk)
      → Middle w g before arena ps a s qs behind
      → All IsAssigned ps
      → Ends
          (Widened g w
            (blk a s detached ∷ around before ps qs behind)
            before
            arena
            (widened a s ps)
            qs
            behind)
          (coalesce_left g a w)
  unfolding coalesce_left
  coalesce_left-widened ps mid assigned =
      let found =
        left_neighbor_if_free-left_of w g before behind arena ps (blk a s detached) qs mid.layout
          (Middle-goods mid) in
      elim (snoc_cases ps) [
        | inl e ↦
            let none_left : left_of ps ≡ null = ap left_of e in
            let stays : widened a s ps ≡ (a, s, ps) = rw e refl in
            rw (found, none_left, stays)
              (ends (record { block = refl; mid = mid; kept = Kept-refl }))
        | inr (ps', c, e) ↦
            let last : left_of ps ≡ taken_if_free c = ap left_of e ∙ left_of-snoc ps' c in
            let mid' = subst (λ l. Middle w g before arena l a s qs behind) e mid in
            let assigned' : IsAssigned c =
              (All-right IsAssigned ps' (c ∷ []) (rw e at assigned)).0 in
            elim (Bool-cases (flag c.kind)) [
              | inl f ↦
                  let (all_front, back) = Middle-Tiles mid' in
                  let good_c =
                    All-right (IsGood w.mem) (bag before ++ ps') (c ∷ (qs ++ bag behind)) (
                      subst (λ l. All (IsGood w.mem) l) (around-snoc before ps' c qs behind)
                        mid'.store.good.1) in
                  let pos = good_c.0.pos in
                  let nonnull : (c.addr == 0) ≡ false = ==_of_ne c.addr 0 (omega arith) in
                  let grew : widened a s ps ≡ (c.addr, c.size + 32 + s, ps') =
                    rw e (widened-free a s ps' c f) in
                  rw (found, last, f, nonnull, grew)
                    (Ends-weaken (merged ps' c mid' assigned' f) λ out w' m. record {
                      block = m.block;
                      mid = m.mid;
                      kept =
                          subst
                            (λ l.
                              Kept (blk a s detached ∷ around before l qs behind)
                                (blk c.addr (c.size + 32 + s) detached
                                  ∷ around before ps' qs behind)
                                g w out.1 w')
                            (sym e) m.kept;
                    })
              | inr f ↦
                  let stays : widened a s ps ≡ (a, s, ps) = rw e (widened-taken a s ps' c f) in
                  rw (found, last, f, stays)
                    (ends (record { block = refl; mid = mid; kept = Kept-refl }))
            ]
      ]
