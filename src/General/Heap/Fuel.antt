-- ===== src/General/Heap/Fuel.antt =====
-- There are no more listed blocks than bytes carved, so the walk along the free list has enough fuel.
use custom_memory_allocator.Base.{
  ℕ, ◌+◌, ◌≤◌, ◌<◌, ◌≢◌, refl, ap, List, [], ◌∷◌, ◌++◌, All, In, In-All, In-split, In-append_left,
  In-append_right, In-append_cases, inl, inr, arith, length, length-append,
}
use custom_memory_allocator.Run.{World}
use custom_memory_allocator.FreeList.Links.{Clear, Apart}
use custom_memory_allocator.General.{General, carved}
use custom_memory_allocator.General.Store.{listed, Blk, blk}
use custom_memory_allocator.General.Heap.{Part, bag, arenas_of, Tiles, PartTiles, IsHeap}

-- The block of another address stands among the rest.
other_block :
    (ps qs : List Blk) (x y s t : ℕ)
    → y ≢ x
    → In (blk y t listed) (ps ++ blk x s listed ∷ qs)
    → In (blk y t listed) (ps ++ qs)
other_block ps qs x y s t ne i =
    elim (In-append_cases ps (blk x s listed ∷ qs) (blk y t listed) i) [
      | inl j ↦ In-append_left ps qs (blk y t listed) j
      | inr (inl e) ↦ absurd (ne (ap (λ b. b.addr) e))
      | inr (inr j) ↦ In-append_right ps qs (blk y t listed) j
    ]

Clear-ne : (x y : ℕ) (xs : List ℕ) → All (Clear x) xs → In y xs → y ≢ x
Clear-ne x y xs clear i e = let c = In-All (Clear x) xs y i clear in ground arith

length-listed-le :
    (xs : List ℕ) (bs : List Blk)
    → Apart xs
    → ((x : ℕ) → In x xs → (s : ℕ) × In (blk x s listed) bs)
    → length xs ≤ length bs
length-listed-le [] bs apart only = omega arith
length-listed-le (x ∷ xs) bs apart only =
    let (s, at) = only x (inl refl) in
    let (ps, qs, e) = In-split bs (blk x s listed) at in
    let fewer = length-listed-le xs (ps ++ qs) apart.1 λ y i.
      let (t, j) = only y (inr i) in
      (t, other_block ps qs x y s t (Clear-ne x y xs apart.0 i) (rw e at j)) in
    let l1 = length-append ps (blk x s listed ∷ qs) in
    let l2 = length-append ps qs in rw e (omega arith)

length-Tiles : (lo : ℕ) (bs : List Blk) (hi : ℕ) → Tiles lo bs hi → lo + length bs ≤ hi
length-Tiles lo [] hi t = omega arith
length-Tiles lo (b ∷ bs) hi t = let le = length-Tiles (lo + 32 + b.size) bs hi t.1 in omega arith

length-bag :
    (parts : List Part) → All PartTiles parts → length (bag parts) ≤ carved (arenas_of parts)
unfolding carved
length-bag [] t = omega arith
length-bag (p ∷ parts) t =
    let l = length-append p.blocks (bag parts) in
    let here = length-Tiles p.arena.base p.blocks (p.arena.base + p.arena.used) t.0 in
    let rest = length-bag parts t.1 in omega arith

-- On a heap that is whole the general path gives the walk more rounds than there are listed blocks.
pub carved_enough :
    (w : World) (g : General) (parts : List Part) (heap : IsHeap w g parts)
    → length heap.xs < carved g.arenas + 1
carved_enough w g parts heap =
    let fewer =
      length-listed-le heap.xs (bag parts) heap.store.free_list.apart heap.store.only_free in
    let bytes = length-bag parts heap.layout.tiles in rw heap.layout.arenas (omega arith)
