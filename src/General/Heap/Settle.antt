-- ===== src/General/Heap/Settle.antt =====
-- After both steps of coalescing, neither neighbour of the block is free.
use custom_memory_allocator.Base.{
  ℕ, ◌≡◌, ◌≢◌, false, List, [], ◌∷◌, ◌++◌, All, All-left, All-right, inl, inr, Bool-cases,
  snoc_cases,
}
use custom_memory_allocator.General.Store.{Kind, in_use, listed, detached, flag, Blk}
use custom_memory_allocator.General.Heap.{Settled, IsAssigned}
use custom_memory_allocator.General.Heap.Middle.{listed_if_free}
use custom_memory_allocator.General.Heap.CoalesceRight.{grown}
use custom_memory_allocator.General.Heap.CoalesceLeft.{widened, widened-free, widened-taken}

abbrev pub HeadBusy : List Blk → Type 0
HeadBusy [] = Unit {0}
HeadBusy (c ∷ qs) = c.kind ≢ listed

abbrev pub LastBusy : List Blk → Type 0
LastBusy [] = Unit {0}
LastBusy (c ∷ []) = c.kind ≢ listed
LastBusy (c ∷ d ∷ ps) = LastBusy (d ∷ ps)

pub Settled-tail : (c : Blk) (qs : List Blk) → Settled (c ∷ qs) → Settled qs
Settled-tail c [] s = tt
Settled-tail c (d ∷ qs) s = s.1

pub Settled-right : (ps qs : List Blk) → Settled (ps ++ qs) → Settled qs
Settled-right [] qs s = s
Settled-right (p ∷ ps) qs s = Settled-right ps qs (Settled-tail p (ps ++ qs) s)

pub Settled-left : (ps qs : List Blk) → Settled (ps ++ qs) → Settled ps
Settled-left [] qs s = tt
Settled-left (p ∷ []) qs s = tt
Settled-left (p ∷ q ∷ ps) qs s = (s.0, Settled-left (q ∷ ps) qs s.1)

-- A block between two that are not free.
pub Settled-join :
    (ps : List Blk) (b : Blk) (qs : List Blk)
    → Settled ps
    → LastBusy ps
    → Settled qs
    → HeadBusy qs
    → Settled (ps ++ b ∷ qs)
Settled-join [] b [] s l t h = tt
Settled-join [] b (c ∷ qs) s l t h = (inr h, t)
Settled-join (p ∷ []) b qs s l t h = (inl l, Settled-join [] b qs tt tt t h)
Settled-join (p ∷ q ∷ ps) b qs s l t h = (s.0, Settled-join (q ∷ ps) b qs s.1 l t h)

Settled-snoc_free :
    (ps : List Blk) (c : Blk) → c.kind ≡ listed → Settled (ps ++ c ∷ []) → LastBusy ps
Settled-snoc_free [] c e s = tt
Settled-snoc_free (p ∷ []) c e (inl n, s) = n
Settled-snoc_free (p ∷ []) c e (inr n, s) = absurd (n e)
Settled-snoc_free (p ∷ q ∷ ps) c e s = Settled-snoc_free (q ∷ ps) c e s.1

LastBusy-snoc : (ps : List Blk) (c : Blk) → c.kind ≢ listed → LastBusy (ps ++ c ∷ [])
LastBusy-snoc [] c n = n
LastBusy-snoc (p ∷ []) c n = n
LastBusy-snoc (p ∷ q ∷ ps) c n = LastBusy-snoc (q ∷ ps) c n

busy_of_flag : (k : Kind) → flag k ≡ false → k ≢ listed
busy_of_flag in_use e f = cc
busy_of_flag listed e f = cc
busy_of_flag detached e f = cc

pub grown-HeadBusy :
    (s : ℕ) (qs : List Blk)
    → All IsAssigned qs
    → Settled qs
    → Settled (grown s qs).1 × HeadBusy (grown s qs).1 × All IsAssigned (grown s qs).1
grown-HeadBusy s [] a t = (tt, tt, tt)
grown-HeadBusy s (c ∷ qs) a t = elim (Bool-cases (flag c.kind)) [
  | inl e ↦ rw e (Settled-tail c qs t, busy_next c qs (listed_if_free c.kind a.0 e) t, a.1)
  | inr e ↦ rw e (t, busy_of_flag c.kind e, a)
]
  where
    busy_next : (c : Blk) (qs : List Blk) → c.kind ≡ listed → Settled (c ∷ qs) → HeadBusy qs
    busy_next c [] e t = tt
    busy_next c (d ∷ qs) e (inl n, t) = absurd (n e)
    busy_next c (d ∷ qs) e (inr n, t) = n

pub widened-LastBusy :
    (a s : ℕ) (ps : List Blk)
    → All IsAssigned ps
    → Settled ps
    → Settled (widened a s ps).2 × LastBusy (widened a s ps).2 × All IsAssigned (widened a s ps).2
widened-LastBusy a s ps assigned t = elim (snoc_cases ps) [
  | inl e ↦ rw e (tt, tt, tt)
  | inr (ps', c, e) ↦
      let assigned' : All IsAssigned (ps' ++ c ∷ []) = rw e at assigned in
      let t' : Settled (ps' ++ c ∷ []) = rw e at t in
      let ones = All-right IsAssigned ps' (c ∷ []) assigned' in
      elim (Bool-cases (flag c.kind)) [
        | inl f ↦
            rw (e, widened-free a s ps' c f)
              (
                Settled-left ps' (c ∷ []) t',
                Settled-snoc_free ps' c (listed_if_free c.kind ones.0 f) t',
                All-left IsAssigned ps' (c ∷ []) assigned',
              )
        | inr f ↦
            rw (e, widened-taken a s ps' c f)
              (t', LastBusy-snoc ps' c (busy_of_flag c.kind f), assigned')
      ]
]
