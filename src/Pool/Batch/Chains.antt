-- ===== src/Pool/Batch/Chains.antt =====
-- Chains that grow at their end, and slots whose headers are written while they are used.
use mathlib.Core.List.{append_assoc}
use custom_memory_allocator.Base.{
  ℕ, ◌≤◌, ◌<◌, ◌^◌, ◌≡◌, sym, subst, ◌∙◌, null, List, [], ◌∷◌, ◌++◌, arith, All, All-left,
  All-right, All-of_In, In, head_or, last_or, length, head_or-append, Spaced, AllSpaced,
  AllSpaced-drop,
}
use custom_memory_allocator.Memory.{Memory, read_word, write_word}
use custom_memory_allocator.Memory.Access.{
  read_word-write_word, read_word-write_other, read_word-agree,
}
use custom_memory_allocator.Run.{World}
use custom_memory_allocator.Pool.{Pool, SlotBatch}
use custom_memory_allocator.Pool.Slots.{IsStock, IsPlaced, Chain, Chain-write}
use custom_memory_allocator.Pool.Restock.{SameAt, Chain-same}
use custom_memory_allocator.Pool.Spared.{Spared}

pub Chain-append :
    (m : Memory) (stop : ℕ) (xs ys : List ℕ)
    → Chain m (head_or stop ys) xs
    → Chain m stop ys
    → Chain m stop (xs ++ ys)
Chain-append m stop [] ys c d = d
Chain-append m stop (x ∷ xs) ys (pos, low, link, rest) d =
    (pos, low, link ∙ sym (head_or-append stop xs ys), Chain-append m stop xs ys rest d)

pub Chain-left :
    (m : Memory) (stop : ℕ) (xs ys : List ℕ)
    → Chain m stop (xs ++ ys)
    → Chain m (head_or stop ys) xs
Chain-left m stop [] ys c = tt
Chain-left m stop (x ∷ xs) ys (pos, low, link, rest) =
    (pos, low, link ∙ head_or-append stop xs ys, Chain-left m stop xs ys rest)

pub Chain-right :
    (m : Memory) (stop : ℕ) (xs ys : List ℕ) → Chain m stop (xs ++ ys) → Chain m stop ys
Chain-right m stop [] ys c = c
Chain-right m stop (x ∷ xs) ys (pos, low, link, rest) = Chain-right m stop xs ys rest

-- The last slot of a chain gets a successor.
pub Chain-extend :
    (m : Memory) (s z gap : ℕ)
    → 8 ≤ gap
    → (zs : List ℕ) → s < 2 ^ 64
    → 0 < s
    → All (Spaced gap z) zs
    → Spaced gap z s
    → read_word m s ≡ 0
    → Chain m null (zs ++ z ∷ [])
    → Chain (write_word m z s) null ((zs ++ z ∷ []) ++ s ∷ [])
Chain-extend m s z gap wide zs low pos before next link c =
    let (z_pos, z_low, _, _) = Chain-right m null zs (z ∷ []) c in
    let rest = Chain-left m null zs (z ∷ []) c in
    let e = append_assoc zs (z ∷ []) (s ∷ []) in
    subst (Chain (write_word m z s) null) (sym e) (
      Chain-append (write_word m z s) null zs (z ∷ s ∷ [])
        (Chain-write m z s gap wide z zs before rest)
        (
          z_pos,
          z_low,
          read_word-write_word m z s low,
          (pos, low, read_word-write_other m z s s (ground arith) ∙ link, tt),
        ))

-- A chain of used slots stays.
pub Chain-Spared :
    (used : List ℕ) (pool pool' : Pool) (w w' : World) (xs : List ℕ)
    → 8 ≤ pool.slot_total_size
    → Spared used pool w pool' w'
    → ((x : ℕ) → In x xs → In x used)
    → Chain w.mem null xs
    → Chain w'.mem null xs
Chain-Spared used pool pool' w w' xs wide s sub c =
    Chain-same w.mem w'.mem null xs
      (All-of_In (SameAt w.mem w'.mem) xs (λ x at.
        read_word-agree w.mem w'.mem x (λ b lo hi. s.used_same x b (sub x at) lo (omega arith))))
      c

-- Where a used slot stands among the others.
pub slot_near :
    (m : Memory) (pool : Pool) (free before : List ℕ) (z : ℕ) (after : List ℕ)
    → IsStock m pool free (before ++ z ∷ after)
    → (0 < z)
      × IsPlaced pool z
      × All (Spaced pool.slot_total_size z) free
      × All (Spaced pool.slot_total_size z) before
      × All (Spaced pool.slot_total_size z) after
slot_near m pool free before z after i =
    let e = sym (append_assoc free before (z ∷ after)) in
    let spaced = subst (AllSpaced pool.slot_total_size) e i.spaced in
    let (near, _) = AllSpaced-drop _ (free ++ before) z after spaced in
    let placed = subst (All (IsPlaced pool)) e i.placed in
    let at : IsPlaced pool z = (All-right (IsPlaced pool) (free ++ before) (z ∷ after) placed).0 in
    let (pos, _, _, _) = at in
    let left = All-left (Spaced pool.slot_total_size z) (free ++ before) after near in
    (
      pos,
      at,
      All-left _ free before left,
      All-right _ free before left,
      All-right _ (free ++ before) after near,
    )

-- The header of a used slot is nothing to the pool.
pub retag-IsStock :
    (m : Memory) (pool : Pool) (free before : List ℕ) (z : ℕ) (after : List ℕ) (v : ℕ)
    → IsStock m pool free (before ++ z ∷ after)
    → IsStock (write_word m z v) pool free (before ++ z ∷ after)
retag-IsStock m pool free before z after v i =
    let (_, _, near, _, _) = slot_near m pool free before z after i in
    record {
      total = i.total;
      payload = i.payload;
      head = i.head;
      chain =
          Chain-write m z v pool.slot_total_size (omega (arith, i.total)) null free near i.chain;
      spaced = i.spaced;
      placed = i.placed;
      full = i.full;
    }

-- The batch is the chain of the slots `xs`.
pub record IsBatch (m : Memory) (batch : SlotBatch) (xs : List ℕ) : Type 0 where
  pub head : batch.head ≡ head_or null xs
  pub tail : batch.tail ≡ last_or null xs
  pub count : batch.count ≡ length xs
  pub chain : Chain m null xs

pub IsBatch-Spared :
    (used : List ℕ) (pool pool' : Pool) (w w' : World) (batch : SlotBatch) (xs : List ℕ)
    → 8 ≤ pool.slot_total_size
    → Spared used pool w pool' w'
    → ((x : ℕ) → In x xs → In x used)
    → IsBatch w.mem batch xs
    → IsBatch w'.mem batch xs
IsBatch-Spared used pool pool' w w' batch xs wide s sub b = record {
  head = b.head;
  tail = b.tail;
  count = b.count;
  chain = Chain-Spared used pool pool' w w' xs wide s sub b.chain;
}
