-- ===== src/FreeList/Insert.antt =====
-- FreeList::insert puts a block in front.
use custom_memory_allocator.Base.{
  ℕ, ◌+◌, ◌<◌, ◌^◌, ◌≡◌, refl, ap, ◌∙◌, true, false, null, List, [], ◌∷◌, arith, All, head_or, ◌==◌,
  ==_of_ne,
}
use custom_memory_allocator.Memory.{Memory, read_word, write_word}
use custom_memory_allocator.Run.{World}
use custom_memory_allocator.Run.Ends.{Ends, ends}
use custom_memory_allocator.Block.{is_free}
use custom_memory_allocator.FreeList.{FreeList, free_list_at, insert}
use custom_memory_allocator.FreeList.Links.{
  links_done, check_done, IsNode, IsNode-set_next, IsNode-set_prev, IsNode-frame, Links,
  Links-frame, Clear, Apart, IsFreeList, SameOutside, SameNode, SameNode-write, SameNode-write-All,
  SameNode-trans-All, links-write_outside,
}

-- A block that may enter the list.
pub record IsFresh (m : Memory) (block : ℕ) (xs : List ℕ) : Type 0 where
  pub pos : 0 < block
  pub fits : block < 2 ^ 64
  pub free : is_free m block ≡ true
  pub clear : All (Clear block) xs

-- A fresh block is a node, whatever its links hold.
IsFresh-IsNode :
    {m : Memory} {block : ℕ} {xs : List ℕ}
    → IsFresh m block xs
    → IsNode m (read_word m (block + 16 + 8)) (read_word m (block + 16)) block
IsFresh-IsNode f = record {
  pos = f.pos;
  fits = f.fits;
  free = f.free;
  next_link = refl;
  prev_link = refl;
}

-- The new head after its own two writes.
linked_head :
    {m : Memory} {block : ℕ} {xs : List ℕ} (next : ℕ)
    → next < 2 ^ 64
    → IsFresh m block xs
    → IsNode (write_word (write_word m (block + 16 + 8) 0) (block + 16) next) 0 next block
linked_head next fits f =
    IsNode-set_next (IsNode-set_prev (IsFresh-IsNode f) 0 (omega arith)) next fits

insert-Links :
    (w : World) (block : ℕ) (xs : List ℕ)
    → IsFresh w.mem block xs
    → Links w.mem null null xs
    → Apart xs
    → Ends
        (λ list w'.
          IsFreeList w'.mem list (block ∷ xs)
          × SameOutside (block ∷ xs) w.mem w'.mem
          × (w'.process ≡ w.process))
        (insert (free_list_at (head_or null xs)) block w)
unfolding insert
insert-Links w block [] f l a =
    let m1 = write_word w.mem (block + 16 + 8) 0 in
    rw (check_done block w f.free f.pos, links_done block w f.free)
      (ends (
        record { head = refl; links = (linked_head 0 (omega arith) f, tt); apart = (tt, tt) },
        (λ b out.
            links-write_outside m1 block _ 0 b (omega arith) (omega arith) out.0
            ∙ links-write_outside w.mem block _ 0 b (omega arith) (omega arith) out.0),
        refl,
      ))
insert-Links w block (x ∷ xs) f l a =
    let m1 = write_word w.mem (block + 16 + 8) 0 in
    let m2 = write_word m1 (block + 16) x in
    let w2 : World = record { mem = m2; process = w.process } in
    let same : All (SameNode w.mem m2) (x ∷ xs) =
      SameNode-trans-All w.mem m1 m2 (x ∷ xs)
        (SameNode-write-All w.mem block _ 0 (x ∷ xs) f.clear (omega arith) (omega arith))
        (SameNode-write-All m1 block _ x (x ∷ xs) f.clear (omega arith) (omega arith)) in
    let node : IsNode m2 null (head_or null xs) x = IsNode-frame m2 same.0 l.0 in
    let nonnull : (x == 0) ≡ false = ==_of_ne x 0 (omega (arith, node.pos)) in
    let m3 = write_word m2 (x + 16 + 8) block in
    let back : Clear x block = ground (arith, f.clear) in
    let rest : All (SameNode w.mem m3) xs =
      SameNode-trans-All w.mem m2 m3 xs same.1
        (SameNode-write-All m2 x _ block xs a.0 (omega arith) (omega arith)) in
    rw
      (
        check_done block w f.free f.pos,
        links_done block w f.free,
        nonnull,
        links_done x w2 node.free,
      )
      (ends (
        record {
          head = refl;
          links = (
            IsNode-frame m3 (SameNode-write m2 x _ block block back (omega arith) (omega arith))
                (linked_head x node.fits f),
            (IsNode-set_prev node block f.fits, Links-frame w.mem m3 x null xs rest l.1),
          );
          apart = (f.clear, a);
        },
        (λ b out.
            links-write_outside m2 x _ block b (omega arith) (omega arith) out.1.0
            ∙ links-write_outside m1 block _ x b (omega arith) (omega arith) out.0
            ∙ links-write_outside w.mem block _ 0 b (omega arith) (omega arith) out.0),
        refl,
      ))

-- insert puts a free block that is clear of the listed ones in front of them, fails no assertion,
-- and writes only into the links of the block and of the listed ones.
pub insert-cons :
    (w : World) (list : FreeList) (block : ℕ) (xs : List ℕ)
    → IsFresh w.mem block xs
    → IsFreeList w.mem list xs
    → Ends
        (λ list' w'.
          IsFreeList w'.mem list' (block ∷ xs)
          × SameOutside (block ∷ xs) w.mem w'.mem
          × (w'.process ≡ w.process))
        (insert list block w)
insert-cons w list block xs f l =
    let e : list ≡ free_list_at (head_or null xs) = ap free_list_at l.head in
    rw e (insert-Links w block xs f l.links l.apart)
