-- ===== src/Examples/Stores.antt =====
-- The theorems on the general path's blocks at concrete ones.
use custom_memory_allocator.Base.{
  ◌++◌, null, List, ℕ, ◌+◌, ◌≡◌, ◌≢◌, refl, sym, ap, inl, inr, [], ◌∷◌, In, arith,
}
use custom_memory_allocator.Memory.{Memory, read_word, write_word}
use custom_memory_allocator.Run.{World, done}
use custom_memory_allocator.Run.Ends.{Ends}
use custom_memory_allocator.Block.{is_free}
use custom_memory_allocator.Block.Tags.{tag}
use custom_memory_allocator.FreeList.{free_list_at}
use custom_memory_allocator.FreeList.Links.{IsFreeList}
use custom_memory_allocator.General.{Arena, General}
use custom_memory_allocator.General.Neighbors.{right_neighbor_if_free, left_neighbor_if_free}
use custom_memory_allocator.General.Heap.{Part, part, IsLayout, IsHeap}
use custom_memory_allocator.General.Heap.Adjacent.{
  right_neighbor_if_free-right_of, left_neighbor_if_free-left_of,
}
use custom_memory_allocator.General.Heap.Middle.{Kept}
use custom_memory_allocator.General.Heap.Free.{freed, free_general-IsHeap}
use custom_memory_allocator.General.Blocks.{absorb_right_neighbor, maybe_split, free_general}
use custom_memory_allocator.General.Store.{Kind, in_use, listed, detached, flag, Blk, blk, IsStore}
use custom_memory_allocator.General.Store.Merge.{absorb_right_neighbor-Leaves}
use custom_memory_allocator.General.Store.Reuse.{in_use-listed}
use custom_memory_allocator.General.Store.Split.{after_split, maybe_split-Leaves}
use custom_memory_allocator.General.Store.Step.{Leaves}

-- One block of 128 bytes at 4096, and the same bytes as two blocks of 48.
abbrev pub one_block : Kind → World
one_block k = record {
  mem = write_word (write_word (λ a. 0) 4096 (tag 128 (flag k))) 4240 128;
  process = record { mapped = record { base = 4096; size = 4096 } ∷ []; held = [] };
}

abbrev pub two_blocks : Kind → Kind → World
two_blocks k k' = record {
  mem =
      write_word
        (write_word (write_word (write_word (λ a. 0) 4096 (tag 48 (flag k))) 4160 48) 4176
          (tag 48 (flag k')))
        4240 48;
  process = record { mapped = record { base = 4096; size = 4096 } ∷ []; held = [] };
}

abbrev general_with : ℕ → General
general_with head = record { arena_size = 4096; arenas = []; free_list = free_list_at head }

nothing_listed : (m : Memory) → IsFreeList m (free_list_at 0) []
nothing_listed m = record { head = refl; links = tt; apart = tt }

other_kind : (b : Blk) (x s : ℕ) → b.kind ≢ listed → blk x s listed ≢ b
other_kind b x s ne e = ne (ap (λ c. c.kind) (sym e))

one_listed-IsStore :
    IsStore (one_block listed).mem (free_list_at 4096) (blk 4096 128 listed ∷ []) (4096 ∷ [])
unfolding read_word write_word is_free
one_listed-IsStore = record {
  good = (
    record {
      tags = record { head_tag = refl; foot_tag = refl; aligned = refl };
      room = omega arith;
      pos = omega arith;
      low = omega arith;
      aligned = refl;
    },
    tt,
  );
  off = (tt, tt);
  free_list = record {
    head = refl;
    links = (
      record {
        pos = omega arith;
        fits = omega arith;
        free = refl;
        next_link = refl;
        prev_link = refl;
      },
      tt,
    );
    apart = (tt, tt);
  };
  only_free = one_only;
  all_free = one_all;
}
  where
    one_only : (x : ℕ) → In x (4096 ∷ []) → (s : ℕ) × In (blk x s listed) (blk 4096 128 listed ∷ [])
    one_only x (inl e) = (128, inl (rw e refl))
    one_only x (inr i) = absurd i

    one_all : (x s : ℕ) → In (blk x s listed) (blk 4096 128 listed ∷ []) → In x (4096 ∷ [])
    one_all x s (inl e) = inl (ap (λ b. b.addr) e)
    one_all x s (inr i) = absurd i

one_in_use-IsStore : IsStore (one_block in_use).mem (free_list_at 0) (blk 4096 128 in_use ∷ []) []
unfolding read_word write_word
one_in_use-IsStore = record {
  good = (
    record {
      tags = record { head_tag = refl; foot_tag = refl; aligned = refl };
      room = omega arith;
      pos = omega arith;
      low = omega arith;
      aligned = refl;
    },
    tt,
  );
  off = (tt, tt);
  free_list = nothing_listed (one_block in_use).mem;
  only_free = λ x i. absurd i;
  all_free = one_all;
}
  where
    one_all : (x s : ℕ) → In (blk x s listed) (blk 4096 128 in_use ∷ []) → In x []
    one_all x s (inl e) = other_kind (blk 4096 128 in_use) x s in_use-listed e
    one_all x s (inr i) = absurd i

right_listed-IsStore :
    IsStore
      (two_blocks in_use listed).mem
      (free_list_at 4176)
      (blk 4096 48 in_use ∷ blk 4176 48 listed ∷ [])
      (4176 ∷ [])
unfolding read_word write_word is_free
right_listed-IsStore = record {
  good = (
    record {
      tags = record { head_tag = refl; foot_tag = refl; aligned = refl };
      room = omega arith;
      pos = omega arith;
      low = omega arith;
      aligned = refl;
    },
    (
      record {
        tags = record { head_tag = refl; foot_tag = refl; aligned = refl };
        room = omega arith;
        pos = omega arith;
        low = omega arith;
        aligned = refl;
      },
      tt,
    ),
  );
  off = ((inl (omega arith), tt), (tt, tt));
  free_list = record {
    head = refl;
    links = (
      record {
        pos = omega arith;
        fits = omega arith;
        free = refl;
        next_link = refl;
        prev_link = refl;
      },
      tt,
    );
    apart = (tt, tt);
  };
  only_free = right_only;
  all_free = right_all;
}
  where
    right_only :
        (x : ℕ)
        → In x (4176 ∷ [])
        → (s : ℕ) × In (blk x s listed) (blk 4096 48 in_use ∷ blk 4176 48 listed ∷ [])
    right_only x (inl e) = (48, inr (inl (rw e refl)))
    right_only x (inr i) = absurd i

    right_all :
        (x s : ℕ)
        → In (blk x s listed) (blk 4096 48 in_use ∷ blk 4176 48 listed ∷ [])
        → In x (4176 ∷ [])
    right_all x s (inl e) = absurd (other_kind (blk 4096 48 in_use) x s in_use-listed e)
    right_all x s (inr (inl e)) = inl (ap (λ b. b.addr) e)
    right_all x s (inr (inr i)) = absurd i

maybe_split-Leaves_example :
    Ends
      (Leaves
        (general_with 0)
        (one_block in_use)
        (after_split 4096 128 48 in_use [])
        (after_split 4096 128 48 in_use []))
      (maybe_split (general_with 0) 4096 48 (one_block in_use))
maybe_split-Leaves_example =
    maybe_split-Leaves (one_block in_use) (general_with 0) 4096 128 48 in_use [] []
      one_in_use-IsStore in_use-listed refl (omega arith) (omega arith)

absorb_right_neighbor-Leaves_example :
    Ends
      (Leaves
        (general_with 4176)
        (two_blocks in_use listed)
        (blk 4096 48 in_use ∷ blk 4176 48 listed ∷ [])
        (blk 4096 (48 + 32 + 48) in_use ∷ []))
      (absorb_right_neighbor (general_with 4176) 4096 (4096 + 32 + 48) (two_blocks in_use listed))
absorb_right_neighbor-Leaves_example =
    absorb_right_neighbor-Leaves (two_blocks in_use listed) (general_with 4176) 4096 48 48 in_use []
      (4176 ∷ []) in_use-listed right_listed-IsStore

-- An arena at 4096 whose first two blocks are these.
abbrev pub first_arena : Arena
first_arena = record { base = 4096; size = 4096; used = 160 }

abbrev pub one_arena : General
one_arena = record { arena_size = 4096; arenas = first_arena ∷ []; free_list = free_list_at 4176 }

abbrev pub two_parts : List Part
two_parts = part first_arena (blk 4096 48 in_use ∷ blk 4176 48 listed ∷ []) ∷ []

two_parts-IsLayout : IsLayout one_arena two_parts
two_parts-IsLayout = record {
  arenas = refl;
  tiles = ((refl, (refl, refl)), tt);
  each = (record { pos = omega arith; aligned = refl; used = omega arith; low = omega arith }, tt);
  off = (tt, tt);
}

pub two_parts-IsHeap : IsHeap (two_blocks in_use listed) one_arena two_parts
two_parts-IsHeap = record {
  xs = 4176 ∷ [];
  store = right_listed-IsStore;
  layout = two_parts-IsLayout;
  settled = ((inl in_use-listed, tt), tt);
  assigned = ((λ e. cc), ((λ e. cc), tt));
  mapped = (inl refl, tt);
}

-- The same arena as one free block.
abbrev pub one_arena_free : General
one_arena_free = record {
  arena_size = 4096;
  arenas = first_arena ∷ [];
  free_list = free_list_at 4096;
}

pub one_part-IsHeap :
    IsHeap (one_block listed) one_arena_free (part first_arena (blk 4096 128 listed ∷ []) ∷ [])
one_part-IsHeap = record {
  xs = 4096 ∷ [];
  store = one_listed-IsStore;
  layout = record {
    arenas = refl;
    tiles = ((refl, refl), tt);
    each =
        (record { pos = omega arith; aligned = refl; used = omega arith; low = omega arith }, tt);
    off = (tt, tt);
  };
  settled = (tt, tt);
  assigned = ((λ e. cc), tt);
  mapped = (inl refl, tt);
}

free_general-IsHeap_example :
    Ends
      (λ g' w'.
        IsHeap w' g' (part first_arena (freed [] 4096 48 (blk 4176 48 listed ∷ [])) ∷ [])
        × Kept
            (blk 4096 48 detached ∷ blk 4176 48 listed ∷ [])
            (freed [] 4096 48 (blk 4176 48 listed ∷ []) ++ [])
            one_arena
            (two_blocks in_use listed)
            g'
            w')
      (free_general one_arena (4096 + 16) (two_blocks in_use listed))
free_general-IsHeap_example =
    free_general-IsHeap (two_blocks in_use listed) one_arena [] first_arena [] 4096 48
      (blk 4176 48 listed ∷ []) [] two_parts-IsHeap

right_neighbor_if_free-right_of_example :
    right_neighbor_if_free one_arena 4096 (two_blocks in_use listed)
    ≡ done 4176 (two_blocks in_use listed)
right_neighbor_if_free-right_of_example =
    right_neighbor_if_free-right_of (two_blocks in_use listed) one_arena [] [] first_arena []
      (blk 4096 48 in_use) (blk 4176 48 listed ∷ []) two_parts-IsLayout right_listed-IsStore.good

left_neighbor_if_free-left_of_example :
    left_neighbor_if_free one_arena 4176 (two_blocks in_use listed)
    ≡ done null (two_blocks in_use listed)
left_neighbor_if_free-left_of_example =
    left_neighbor_if_free-left_of (two_blocks in_use listed) one_arena [] [] first_arena
      (blk 4096 48 in_use ∷ []) (blk 4176 48 listed) [] two_parts-IsLayout right_listed-IsStore.good
