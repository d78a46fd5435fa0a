-- ===== src/Examples/Lists.antt =====
-- The theorems on the free list at concrete lists.
use custom_memory_allocator.Base.{◌≡◌, refl, inl, inr, [], ◌∷◌, arith}
use custom_memory_allocator.Memory.{read_word, write_word}
use custom_memory_allocator.Run.{World, done}
use custom_memory_allocator.Run.Ends.{Ends}
use custom_memory_allocator.Block.{is_free}
use custom_memory_allocator.FreeList.{free_list_at, insert, remove, find_first_fit}
use custom_memory_allocator.FreeList.Links.{IsFreeList, SameOutside}
use custom_memory_allocator.FreeList.Insert.{IsFresh, insert-cons}
use custom_memory_allocator.FreeList.Remove.{Removed, remove-erase}
use custom_memory_allocator.FreeList.Search.{first_fit, find_first_fit-first_fit}

-- Free blocks of 48 bytes at 0x100 and 0x200, linked in this order, and one of 64 at 0x300.
abbrev two_listed : World
two_listed = record {
  mem =
      write_word
        (write_word (write_word (write_word (write_word (λ a. 0) 0x100 49) 0x110 0x200) 0x200 49)
          0x218 0x100)
        0x300 65;
  process = record { mapped = []; held = [] };
}

two_listed-IsFreeList : IsFreeList two_listed.mem (free_list_at 0x100) (0x100 ∷ 0x200 ∷ [])
unfolding read_word write_word is_free
two_listed-IsFreeList = record {
  head = refl;
  links = (
    record {
      pos = omega arith;
      fits = omega arith;
      free = refl;
      next_link = refl;
      prev_link = refl;
    },
    (
      record {
        pos = omega arith;
        fits = omega arith;
        free = refl;
        next_link = refl;
        prev_link = refl;
      },
      tt,
    ),
  );
  apart = ((inl (omega arith), tt), (tt, tt));
}

third-IsFresh : IsFresh two_listed.mem 0x300 (0x100 ∷ 0x200 ∷ [])
unfolding read_word write_word is_free
third-IsFresh = record {
  pos = omega arith;
  fits = omega arith;
  free = refl;
  clear = (inr (omega arith), (inr (omega arith), tt));
}

insert-cons_example :
    Ends
      (λ list' w'.
        IsFreeList w'.mem list' (0x300 ∷ 0x100 ∷ 0x200 ∷ [])
        × SameOutside (0x300 ∷ 0x100 ∷ 0x200 ∷ []) two_listed.mem w'.mem
        × (w'.process ≡ two_listed.process))
      (insert (free_list_at 0x100) 0x300 two_listed)
insert-cons_example =
    insert-cons two_listed (free_list_at 0x100) 0x300 (0x100 ∷ 0x200 ∷ []) third-IsFresh
      two_listed-IsFreeList

remove-erase_example :
    Ends (Removed two_listed (0x100 ∷ []) 0x200 []) (remove (free_list_at 0x100) 0x200 two_listed)
remove-erase_example =
    remove-erase two_listed (free_list_at 0x100) (0x100 ∷ []) 0x200 [] two_listed-IsFreeList

find_first_fit-first_fit_example :
    find_first_fit 3 (free_list_at 0x100) 60 two_listed
    ≡ done (first_fit two_listed.mem 60 (0x100 ∷ 0x200 ∷ [])) two_listed
find_first_fit-first_fit_example =
    find_first_fit-first_fit two_listed 3 60 (free_list_at 0x100) (0x100 ∷ 0x200 ∷ [])
      two_listed-IsFreeList (omega arith)
