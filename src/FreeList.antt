-- ===== src/FreeList.antt =====
-- include/free_list.hpp and src/free_list.cpp: the intrusive doubly linked list of free blocks. The
-- object is its `head_`; the links lie in the payload of each listed block.
pub mod Links
pub mod Insert
pub mod Remove
pub mod Search
use custom_memory_allocator.Base.{ℕ, zero, suc, ◌+◌, Bool, not, null, leb, ◌==◌, if◌then◌else◌}
use custom_memory_allocator.Memory.{Memory, read_word, write_word}
use custom_memory_allocator.Run.{Cmd, out_of_fuel, check, reads, writes, pure, ◌>>=◌, ◌>>◌}
use custom_memory_allocator.Block.{get_size, is_free, free_list_links}

pub record FreeList : Type 0 where
  pub head : ℕ

abbrev pub free_list_at : ℕ → FreeList
free_list_at p = record { head = p }

-- The two fields of a FreeListLinks.
abbrev pub next_at : ℕ → ℕ
next_at links = links

abbrev pub prev_at : ℕ → ℕ
prev_at links = links + 8

abbrev pub set_next : ℕ → ℕ → Cmd (Unit {0})
set_next links p = writes λ m. write_word m (next_at links) p

abbrev pub set_prev : ℕ → ℕ → Cmd (Unit {0})
set_prev links p = writes λ m. write_word m (prev_at links) p

-- `assert(block != nullptr); assert(block->is_free());`
unfoldable pub check_free_block : ℕ → Cmd (Unit {0})
check_free_block block = do
  check (not (block == null))
  free ← reads λ m. is_free m block
  check free

unfoldable pub insert : FreeList → ℕ → Cmd FreeList
insert list block = do
  check_free_block block
  links ← free_list_links block
  set_prev links null
  set_next links list.head
  (if list.head == null
      then pure tt
      else do head_links ← free_list_links list.head; set_prev head_links block)
  pure (free_list_at block)

-- The list's head after the node before `block` has been told to skip it.
unfoldable pub unlink_before : FreeList → (prev next : ℕ) → Cmd FreeList
unlink_before list prev next =
    if prev == null
    then pure (free_list_at next)
    else do prev_links ← free_list_links prev; set_next prev_links next; pure list

unfoldable pub unlink_after : (prev next : ℕ) → Cmd (Unit {0})
unlink_after prev next =
    if next == null then pure tt else do next_links ← free_list_links next; set_prev next_links prev

unfoldable pub remove : FreeList → ℕ → Cmd FreeList
remove list block = do
  check_free_block block
  links ← free_list_links block
  prev ← reads λ m. read_word m (prev_at links)
  next ← reads λ m. read_word m (next_at links)
  list' ← unlink_before list prev next
  next' ← reads λ m. read_word m (next_at links)
  prev' ← reads λ m. read_word m (prev_at links)
  unlink_after prev' next'
  set_next links null
  set_prev links null
  pure list'

-- The walks along the list. One round of fuel for each node and one for the end are enough.
fit_from : ℕ → ℕ → ℕ → Cmd ℕ
fit_from zero size block = λ _. out_of_fuel
fit_from (suc k) size block = if block == null then pure null else do
  s ← reads λ m. get_size m block
  if leb size s then pure block else do
    links ← free_list_links block
    next ← reads λ m. read_word m (next_at links)
    fit_from k size next

unfoldable pub find_first_fit : ℕ → FreeList → ℕ → Cmd ℕ
unfolding fit_from
find_first_fit fuel list size = fit_from fuel size list.head

unfoldable pub empty : FreeList → Bool
empty list = list.head == null

count_from : ℕ → ℕ → ℕ → Cmd ℕ
count_from zero count block = λ _. out_of_fuel
count_from (suc k) count block = if block == null then pure count else do
  links ← free_list_links block
  next ← reads λ m. read_word m (next_at links)
  count_from k (count + 1) next

unfoldable pub size : ℕ → FreeList → Cmd ℕ
unfolding count_from
size fuel list = count_from fuel 0 list.head
