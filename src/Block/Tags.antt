-- ===== src/Block/Tags.antt =====
-- The boundary tags: sizes and flags survive their encoding, and neighbours find one another.
use custom_memory_allocator.Base.{
  ℕ, ◌+◌, ◌*◌, ◌/◌, ◌%◌, ◌^◌, ◌<◌, ◌≡◌, refl, ap, ◌∙◌, Bool, true, false, arith, ==_of_eq, sub64,
}
use custom_memory_allocator.Memory.{Memory, read_word, write_word}
use custom_memory_allocator.Memory.Access.{read_word-write_word, write_word-write_self}
use custom_memory_allocator.Block.{
  get_size, is_free, set_size, set_free, construct, footer, footer_in_sync, preceding_footer,
  next_physical_header, header_from_footer,
}

-- The header's word of a block with this payload size and flag.
abbrev pub tag : ℕ → Bool → ℕ
tag size true = size + 1
tag size false = size

module _ (m : Memory) (block size : ℕ) (even : size % 2 ≡ 0) where
  pub get_size_of_tag : (free : Bool) → read_word m block ≡ tag size free → get_size m block ≡ size
  unfolding get_size
  get_size_of_tag true e = ground arith
  get_size_of_tag false e = ground arith

  pub is_free_of_tag : (free : Bool) → read_word m block ≡ tag size free → is_free m block ≡ free
  unfolding is_free
  is_free_of_tag true e = ground arith
  is_free_of_tag false e = ground arith

  pub set_size-tag :
      (free : Bool) (old : ℕ)
      → old % 2 ≡ 0
      → read_word m block ≡ tag old free
      → set_size block size m ≡ write_word m block (tag size free)
  unfolding set_size
  set_size-tag true old h e = ap (write_word m block) (rw e (omega arith))
  set_size-tag false old h e = ap (write_word m block) (rw e (omega arith))

  pub set_free-tag :
      (free free' : Bool)
      → read_word m block ≡ tag size free
      → set_free block free' m ≡ write_word m block (tag size free')
  unfolding set_free
  set_free-tag true true e = ap (write_word m block) (rw e (omega arith))
  set_free-tag true false e = ap (write_word m block) (rw e (omega arith))
  set_free-tag false true e = ap (write_word m block) (rw e (omega arith))
  set_free-tag false false e = ap (write_word m block) (rw e (omega arith))

-- After set_size of a word, the header's size is that word less its lowest bit, and the flag is as
-- before, for any word that was there.
set_size_reads :
    (m : Memory) (block size : ℕ)
    → size < 2 ^ 64
    → (get_size (set_size block size m) block ≡ size / 2 * 2)
      × (is_free (set_size block size m) block ≡ is_free m block)
unfolding get_size is_free set_size
set_size_reads m block size lt =
    let got : read_word (set_size block size m) block ≡ size / 2 * 2 + read_word m block % 2 =
      read_word-write_word m block _ (omega arith) in
    (rw got (omega arith), rw got (ground arith))

-- After set_free the flag is the one given and the size is as before, for any word that was there.
pub set_free_reads :
    (m : Memory) (block : ℕ) (free : Bool)
    → read_word m block < 2 ^ 64
    → (is_free (set_free block free m) block ≡ free)
      × (get_size (set_free block free m) block ≡ get_size m block)
unfolding get_size is_free set_free
set_free_reads m block true lt =
    let got : read_word (set_free block true m) block ≡ read_word m block / 2 * 2 + 1 =
      read_word-write_word m block _ (omega arith) in
    (rw got (ground arith), rw got (omega arith))
set_free_reads m block false lt =
    let got : read_word (set_free block false m) block ≡ read_word m block / 2 * 2 =
      read_word-write_word m block _ (omega arith) in
    (rw got (ground arith), rw got (omega arith))

-- The constructor, for an even size below 2 ^ 64, writes size and flag as one word over whatever
-- was there, and changes nothing else.
pub construct-tag :
    (m : Memory) (block size : ℕ) (free : Bool)
    → size % 2 ≡ 0
    → size < 2 ^ 64
    → construct block size free m ≡ write_word m block (tag size free)
unfolding construct
construct-tag m block size free even lt =
    let blank : read_word (write_word m block 0) block ≡ tag 0 false =
      read_word-write_word m block 0 (omega arith) in
    let sized : set_size block size (write_word m block 0) ≡ write_word m block size =
      set_size-tag _ block size even false 0 refl blank ∙ write_word-write_self m block 0 size in
    ap (set_free block free) sized
    ∙ set_free-tag (write_word m block size) block size even false free
        (read_word-write_word m block size lt)
    ∙ write_word-write_self m block size (tag size free)

-- What the tags of a block say: its payload size, at both ends, and whether it is free.
pub record IsBlock (m : Memory) (block size : ℕ) (free : Bool) : Type 0 where
  pub head_tag : read_word m block ≡ tag size free
  pub foot_tag : read_word m (block + 16 + size) ≡ size
  pub aligned : size % 16 ≡ 0

module _ {m : Memory} {block size : ℕ} {free : Bool} (b : IsBlock m block size free) where
  IsBlock-even : size % 2 ≡ 0
  IsBlock-even = omega (arith, b.aligned)

  pub IsBlock-get_size : get_size m block ≡ size
  IsBlock-get_size = get_size_of_tag m block size IsBlock-even free b.head_tag

  pub IsBlock-is_free : is_free m block ≡ free
  IsBlock-is_free = is_free_of_tag m block size IsBlock-even free b.head_tag

  pub IsBlock-footer : footer m block ≡ block + 16 + size
  unfolding footer
  IsBlock-footer = rw IsBlock-get_size refl

  pub IsBlock-next : next_physical_header m block ≡ block + 32 + size
  unfolding next_physical_header
  IsBlock-next = rw IsBlock-footer (omega arith)

  pub IsBlock-in_sync : footer_in_sync m block ≡ true
  unfolding footer_in_sync
  IsBlock-in_sync = rw (IsBlock-footer, IsBlock-get_size) (==_of_eq _ _ b.foot_tag)

  -- From the header behind a block, the preceding footer leads back to the block.
  pub header_from_footer-next :
      block + 32 + size < 2 ^ 64
      → header_from_footer m (preceding_footer (next_physical_header m block)) ≡ block
  unfolding header_from_footer preceding_footer
  header_from_footer-next room =
      let foot : sub64 (block + 32 + size) 16 ≡ block + 16 + size = omega arith in
      rw (IsBlock-next, foot, b.foot_tag) (omega arith)
