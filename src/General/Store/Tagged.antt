-- ===== src/General/Store/Tagged.antt =====
-- What the two tag words of a block look like once a header has been set and its footer synced.
use custom_memory_allocator.Base.{
  ℕ, ◌+◌, ◌<◌, ◌^◌, ◌%◌, ◌≡◌, ◌≤◌, ◌⊎◌, inl, inr, refl, ap, ◌∙◌, Bool, true, false, arith,
}
use custom_memory_allocator.Memory.{Memory, write_word}
use custom_memory_allocator.Memory.Access.{
  read_word-write_word, read_word-write_other, write_word-outside,
}
use custom_memory_allocator.Block.{set_size, construct, sync_footer, footer}
use custom_memory_allocator.Block.Tags.{tag, IsBlock, get_size_of_tag, set_size-tag, construct-tag}
use custom_memory_allocator.General.Store.{Kind, blk, Foreign, SameBut}

abbrev pub tagged : Memory → ℕ → ℕ → Bool → Memory
tagged m a n free = write_word (write_word m a (tag n free)) (a + 16 + n) n

pub tag_fits : (n : ℕ) (free : Bool) → n + 1 < 2 ^ 64 → tag n free < 2 ^ 64
tag_fits n true lt = lt
tag_fits n false lt = omega arith

module _ (m : Memory) (a n : ℕ) (free : Bool) (aligned : n % 16 ≡ 0) (lt : n + 1 < 2 ^ 64) where
  pub tagged-IsBlock : IsBlock (tagged m a n free) a n free
  tagged-IsBlock = record {
    head_tag =
        read_word-write_other (write_word m a (tag n free)) (a + 16 + n) n a (omega arith)
        ∙ read_word-write_word m a (tag n free) (tag_fits n free lt);
    foot_tag = read_word-write_word (write_word m a (tag n free)) (a + 16 + n) n (omega arith);
    aligned = aligned;
  }

  pub tagged-SameBut : SameBut a (a + 32 + n) m (tagged m a n free)
  tagged-SameBut b out =
      write_word-outside (write_word m a (tag n free)) (a + 16 + n) n b (ground arith)
      ∙ write_word-outside m a (tag n free) b (ground arith)

  -- Only the two words change.
  pub tagged-same :
      (b : ℕ)
      → (b < a) ⊎ (a + 8 ≤ b)
      → (b < a + 16 + n) ⊎ (a + 24 + n ≤ b)
      → tagged m a n free b ≡ m b
  tagged-same b head foot =
      write_word-outside (write_word m a (tag n free)) (a + 16 + n) n b (ground arith)
      ∙ write_word-outside m a (tag n free) b head

  pub tagged-Foreign : (k : Kind) (b : ℕ) → Foreign b (blk a n k) → tagged m a n free b ≡ m b
  tagged-Foreign k b (inl h) = tagged-same b (inl h) (inl (omega arith))
  tagged-Foreign k b (inr (inl h)) = tagged-same b (inr (omega arith)) (inr (omega arith))
  tagged-Foreign k b (inr (inr (e, lo, hi))) = tagged-same b (inr (omega arith)) (inl (omega arith))

  -- The footer is synced to the header's word.
  sync_footer-tag : sync_footer a (write_word m a (tag n free)) ≡ tagged m a n free
  unfolding sync_footer footer
  sync_footer-tag =
      let got =
        get_size_of_tag (write_word m a (tag n free)) a n (omega arith) free
          (read_word-write_word m a (tag n free) (tag_fits n free lt)) in
      rw got refl

  pub construct-tagged : sync_footer a (construct a n free m) ≡ tagged m a n free
  construct-tagged =
      ap (sync_footer a) (construct-tag m a n free (omega arith) (omega arith)) ∙ sync_footer-tag

  pub set_size-tagged :
      (old : ℕ) → IsBlock m a old free → sync_footer a (set_size a n m) ≡ tagged m a n free
  set_size-tagged old b =
      ap (sync_footer a)
        (set_size-tag m a n (omega arith) free old (omega (arith, b.aligned)) b.head_tag)
      ∙ sync_footer-tag
