-- ===== src/Sites/Calloc.antt =====
-- my_calloc of src/allocator.cpp on a whole allocator, with thread-local caches.
use custom_memory_allocator.Base.{
  ℕ, ◌+◌, ◌*◌, ◌≤◌, ◌<◌, ◌^◌, ◌≡◌, ◌≢◌, ◌⊎◌, inl, inr, ◌∙◌, null, arith,
}
use custom_memory_allocator.Run.{World}
use custom_memory_allocator.Run.Ends.{Ends, Ends-weaken}
use custom_memory_allocator.Os.{Platform}
use custom_memory_allocator.Os.Laws.{IsKernel}
use custom_memory_allocator.ThreadCache.{pool_address}
use custom_memory_allocator.Allocator.{Allocator, Stage, my_calloc}
use custom_memory_allocator.Allocator.Calloc.{my_calloc-Calloced}
use custom_memory_allocator.Sites.{Site, pool_site, heap_site, Holds}
use custom_memory_allocator.Sites.Keep.{range_cases}
use custom_memory_allocator.Sites.Steps.{InHand}
use custom_memory_allocator.Sites.Whole.{IsWhole, Refusal, Grant}
use custom_memory_allocator.Sites.Scribble.{scribble-IsWhole}
use custom_memory_allocator.Sites.Malloc.{Answer, my_malloc-Answer}

-- A payload is never at null.
pub Holds-nonnull : (s : Site) (ptr n : ℕ) → Holds s ptr n → ptr ≢ null
Holds-nonnull (pool_site i b) ptr n (y, at, start, size) e = omega (arith, start, e)
Holds-nonnull (heap_site g parts) ptr n (a, at, start) e = omega (arith, start, e)

pub InHand-nonnull : (f : ℕ → Site) (ptr n : ℕ) → InHand f ptr n → ptr ≢ null
InHand-nonnull f ptr n (i, lt, held) = Holds-nonnull (f i) ptr n held

-- The payload is granted and its first `total` bytes are zero.
pub record Zeroed (p : Platform) (w : World) (f : ℕ → Site) (total : ℕ) (out : ℕ × Allocator)
    (w' : World) : Type 0 where
  pub grant : Grant p w f total out w'
  pub zero_bytes : (x : ℕ) → out.0 ≤ x → x < out.0 + total → w'.mem x ≡ 0

-- What clearing the payload leaves of a grant.
cleared-Grant :
    (p : Platform) (w before w' : World) (f : ℕ → Site) (total : ℕ) (out : ℕ × Allocator)
    → Grant p w f total out before
    → ((x : ℕ) → (x < out.0) ⊎ (out.0 + total ≤ x) → w'.mem x ≡ before.mem x)
    → w'.process ≡ before.process
    → Grant p w f total out w'
cleared-Grant p w before w' f total out g same process =
    let room = g.room in
    record {
      f' = g.f';
      n = g.n;
      room = room;
      snug = g.snug;
      whole =
          scribble-IsWhole p before w' out.1 g.f' out.0 g.n g.whole g.new
            (λ x off. same x (ground (arith, room, off))) process;
      new = g.new;
      kept = λ q m h.
          let (still, bytes, apart) = g.kept q m h in
          (
            still,
            λ x lo hi. elim (range_cases x out.0 total) [
              | inl off ↦ same x off ∙ bytes x lo hi
              | inr (from, upto) ↦ absurd (apart x lo hi from (omega (arith, room, upto)))
            ],
            apart,
          );
      only = g.only;
    }

pub my_calloc-Zeroed :
    (p : Platform) (w : World) (a : Allocator) (f : ℕ → Site) (count size : ℕ)
    → IsKernel p
    → pool_address p 8 < 2 ^ 64
    → IsWhole p w a f
    → 0 < count * size
    → count * size ≤ 2 ^ 62
    → Ends
        (λ out w'. Refusal p w f (count * size) out w' ⊎ Zeroed p w f (count * size) out w')
        (my_calloc p Stage.thread_cached a count size w)
my_calloc-Zeroed p w a f count size kernel low whole pos small =
    Ends-weaken
      (my_calloc-Calloced p Stage.thread_cached a count size w (Answer p w f (count * size))
        (omega (arith, small)) (my_malloc-Answer p w a f (count * size) kernel low whole pos small))
      λ out w' got. elim got [
        | inl (none_left, answer) ↦ elim answer [
          | inl refused ↦ inl refused
          | inr g ↦ absurd (InHand-nonnull g.f' out.0 g.n g.new none_left)
        ]
        | inr c ↦ elim c.served [
          | inl refused ↦ absurd (c.nonnull refused.pointer)
          | inr g ↦ inr (record {
            grant = cleared-Grant p w c.before w' f (count * size) out g c.same c.process;
            zero_bytes = c.zeroed;
          })
        ]
      ]
