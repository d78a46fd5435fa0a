-- ===== src/Sites/Move.antt =====
-- The fall-back of my_realloc of src/allocator.cpp on a whole allocator: allocate, copy, free.
use custom_memory_allocator.Base.{
  ℕ, ◌+◌, ◌≤◌, ◌<◌, ◌^◌, ◌≡◌, ◌⊎◌, inl, inr, refl, ◌∙◌, arith, ==_of_eq, ==_of_ne,
}
use custom_memory_allocator.Memory.{Memory, copy}
use custom_memory_allocator.Run.{World}
use custom_memory_allocator.Run.Ends.{Ends, ends, Ends-continue}
use custom_memory_allocator.Os.{Platform}
use custom_memory_allocator.Os.Laws.{IsKernel}
use custom_memory_allocator.ThreadCache.{pool_address}
use custom_memory_allocator.Allocator.{Allocator, Stage, move_to_new}
use custom_memory_allocator.Sites.{Site}
use custom_memory_allocator.Sites.Keep.{range_cases}
use custom_memory_allocator.Sites.Steps.{InHand, SameBytes}
use custom_memory_allocator.Sites.Whole.{IsWhole, Refusal, Grant, Release}
use custom_memory_allocator.Sites.Scribble.{scribble-IsWhole}
use custom_memory_allocator.Sites.Malloc.{my_malloc-Answer}
use custom_memory_allocator.Sites.Calloc.{InHand-nonnull}
use custom_memory_allocator.Sites.Free.{my_free-Release}

copy_inside : (m : Memory) (dst src n k : ℕ) → k < n → copy m dst src n (dst + k) ≡ m (src + k)
unfolding copy
copy_inside m dst src n k lt = ground arith

copy_outside : (m : Memory) (dst src n x : ℕ) → (x < dst) ⊎ (dst + n ≤ x) → copy m dst src n x ≡ m x
unfolding copy
copy_outside m dst src n x out = ground arith

-- A payload of another size in place of the one at `ptr`, with the bytes that fit; the others are as
-- they were.
pub record Resized (p : Platform) (w : World) (f : ℕ → Site) (ptr n new_size : ℕ)
    (out : ℕ × Allocator) (w' : World) : Type 0 where
  pub f' : ℕ → Site
  pub n' : ℕ
  pub room : new_size ≤ n'
  pub snug : (n' ≡ n) ⊎ (n' ≤ new_size + 4096)
  pub whole : IsWhole p w' out.1 f'
  pub new : InHand f' out.0 n'
  pub bytes : (k : ℕ) → k < n → k < new_size → w'.mem (out.0 + k) ≡ w.mem (ptr + k)
  pub kept : (q m : ℕ) → InHand f q m → ((q ≡ ptr) × (m ≡ n)) ⊎ (InHand f' q m × SameBytes w w' q m)
  pub only : (q m : ℕ) → InHand f' q m → ((q ≡ out.0) × (m ≡ n')) ⊎ InHand f q m

module _ (p : Platform) (w : World) (f : ℕ → Site) (ptr n new_size copy_size : ℕ)
    (some_bytes : 0 < n) (in_hand : InHand f ptr n) where
  -- After the copy.
  abbrev copied : World → ℕ → World
  copied w1 new_ptr = record w1 { mem = copy w1.mem new_ptr ptr copy_size }

  copied-IsWhole :
      (out : ℕ × Allocator) (w1 : World)
      → (g : Grant p w f new_size out w1) → copy_size ≤ new_size
      → IsWhole p (copied w1 out.0) out.1 g.f'
  copied-IsWhole out w1 g le =
      let room = g.room in
      scribble-IsWhole p w1 (copied w1 out.0) out.1 g.f' out.0 g.n g.whole g.new
        (λ x off. copy_outside w1.mem out.0 ptr copy_size x (ground (arith, room, le, off))) refl

  moved-Resized :
      (out : ℕ × Allocator) (w1 : World) (a' : Allocator) (w' : World)
      → (g : Grant p w f new_size out w1) → copy_size ≤ new_size
      → ((k : ℕ) → k < n → k < new_size → k < copy_size)
      → Release p (copied w1 out.0) g.f' ptr n a' w'
      → Resized p w f ptr n new_size (out.0, a') w'
  moved-Resized out w1 a' w' g le enough r =
      let room = g.room in
      let (_, same, apart) = g.kept ptr n in_hand in
      let other : InHand r.f' out.0 g.n × SameBytes (copied w1 out.0) w' out.0 g.n =
        elim (r.kept out.0 g.n g.new) [
          | inr h ↦ h
          | inl (e, e') ↦ absurd (
              apart ptr (omega arith) (omega (arith, some_bytes)) (omega (arith, e))
                (omega (arith, e, e', some_bytes)))
        ] in
      record {
        f' = r.f';
        n' = g.n;
        room = room;
        snug = inr g.snug;
        whole = r.whole;
        new = other.0;
        bytes = λ k lt lt'.
            other.1 (out.0 + k) (omega arith) (omega (arith, room, lt'))
            ∙ copy_inside w1.mem out.0 ptr copy_size k (enough k lt lt')
            ∙ same (ptr + k) (omega arith) (omega (arith, lt));
        kept = λ q m h.
            let (still, bytes, off) = g.kept q m h in
            elim (r.kept q m still) [
              | inl e ↦ inl e
              | inr (stays, again) ↦ inr (
                stays,
                λ x lo hi.
                    again x lo hi
                    ∙ elim (range_cases x out.0 copy_size) [
                      | inl away ↦ copy_outside w1.mem out.0 ptr copy_size x away
                      | inr (from, upto) ↦ absurd (off x lo hi from (omega (arith, upto, le, room)))
                    ]
                    ∙ bytes x lo hi,
              )
            ];
        only = λ q m h. g.only q m (r.only q m h);
      }

pub move_to_new-Resized :
    (p : Platform) (w : World) (a : Allocator) (f : ℕ → Site) (ptr n new_size copy_size : ℕ)
    → IsKernel p
    → 0 < p.pool_bytes
    → pool_address p 8 < 2 ^ 64
    → IsWhole p w a f
    → InHand f ptr n
    → 0 < n
    → n < p.pool_array
    → 0 < new_size
    → new_size ≤ 2 ^ 62
    → copy_size ≤ new_size
    → ((k : ℕ) → k < n → k < new_size → k < copy_size)
    → Ends
        (λ out w'. Refusal p w f new_size out w' ⊎ Resized p w f ptr n new_size out w')
        (move_to_new p Stage.thread_cached a ptr new_size copy_size w)
unfolding move_to_new
move_to_new-Resized p w a f ptr n new_size copy_size kernel pos low whole in_hand some_bytes small
      some_size modest le enough =
    Ends-continue (my_malloc-Answer p w a f new_size kernel low whole some_size modest)
      λ out w1 answer. elim answer [
        | inl r ↦
            let none_left = ==_of_eq out.0 0 r.pointer in
            rw none_left (
              ends (
                inl (record {
                  f' = r.f';
                  pointer = refl;
                  denied = r.denied;
                  whole = r.whole;
                  kept = r.kept;
                  only = r.only;
                })))
        | inr g ↦
            let nonnull = ==_of_ne out.0 0 (InHand-nonnull g.f' out.0 g.n g.new) in
            let whole' =
              copied-IsWhole p w f ptr n new_size copy_size some_bytes in_hand out w1 g le in
            rw nonnull (
              Ends-continue
                (my_free-Release p
                  (copied p w f ptr n new_size copy_size some_bytes in_hand w1 out.0) out.1 g.f' ptr
                  n pos low whole' (g.kept ptr n in_hand).0 small)
                λ a' w' r. ends (
                  inr (
                    moved-Resized p w f ptr n new_size copy_size some_bytes in_hand out w1 a' w' g
                      le enough r)))
      ]
