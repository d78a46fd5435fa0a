-- ===== src/Sites/Session/Reached.antt =====
-- The states that a program reaches with the public functions of src/allocator.cpp.
use custom_memory_allocator.Base.{ℕ, ◌+◌, ◌*◌, ◌<◌, ◌^◌, ◌≡◌, inl, inr, refl, [], some, arith}
use custom_memory_allocator.Run.{World}
use custom_memory_allocator.Run.Ends.{Ends, Ends-at, Ends-weaken}
use custom_memory_allocator.Os.{Platform}
use custom_memory_allocator.Os.Laws.{IsKernel}
use custom_memory_allocator.ThreadCache.{pool_address}
use custom_memory_allocator.Allocator.{Allocator, Stage, my_malloc, my_calloc, my_free, my_realloc}
use custom_memory_allocator.Sites.Initial.{initial_sites, initial-IsWhole}
use custom_memory_allocator.Sites.Malloc.{my_malloc-Answer}
use custom_memory_allocator.Sites.Calloc.{my_calloc-Zeroed}
use custom_memory_allocator.Sites.Free.{my_free-Release}
use custom_memory_allocator.Sites.Realloc.{my_realloc-Reply}
use custom_memory_allocator.Sites.Session.{
  Claim, Claims, IsRequest, Session, begin, request, request_zeroed, resize, give_back, store,
  Implements,
}
use custom_memory_allocator.Sites.Session.Steps.{
  absent, refused-Implements, granted-Implements, resized-Implements, unmoved-Implements,
  released-Implements, stored-Implements,
}

module _ (p : Platform) (kernel : IsKernel p) (pos : 0 < p.pool_bytes)
    (low : pool_address p 8 < 2 ^ 64) where
  pub Session-Implements :
      {w : World} {a : Allocator} {h : Claims} → Session p w a h → Implements p w a h
  Session-Implements (begin w unlocked) = record {
    f = initial_sites;
    whole = initial-IsWhole p w unlocked;
    backed = λ q c e. absurd (absent e);
  }
  Session-Implements (request {w} {a} {h} size ptr a' w' s req e) =
      let i = Session-Implements s in
      let (some_size, small, _) = req in
      elim (Ends-at (ptr, a') w' e
        (my_malloc-Answer p w a i.f size kernel low i.whole some_size small)) [
          | inl r ↦ refused-Implements p w w' a h i (ptr, a') _ r
          | inr g ↦ granted-Implements p w w' a h i (ptr, a') _ req g (λ k lt. refl)
        ]
  Session-Implements (request_zeroed {w} {a} {h} count size ptr a' w' s req e) =
      let i = Session-Implements s in
      let (some_size, small, _) = req in
      elim (Ends-at (ptr, a') w' e
        (my_calloc-Zeroed p w a i.f count size kernel low i.whole some_size small)) [
          | inl r ↦ refused-Implements p w w' a h i (ptr, a') _ r
          | inr z ↦
              granted-Implements p w w' a h i (ptr, a') _ req z.grant
                (λ k lt. z.zero_bytes (ptr + k) (omega arith) (omega (arith, lt)))
        ]
  Session-Implements (resize {w} {a} {h} ptr size ptr' c a' w' s at req e) =
      let i = Session-Implements s in
      let b = i.backed ptr c at in
      let (some_size, small, _) = req in
      elim (Ends-at (ptr', a') w' e
        (my_realloc-Reply p w a i.f ptr b.n size kernel pos low i.whole b.in_hand b.small some_size
          small)) [
            | inl r ↦ unmoved-Implements p w w' a h ptr size c (ptr', a') i r
            | inr r ↦ resized-Implements p w w' a h ptr size c (ptr', a') i b req r
          ]
  Session-Implements (give_back {w} {a} {h} ptr c a' w' s at e) =
      let i = Session-Implements s in
      let b = i.backed ptr c at in
      released-Implements p w w' a a' h ptr b.n i
        (Ends-at a' w' e (my_free-Release p w a i.f ptr b.n pos low i.whole b.in_hand b.small))
  Session-Implements (store {w} {a} {h} ptr k v c s at lt) =
      stored-Implements p w a h ptr k v c (Session-Implements s) at lt

  -- In every state that a program reaches, my_malloc and my_calloc of a request that it may make end,
  -- and the thread holds no mutex then: no assertion fails, no lock is taken twice, no index is out of
  -- range, and no loop runs out of fuel.
  -- The program makes requests of 1 to 2 ^ 62 bytes that, with 4096 more, are of fewer than the address of
  -- the first pool, resizes and gives back only what it has, and never null.
  -- The kernel meets its laws, and the array of pools ends below 2 ^ 64.
  pub Session-serves :
      {w : World} {a : Allocator} {h : Claims} (count size : ℕ)
      → Session p w a h
      → IsRequest p (count * size)
      → Ends (λ out w'. w'.process.held ≡ []) (my_malloc p Stage.thread_cached a (count * size) w)
        × Ends (λ out w'. w'.process.held ≡ []) (my_calloc p Stage.thread_cached a count size w)
  Session-serves {w} {a} count size s (some_size, small, _) =
      let i = Session-Implements s in
      (
        Ends-weaken (my_malloc-Answer p w a i.f (count * size) kernel low i.whole some_size small)
            λ out w' got. elim got [ inl r ↦ r.whole.unlocked | inr g ↦ g.whole.unlocked ],
        Ends-weaken (my_calloc-Zeroed p w a i.f count size kernel low i.whole some_size small)
            λ out w' got. elim got [ inl r ↦ r.whole.unlocked | inr z ↦ z.grant.whole.unlocked ],
      )

  -- In every state that a program reaches, my_free of a byte array that the program has ends, and the
  -- thread holds no mutex then.
  -- The program makes requests of 1 to 2 ^ 62 bytes that, with 4096 more, are of fewer than the address of
  -- the first pool, resizes and gives back only what it has, and never null.
  -- The kernel meets its laws, and the array of pools ends below 2 ^ 64.
  pub Session-frees :
      {w : World} {a : Allocator} {h : Claims} (ptr : ℕ) (c : Claim)
      → Session p w a h
      → h ptr ≡ some c
      → Ends (λ a' w'. w'.process.held ≡ []) (my_free p Stage.thread_cached a ptr w)
  Session-frees {w} {a} ptr c s at =
      let i = Session-Implements s in
      let b = i.backed ptr c at in
      Ends-weaken (my_free-Release p w a i.f ptr b.n pos low i.whole b.in_hand b.small)
        λ a' w' r. r.whole.unlocked

  -- In every state that a program reaches, my_realloc of a byte array that the program has, to a size that
  -- it may request, ends, and the thread holds no mutex then.
  -- The program makes requests of 1 to 2 ^ 62 bytes that, with 4096 more, are of fewer than the address of
  -- the first pool, resizes and gives back only what it has, and never null.
  -- The kernel meets its laws, and the array of pools ends below 2 ^ 64.
  pub Session-resizes :
      {w : World} {a : Allocator} {h : Claims} (ptr size : ℕ) (c : Claim)
      → Session p w a h
      → h ptr ≡ some c
      → IsRequest p size
      → Ends (λ out w'. w'.process.held ≡ []) (my_realloc p Stage.thread_cached a ptr size w)
  Session-resizes {w} {a} ptr size c s at (some_size, small, _) =
      let i = Session-Implements s in
      let b = i.backed ptr c at in
      Ends-weaken
        (my_realloc-Reply p w a i.f ptr b.n size kernel pos low i.whole b.in_hand b.small some_size
          small)
        λ out w' got. elim got [ inl r ↦ r.whole.unlocked | inr r ↦ r.whole.unlocked ]
