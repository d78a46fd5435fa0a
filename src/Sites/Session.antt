-- ===== src/Sites/Session.antt =====
-- A program that calls the public functions of src/allocator.cpp and writes into the payloads that they
-- hand out, and the abstract memory that it sees: byte arrays at their addresses.
pub mod Steps
pub mod Reached
use custom_memory_allocator.Base.{
  ltb, ltb_of_lt, ltb_of_le, lt_cases, ℕ, ◌+◌, ◌*◌, ◌≤◌, ◌<◌, ◌^◌, ◌≡◌, ◌≢◌, ◌⊎◌, inl, inr, refl,
  sym, ◌∙◌, subst, null, [], Option, none, some, ◌==◌, Bool-cases, eq_of_==, ne_of_==, ==_of_eq,
  ==_of_ne, arith, if◌then◌else◌,
}
use custom_memory_allocator.Run.{World, done}
use custom_memory_allocator.Run.Ends.{Ends, Ends-at, Ends-weaken}
use custom_memory_allocator.Os.{Platform}
use custom_memory_allocator.Os.Laws.{IsKernel}
use custom_memory_allocator.ThreadCache.{pool_address}
use custom_memory_allocator.Allocator.{
  Allocator, Stage, initial, my_malloc, my_calloc, my_free, my_realloc,
}
use custom_memory_allocator.Sites.{Site}
use custom_memory_allocator.Sites.Keep.{range_cases}
use custom_memory_allocator.Sites.Steps.{InHand, SameBytes}
use custom_memory_allocator.Sites.Whole.{IsWhole, Refusal, Grant, Release}
use custom_memory_allocator.Sites.Initial.{initial_sites, initial-IsWhole}
use custom_memory_allocator.Sites.Scribble.{scribble-IsWhole, InHand-Disjoint}
use custom_memory_allocator.Sites.Malloc.{my_malloc-Answer}
use custom_memory_allocator.Sites.Calloc.{my_calloc-Zeroed, InHand-nonnull}
use custom_memory_allocator.Sites.Free.{my_free-Release}
use custom_memory_allocator.Sites.Move.{Resized}
use custom_memory_allocator.Sites.Realloc.{my_realloc-Reply}

-- A byte array of the program.
pub record Claim : Type 0 where
  pub size : ℕ
  pub bytes : ℕ → ℕ

-- The byte arrays that the program has, by address.
abbrev pub Claims : Type 0
Claims = ℕ → Option Claim

abbrev pub put : Claims → ℕ → Option Claim → Claims
put h ptr o q = if q == ptr then o else h q

abbrev pub nothing_claimed : Claims
nothing_claimed q = none

-- What a request that answers with the address adds.
abbrev pub claimed : Claims → ℕ → Claim → Claims
claimed h ptr c = if ptr == null then h else put h ptr (some c)

abbrev pub set_byte : (ℕ → ℕ) → ℕ → ℕ → ℕ → ℕ
set_byte bytes k v j = if j == k then v else bytes j

-- What growing or shrinking an array to `size` bytes leaves: the bytes that it had, and those that are
-- new to it.
abbrev pub resized : Claims → (ptr : ℕ) → Claim → (ptr' size : ℕ) → (ℕ → ℕ) → Claims
resized h ptr c ptr' size mem =
    if ptr' == null
    then h
    else put (put h ptr none) ptr' (
        some
          (record { size = size; bytes = λ k. if ltb k c.size then c.bytes k else mem (ptr' + k) }))

-- A request that the program may make: 1 to 2 ^ 62 bytes and, with 4096 more, fewer than the address of
-- the first pool.
abbrev pub IsRequest : Platform → ℕ → Type 0
IsRequest p size = (0 < size) × (size ≤ 2 ^ 62) × (size + 4096 < p.pool_array)

-- The states that a program reaches from the start. It frees only what it has, and writes only there.
pub data Session (p : Platform) : World → Allocator → Claims → Type 0 where
  begin : (w : World) → w.process.held ≡ [] → Session p w initial nothing_claimed
  request :
      {w : World} {a : Allocator} {h : Claims} (size ptr : ℕ) (a' : Allocator) (w' : World)
      → Session p w a h
      → IsRequest p size
      → my_malloc p Stage.thread_cached a size w ≡ done (ptr, a') w'
      → Session p w' a' (claimed h ptr (record { size = size; bytes = λ k. w'.mem (ptr + k) }))
  request_zeroed :
      {w : World} {a : Allocator} {h : Claims} (count size ptr : ℕ) (a' : Allocator) (w' : World)
      → Session p w a h
      → IsRequest p (count * size)
      → my_calloc p Stage.thread_cached a count size w ≡ done (ptr, a') w'
      → Session p w' a' (claimed h ptr (record { size = count * size; bytes = λ k. 0 }))
  resize :
      {w : World} {a : Allocator} {h : Claims} (ptr size ptr' : ℕ) (c : Claim) (a' : Allocator)
      (w' : World)
      → Session p w a h
      → h ptr ≡ some c
      → IsRequest p size
      → my_realloc p Stage.thread_cached a ptr size w ≡ done (ptr', a') w'
      → Session p w' a' (resized h ptr c ptr' size w'.mem)
  give_back :
      {w : World} {a : Allocator} {h : Claims} (ptr : ℕ) (c : Claim) (a' : Allocator) (w' : World)
      → Session p w a h
      → h ptr ≡ some c
      → my_free p Stage.thread_cached a ptr w ≡ done a' w'
      → Session p w' a' (put h ptr none)
  store :
      {w : World} {a : Allocator} {h : Claims} (ptr k v : ℕ) (c : Claim)
      → Session p w a h
      → h ptr ≡ some c
      → k < c.size
      → Session p
          (record w { mem = set_byte w.mem (ptr + k) v })
          a
          (put h ptr (some (record { size = c.size; bytes = set_byte c.bytes k v })))

-- The byte array is in a payload in hand, and its bytes are in memory.
pub record Backed (p : Platform) (w : World) (f : ℕ → Site) (ptr : ℕ) (c : Claim) : Type 0 where
  pub n : ℕ
  pub in_hand : InHand f ptr n
  pub room : c.size ≤ n
  pub small : n < p.pool_array
  pub some_bytes : 0 < c.size
  pub same : (k : ℕ) → k < c.size → w.mem (ptr + k) ≡ c.bytes k

abbrev pub AreBacked : Platform → World → (ℕ → Site) → Claims → Type 0
AreBacked p w f h = (q : ℕ) (c : Claim) → h q ≡ some c → Backed p w f q c

-- A whole allocator that backs the byte arrays of the program.
pub record Implements (p : Platform) (w : World) (a : Allocator) (h : Claims) : Type 0 where
  pub f : ℕ → Site
  pub whole : IsWhole p w a f
  pub backed : AreBacked p w f h
