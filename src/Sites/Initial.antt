-- ===== src/Sites/Initial.antt =====
-- The allocator at the start of the program.
use custom_memory_allocator.Base.{
  ℕ, zero, suc, ◌≤◌, ◌<◌, ◌%◌, ◌≡◌, inl, inr, refl, sym, ap, ◌∙◌, List, [], ◌∷◌, map, length,
  Option, none, some, get_elem?, In, In-All, arith,
}
use custom_memory_allocator.Run.{World}
use custom_memory_allocator.Os.{Platform}
use custom_memory_allocator.SizeClass.{size_classes}
use custom_memory_allocator.FreeList.{free_list_at}
use custom_memory_allocator.Pool.{new_pool}
use custom_memory_allocator.ThreadCache.{empty_cache, pool_address}
use custom_memory_allocator.ThreadCache.Shared.{IsShared}
use custom_memory_allocator.General.{General, default_arena_size}
use custom_memory_allocator.General.Heap.{IsHeap}
use custom_memory_allocator.Allocator.{initial}
use custom_memory_allocator.Sites.{Book, Site, pool_site, heap_site, OffSite, IsSound}
use custom_memory_allocator.Sites.Pooled.{book}
use custom_memory_allocator.Sites.Whole.{IsWhole}

abbrev empty_book : ℕ → Book
empty_book class = book (new_pool class) empty_cache [] [] []

abbrev empty_general : General
empty_general = record { arena_size = default_arena_size; arenas = []; free_list = free_list_at 0 }

abbrev site_at : ℕ → Option ℕ → Site
site_at i none = heap_site empty_general []
site_at i (some class) = pool_site i (empty_book class)

-- The pools have no arena, and the general path has none.
abbrev pub initial_sites : ℕ → Site
initial_sites i = site_at i (get_elem? size_classes i)

elem_below :
    {A : Type 0} (xs : List A) (i : ℕ)
    → i < length xs
    → (x : A) × In x xs × (get_elem? xs i ≡ some x)
elem_below [] i lt = absurd (omega arith)
elem_below (x ∷ xs) zero lt = (x, inl refl, refl)
elem_below (x ∷ xs) (suc i) lt =
    let (y, at, e) = elem_below xs i (omega (arith, lt)) in (y, inr at, e)

get_elem?-map :
    {A B : Type 0} (g : A → B) (xs : List A) (i : ℕ) (x : A)
    → get_elem? xs i ≡ some x
    → get_elem? (map g xs) i ≡ some (g x)
get_elem?-map g [] i x e = cc
get_elem?-map g (y ∷ xs) zero x e = let same : y ≡ x = cc in ap (λ z. some (g z)) same
get_elem?-map g (y ∷ xs) (suc i) x e = get_elem?-map g xs i x e

empty_shared :
    (w : World) (owner class : ℕ)
    → class % 16 ≡ 0
    → class ≤ 4096
    → IsShared w owner empty_cache (new_pool class) [] [] [] []
unfolding new_pool
empty_shared w owner class aligned small = record {
  is_stock = record {
    total = omega (arith, small);
    payload = aligned;
    head = refl;
    chain = tt;
    spaced = tt;
    placed = tt;
    full = refl;
  };
  are_mapped = tt;
  is_batch = record { head = refl; tail = refl; count = refl; chain = tt };
  tags = tt;
  few = omega arith;
}

empty-IsHeap : (w : World) → IsHeap w empty_general []
empty-IsHeap w = record {
  xs = [];
  store = record {
    good = tt;
    off = tt;
    free_list = record { head = refl; links = tt; apart = tt };
    only_free = λ x i. absurd i;
    all_free = λ x s i. absurd i;
  };
  layout = record { arenas = refl; tiles = tt; each = tt; off = tt };
  settled = tt;
  assigned = tt;
  mapped = tt;
}

aligned_class : (c : ℕ) → In c size_classes → (c % 16 ≡ 0) × (c ≤ 4096)
aligned_class c i = In-All (λ d. (d % 16 ≡ 0) × (d ≤ 4096)) size_classes c i (ground arith)

site_at-IsSound :
    (p : Platform) (w : World) (i : ℕ) (o : Option ℕ)
    → ((c : ℕ) → o ≡ some c → In c size_classes)
    → IsSound p w (site_at i o)
site_at-IsSound p w i none known = empty-IsHeap w
site_at-IsSound p w i (some c) known =
    let (aligned, small) = aligned_class c (known c refl) in
    empty_shared w (pool_address p i) c aligned small

site_at-OffSite : (i : ℕ) (o : Option ℕ) (x : ℕ) → OffSite (site_at i o) x
unfolding new_pool
site_at-OffSite i none x = tt
site_at-OffSite i (some c) x = tt

pub elem_known : {A : Type 0} (xs : List A) (i : ℕ) (x : A) → get_elem? xs i ≡ some x → In x xs
elem_known [] i x e = cc
elem_known (y ∷ xs) zero x e = let same : y ≡ x = cc in inl (sym same)
elem_known (y ∷ xs) (suc i) x e = inr (elem_known xs i x e)

-- The allocator that the program starts with is whole in any world in which the thread holds no
-- mutex.
pub initial-IsWhole :
    (p : Platform) (w : World) → w.process.held ≡ [] → IsWhole p w initial initial_sites
unfolding initial new_pool
initial-IsWhole p w unlocked = record {
  parts = [];
  heap = refl;
  pools = λ i lt.
      let (c, _, e) = elem_below size_classes i lt in
      (
        empty_book c,
        (
          ap (site_at i) e,
          get_elem?-map new_pool size_classes i c e,
          get_elem?-map (λ _. empty_cache) size_classes i c e,
          e ∙ ap some (payload c),
        ),
      );
  sounds = λ i lt.
      site_at-IsSound p w i (get_elem? size_classes i) (λ c e. elem_known size_classes i c e);
  aparts = λ i j lti ltj ne x. inl (site_at-OffSite i (get_elem? size_classes i) x);
  unlocked = unlocked;
  arena_size = omega arith;
}
  where
    payload : (c : ℕ) → c ≡ (new_pool c).slot_payload_size
    payload c = refl
