-- ===== src/Run.antt =====
-- Commands over the process's memory and locks: what they return, and how they can stop short.
pub mod Ends
pub mod Locks
use custom_memory_allocator.Base.{
  ℕ, List, [], ◌∷◌, Option, none, some, Bool, true, false, ◌||◌, ◌==◌, if◌then◌else◌, get_elem?,
}
use custom_memory_allocator.Memory.{Memory}

-- An area of memory that the operating system has mapped: OsRegion of include/os_memory.hpp.
pub record OsRegion : Type 0 where
  pub base : ℕ
  pub size : ℕ

-- The mutexes of the program: g_global_mutex(), general_mutex(), and that of the pool at an index.
pub data Mutex : Type 0 where
  global general : Mutex
  pool : ℕ → Mutex

abbrev pub mutex_eq : Mutex → Mutex → Bool
mutex_eq global global = true
mutex_eq general general = true
mutex_eq (pool i) (pool j) = i == j
mutex_eq _ _ = false

-- The areas mapped at present, and the mutexes that the calling thread holds.
pub record Process : Type 0 where
  pub mapped : List OsRegion
  pub held : List Mutex

-- What all commands share.
pub record World : Type 0 where
  pub mem : Memory
  pub process : Process

pub data Outcome (A : Type 0) : Type 0 where
  done : A → World → Outcome A
  -- An `assert` of the source failed; the process aborts.
  assertion_failed : Outcome A
  -- A thread locked a std::mutex that it holds already.
  deadlock : Outcome A
  -- An array was indexed out of its range.
  out_of_range : Outcome A
  -- A walk along a list met more nodes than it was given rounds.
  out_of_fuel : Outcome A

abbrev pub Cmd : Type 0 → Type 0
Cmd A = World → Outcome A

abbrev pub pure : {A : Type 0} → A → Cmd A
pure = done

module _ {A B : Type 0} where
  abbrev pub continue : Outcome A → (A → Cmd B) → Outcome B
  continue (done a w) k = k a w
  continue assertion_failed k = assertion_failed
  continue deadlock k = deadlock
  continue out_of_range k = out_of_range
  continue out_of_fuel k = out_of_fuel

  infixl 5 ◌>>=◌ ◌>>◌
  abbrev pub ◌>>=◌ : Cmd A → (A → Cmd B) → Cmd B
  m >>= k = λ w. continue (m w) k

  abbrev pub ◌>>◌ : Cmd A → Cmd B → Cmd B
  m >> k = m >>= λ _. k

-- assert(b)
abbrev pub check : Bool → Cmd (Unit {0})
check true w = done tt w
check false w = assertion_failed

-- A value read off the memory.
abbrev pub reads : {A : Type 0} → (Memory → A) → Cmd A
reads f w = done (f w.mem) w

-- A change of the memory.
abbrev pub writes : (Memory → Memory) → Cmd (Unit {0})
writes f w = done tt (record w { mem = f w.mem })

-- The item of an array at an index.
abbrev pub item_at : {A : Type 0} → List A → ℕ → Cmd A
item_at xs i w = elim (get_elem? xs i) [ none ↦ out_of_range | some x ↦ done x w ]

abbrev pub holds : Mutex → List Mutex → Bool
holds m [] = false
holds m (n ∷ ns) = mutex_eq m n || holds m ns

abbrev pub release : Mutex → List Mutex → List Mutex
release m [] = []
release m (n ∷ ns) = if mutex_eq m n then ns else n ∷ release m ns

abbrev pub set_held : List Mutex → World → World
set_held held w = record w { process = record { mapped = w.process.mapped; held = held } }

abbrev pub unlock : {A : Type 0} → Mutex → Outcome A → Outcome A
unlock m r = continue r λ a w. done a (set_held (release m w.process.held) w)

-- A scope with a `std::lock_guard` on the mutex.
unfoldable pub with_lock : {A : Type 0} → Mutex → Cmd A → Cmd A
with_lock m c w =
    if holds m w.process.held then deadlock else unlock m (c (set_held (m ∷ w.process.held) w))
