-- ===== src/Run/Locks.antt =====
-- A scope that locks a mutex which the thread does not hold: it gives the mutex back.
use custom_memory_allocator.Base.{◌≡◌, refl, ◌∷◌, true, false, ==_of_eq}
use custom_memory_allocator.Run.{
  World, Mutex, Outcome, Cmd, holds, mutex_eq, set_held, unlock, with_lock,
}
use custom_memory_allocator.Run.Ends.{Ends, ends}

mutex_eq_refl : (m : Mutex) → mutex_eq m m ≡ true
mutex_eq_refl Mutex.global = refl
mutex_eq_refl Mutex.general = refl
mutex_eq_refl (Mutex.pool i) = ==_of_eq i i refl

-- The world inside the scope.
abbrev pub locked : Mutex → World → World
locked m w = set_held (m ∷ w.process.held) w

-- The world after the scope, from the one at its end.
abbrev pub unlocked : World → World → World
unlocked w w' = set_held w.process.held w'

unlock-Ends :
    {A : Type 0} (P Q : A → World → Type 0) (m : Mutex) (w : World) (r : Outcome A)
    → ((a : A) (w' : World) → P a w' → (w'.process.held ≡ m ∷ w.process.held) × Q a (unlocked w w'))
    → Ends P r
    → Ends Q (unlock m r)
unlock-Ends P Q m w _ f (ends {a = a} {w = w'} p) =
    let (e, q) = f a w' p in let same = mutex_eq_refl m in rw (e, same) (ends q)

-- A lock_guard on a mutex that the thread does not hold: when the command in its scope ends with the
-- mutexes as it found them, the whole ends and the thread holds what it held before.
pub with_lock-Ends :
    {A : Type 0} (P Q : A → World → Type 0) (m : Mutex) (c : Cmd A) (w : World)
    → holds m w.process.held ≡ false
    → Ends P (c (locked m w))
    → ((a : A) (w' : World) → P a w' → (w'.process.held ≡ m ∷ w.process.held) × Q a (unlocked w w'))
    → Ends Q (with_lock m c w)
unfolding with_lock
with_lock-Ends P Q m c w free r f = rw free (unlock-Ends P Q m w _ f r)
