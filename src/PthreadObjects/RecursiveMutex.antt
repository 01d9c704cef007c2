-- ===== src/PthreadObjects/RecursiveMutex.antt =====
-- delete-me/recursive_mutex.hpp: a recursive mutex.
use akl.Base.{ℕ, Bool, Option, none, some, ◌==◌, if◌then◌else◌}
use akl.Conditional.{asserted}

-- The functions of pthread; `A` is `pthread_mutexattr_t`.
pub record Mutexes (A W : Type 0) : Type 0 where
  pub recursive : ℕ  -- PTHREAD_MUTEX_RECURSIVE
  pub attr_init : ℕ × A
  pub attr_settype : ℕ → A → ℕ × A
  pub init : A → W → ℕ × W
  pub attr_destroy : A → W → W
  pub destroy : W → ℕ × W
  pub lock : W → ℕ × W
  pub unlock : W → ℕ × W
  pub trylock : W → ℕ × W

-- What follows an assertion.
abbrev pub after : {X Y : Type 0} → ℕ × X → (X → Option Y) → Option Y
after (error, x) next = if error == 0 then next x else none

module _ {A W : Type 0} (pthread : Mutexes A W) where
  -- The constructor, and the copy constructor, which does the same.
  unfoldable pub construct : W → Option W
  construct w = after pthread.attr_init (λ attr.
      after (pthread.attr_settype pthread.recursive attr)
        (λ typed. after (pthread.init typed w) (λ w'. some (pthread.attr_destroy typed w'))))

  -- The destructor.
  unfoldable pub destruct : W → Option W
  destruct w = asserted (pthread.destroy w)

  unfoldable pub lock : W → Option W
  lock w = asserted (pthread.lock w)

  unfoldable pub unlock : W → Option W
  unlock w = asserted (pthread.unlock w)

  unfoldable pub try_lock : W → Bool × W
  try_lock w = let (error, w') = pthread.trylock w in (error == 0, w')
