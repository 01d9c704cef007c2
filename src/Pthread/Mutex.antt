-- ===== src/Pthread/Mutex.antt =====
-- akl/mutex.hpp: the class `mutex`. `this` is the address of its field `m_mut`, and `frame` that of
-- the parameter of the called function.
use akl.Base.{ℕ, Bool, ◌==◌, if◌then◌else◌}
use akl.Machine.External.{Build, kernel_module, user_space}
use akl.Pthread.{
  Memory, Mutexes, akl_pthread_mutex_init, akl_pthread_mutex_destroy, akl_pthread_mutex_lock,
  akl_pthread_mutex_unlock, akl_pthread_mutex_trylock,
}

-- A method returns, or its assertion fails.
pub data Outcome (A : Type 0) : Type 0 where
  returned aborted : A → Memory → Outcome A

-- `ASSERT_TRUE(!error)`, which tests nothing in a kernel module.
abbrev pub assert_no_error : Build → ℕ × Memory → Outcome (Unit {0})
assert_no_error kernel_module (error, m) = returned tt m
assert_no_error user_space (error, m) = if error == 0 then returned tt m else aborted tt m

module _ (p : Mutexes) (frame this : ℕ) where
  -- The default constructor and the copy constructor, which does the same.
  unfoldable pub construct : Memory → Outcome (Unit {0})
  unfolding akl_pthread_mutex_init
  construct m = assert_no_error p.build (akl_pthread_mutex_init p frame this m)

  unfoldable pub destruct : Memory → Outcome (Unit {0})
  unfolding akl_pthread_mutex_destroy
  destruct m = assert_no_error p.build (akl_pthread_mutex_destroy p frame this m)

  unfoldable pub lock : Memory → Outcome (Unit {0})
  unfolding akl_pthread_mutex_lock
  lock m = assert_no_error p.build (akl_pthread_mutex_lock p frame this m)

  unfoldable pub unlock : Memory → Outcome (Unit {0})
  unfolding akl_pthread_mutex_unlock
  unlock m = assert_no_error p.build (akl_pthread_mutex_unlock p frame this m)

  unfoldable pub try_lock : Memory → Outcome Bool
  unfolding akl_pthread_mutex_trylock
  try_lock m = let (r, m') = akl_pthread_mutex_trylock p frame this m in returned (r == 0) m'
