-- ===== src/PthreadObjects/ReaderWriter.antt =====
-- delete-me/rwlock.hpp: a reader-writer lock. Except in the constructors and the destructor the errors are
-- not tested: `readlock` and `writelock` return without the lock where pthread gives none.
use akl.Base.{ℕ, Bool, Option, ◌==◌}
use akl.Conditional.{asserted}

pub record Rwlocks (W : Type 0) : Type 0 where
  pub init : W → ℕ × W
  pub destroy : W → ℕ × W
  pub rdlock : W → ℕ × W
  pub wrlock : W → ℕ × W
  pub tryrdlock : W → ℕ × W
  pub trywrlock : W → ℕ × W
  pub unlock : W → ℕ × W

module _ {W : Type 0} (pthread : Rwlocks W) where
  -- The constructor, and the copy constructor, which does the same.
  unfoldable pub construct : W → Option W
  construct w = asserted (pthread.init w)

  -- The destructor.
  unfoldable pub destruct : W → Option W
  destruct w = asserted (pthread.destroy w)

  unfoldable pub readlock : W → W
  readlock w = (pthread.rdlock w).1

  unfoldable pub writelock : W → W
  writelock w = (pthread.wrlock w).1

  unfoldable pub try_readlock : W → Bool × W
  try_readlock w = let (error, w') = pthread.tryrdlock w in (error == 0, w')

  unfoldable pub try_writelock : W → Bool × W
  try_writelock w = let (error, w') = pthread.trywrlock w in (error == 0, w')

  unfoldable pub unlock : W → W
  unlock w = (pthread.unlock w).1

  unfoldable pub rdunlock : W → W
  rdunlock w = unlock w

  unfoldable pub wrunlock : W → W
  wrunlock w = unlock w
