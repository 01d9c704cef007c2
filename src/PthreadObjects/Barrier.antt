-- ===== src/PthreadObjects/Barrier.antt =====
-- delete-me/barrier.hpp, on Linux: a barrier. The number of threads, a `size_t`, is cut to an `unsigned`,
-- and no error is tested.
use akl.Base.{ℕ, ◌%◌}
use akl.Machine.Words.{u32}

pub record Barriers (W : Type 0) : Type 0 where
  pub init : ℕ → W → ℕ × W
  pub destroy : W → ℕ × W
  pub wait : W → ℕ × W

module _ {W : Type 0} (pthread : Barriers W) where
  unfoldable pub construct : ℕ → W → W
  construct numthreads w = (pthread.init (numthreads % u32) w).1

  unfoldable pub resize_unsafe : ℕ → W → W
  resize_unsafe numthreads w = (pthread.init (numthreads % u32) (pthread.destroy w).1).1

  -- The destructor.
  unfoldable pub destruct : W → W
  destruct w = (pthread.destroy w).1

  unfoldable pub wait : W → W
  wait w = (pthread.wait w).1
