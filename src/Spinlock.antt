-- ===== src/Spinlock.antt =====
-- akl/spinlock.hpp: `simple_spinlock`. Its field `spinner` is the shared cell. Padded has the class
-- `padded_simple_spinlock`. `gcc` has the builtins on a `char`.
pub mod Exclusion
mod Padded
use akl.Base.{ℕ, Bool, true, false, ◌==◌, if◌then◌else◌, ◌^◌}
use akl.Machine.External.{Access, GccSync}

abbrev pub u8 : ℕ
u8 = 2 ^ 8

-- The constructors. The copy constructor does not copy.
abbrev pub construct : ℕ
construct = 0

-- Where a thread is: it has not called `lock`, is before one of the two tests in the condition of
-- the loop, or has the lock.
pub data Place : Type 0 where
  outside testing swapping holding : Place

-- `spinner == 1`
unfoldable pub test : Access Place
test spinner = if spinner == 1 then (testing, spinner) else (swapping, spinner)

module _ (gcc : GccSync u8) where
  -- `__sync_lock_test_and_set(&spinner, 1)` in the condition of the loop
  unfoldable pub swap : Access Place
  swap spinner =
      let (old, spinner') = gcc.lock_test_and_set 1 spinner in
      if old == 0 then (holding, spinner') else (testing, spinner')

  unfoldable pub try_lock : Access Bool
  try_lock spinner = let (old, spinner') = gcc.lock_test_and_set 1 spinner in (old == 0, spinner')

unfoldable pub unlock : Access (Unit {0})
unlock spinner = (tt, 0)
