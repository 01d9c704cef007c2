-- ===== src/Spinlock/Padded.antt =====
-- akl/spinlock.hpp: `padded_simple_spinlock`, whose methods make the accesses of `simple_spinlock`.
use akl.Base.{ℕ, ◌≡◌, refl, Bool, ◌==◌, if◌then◌else◌}
use akl.Machine.External.{Access, GccSync}
use akl.Spinlock.{u8, Place, testing, swapping, holding}
use akl.Spinlock

-- The constructors.
abbrev padded_construct : ℕ
padded_construct = 0

unfoldable padded_test : Access Place
padded_test spinner = if spinner == 1 then (testing, spinner) else (swapping, spinner)

module _ (gcc : GccSync u8) where
  unfoldable padded_swap : Access Place
  padded_swap spinner =
      let (old, spinner') = gcc.lock_test_and_set 1 spinner in
      if old == 0 then (holding, spinner') else (testing, spinner')

  unfoldable padded_try_lock : Access Bool
  padded_try_lock spinner =
      let (old, spinner') = gcc.lock_test_and_set 1 spinner in (old == 0, spinner')

unfoldable padded_unlock : Access (Unit {0})
padded_unlock spinner = (tt, 0)

-- The accesses are those of `simple_spinlock`, so what holds of its threads holds here.
same_accesses :
    (gcc : GccSync u8) (c : ℕ)
    → (padded_construct ≡ Spinlock.construct)
      × (padded_test c ≡ Spinlock.test c)
      × (padded_swap gcc c ≡ Spinlock.swap gcc c)
      × (padded_try_lock gcc c ≡ Spinlock.try_lock gcc c)
      × (padded_unlock c ≡ Spinlock.unlock c)
unfolding padded_test padded_swap padded_try_lock padded_unlock Spinlock.test Spinlock.swap
    Spinlock.try_lock Spinlock.unlock
same_accesses gcc c = (refl, refl, refl, refl, refl)
