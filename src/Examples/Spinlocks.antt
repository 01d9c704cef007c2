-- ===== src/Examples/Spinlocks.antt =====
-- The spinlock: thread 0 has taken it with `try_lock`, and thread 1 waits in `lock`.
use akl.Base.{ℕ, ◌≡◌, refl}
use akl.Spinlock.{u8, construct, outside, testing, try_lock}
use akl.Spinlock.Exclusion.{
  System, moved, tried, calls_lock, tries, Reachable, start, step, one_holder,
}
use akl.Examples.Platforms.{gcc}

abbrev at_start : System
at_start = record { spinner = construct; threads = λ _. outside }

abbrev taken : System
taken = moved at_start 0 (tried (try_lock (gcc u8) construct))

abbrev waiting : System
waiting = moved taken 1 (testing, taken.spinner)

taken-Reachable : Reachable (gcc u8) taken
taken-Reachable = step start (tries 0 refl)

waiting-Reachable : Reachable (gcc u8) waiting
waiting-Reachable = step taken-Reachable (calls_lock 1 refl)

abbrev holder : ℕ
holder = 0

one_holder_example : (holder ≡ holder) × (waiting.spinner ≡ 1)
unfolding try_lock
one_holder_example = one_holder (gcc u8) waiting waiting-Reachable holder holder refl refl
