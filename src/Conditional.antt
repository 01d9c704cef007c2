-- ===== src/Conditional.antt =====
-- delete-me/conditional.hpp: the deadlines of the waits with a time limit. `pthread_cond_timedwait` is
-- a parameter, with a state of its own; `gettimeofday` has given `tv`. The signed `time_t` and the
-- nanoseconds are words of 64 bits; below 2 ^ 63 their arithmetic is the same. The other functions of pthread are
-- parameters, too; where one returns an error, the assertion aborts the program, which is `none`.
pub mod Deadlines
use akl.Base.{ℕ, ◌+◌, ◌-◌, ◌*◌, ◌/◌, ◌%◌, if◌then◌else◌, ltb, ◌==◌, Option, none, some}
use akl.Machine.Words.{wadd, wsub, u64}

pub record Timeval : Type 0 where
  pub tv_sec : ℕ
  pub tv_usec : ℕ

pub record Timespec : Type 0 where
  pub tv_sec : ℕ
  pub tv_nsec : ℕ

-- The shift of the nanoseconds to the seconds.
abbrev pub shift : Timespec → Timespec
shift timeout =
    if ltb 1000000000 timeout.tv_nsec
    then record {
      tv_sec = wadd u64 timeout.tv_sec 1;
      tv_nsec = wsub u64 timeout.tv_nsec 1000000000;
    }
    else timeout

module _ {W : Type 0} (pthread_cond_timedwait : Timespec → W → ℕ × W) where
  unfoldable pub timedwait : Timeval → ℕ → W → ℕ × W
  timedwait tv sec =
      pthread_cond_timedwait
        (record { tv_sec = wadd u64 tv.tv_sec sec; tv_nsec = tv.tv_usec * 1000 % u64 })

  unfoldable pub timedwait_ms : Timeval → ℕ → W → ℕ × W
  timedwait_ms tv ms =
      let s = ms / 1000 in
      let ns = ms % 1000 * 1000000 % u64 in
      pthread_cond_timedwait (
        shift (record {
          tv_sec = wadd u64 tv.tv_sec s;
          tv_nsec = wadd u64 (tv.tv_usec * 1000 % u64) ns;
        }))

  -- `none` is the assertion that `ns` is not 0.
  unfoldable pub timedwait_ns : Timeval → ℕ → W → Option (ℕ × W)
  timedwait_ns tv ns w =
      let s = ns / 1000000 in
      let rest = ns % 1000000 in
      let timeout = shift (record {
        tv_sec = wadd u64 tv.tv_sec s;
        tv_nsec = wadd u64 (tv.tv_usec * 1000 % u64) rest;
      }) in
      if ltb 0 ns then some (pthread_cond_timedwait timeout w) else none

-- `ASSERT_TRUE(!error)`
abbrev pub asserted : {W : Type 0} → ℕ × W → Option W
asserted (error, w) = if error == 0 then some w else none

-- The functions of pthread on a condition variable; `cond_wait` is a wait that has returned.
pub record Conditions (W : Type 0) : Type 0 where
  pub cond_init : W → ℕ × W
  pub cond_wait : W → ℕ × W
  pub cond_signal : W → ℕ × W
  pub cond_broadcast : W → ℕ × W
  pub cond_destroy : W → ℕ × W

module _ {W : Type 0} (pthread : Conditions W) where
  -- The constructor, and the copy constructor, which does the same.
  unfoldable pub construct : W → Option W
  construct w = asserted (pthread.cond_init w)

  unfoldable pub wait : W → Option W
  wait w = asserted (pthread.cond_wait w)

  unfoldable pub signal : W → Option W
  signal w = asserted (pthread.cond_signal w)

  unfoldable pub broadcast : W → Option W
  broadcast w = asserted (pthread.cond_broadcast w)

  -- The destructor.
  unfoldable pub destruct : W → Option W
  destruct w = asserted (pthread.cond_destroy w)
