-- ===== src/Conditional/Deadlines.antt =====
-- delete-me/conditional.hpp: the moments until which the waits wait.
use mathlib.Core.Path.{ap₂}
use akl.Base.{
  ℕ, ◌+◌, ◌*◌, ◌/◌, ◌%◌, ◌^◌, ◌<◌, ◌≤◌, ◌≡◌, ◌≢◌, refl, sym, ap, if◌then◌else◌, arith, Bool,
  Bool-cases, inl, inr, ◌==◌, ltb, true, false, none, some,
}
use akl.Machine.Words.{wadd, u64}
use akl.Conditional.{Timeval, Timespec, shift, timedwait, timedwait_ms, timedwait_ns}

-- `span` nanoseconds after `tv`.
abbrev pub after : Timeval → ℕ → Timespec
after tv span =
    let nanoseconds = tv.tv_sec * 1000000000 + tv.tv_usec * 1000 + span in
    record { tv_sec = nanoseconds / 1000000000; tv_nsec = nanoseconds % 1000000000 }

Timespec_ext : (a b : Timespec) → a.tv_sec ≡ b.tv_sec → a.tv_nsec ≡ b.tv_nsec → a ≡ b
Timespec_ext a b p q = ap₂ (λ x y. record { tv_sec = x; tv_nsec = y }) p q

is_after :
    (tv : Timeval) (span : ℕ) (t : Timespec)
    → t.tv_sec * 1000000000 + t.tv_nsec ≡ tv.tv_sec * 1000000000 + tv.tv_usec * 1000 + span
    → t.tv_nsec < 1000000000
    → t ≡ after tv span
is_after tv span t e l = Timespec_ext t (after tv span) (omega arith) (omega arith)

-- The shift is right for every sum of two parts of a second but exactly one second.
shift-after :
    (tv : Timeval) (s part : ℕ)
    → tv.tv_usec < 1000000
    → part < 1000000000
    → tv.tv_sec + s + 1 < 2 ^ 63
    → tv.tv_usec * 1000 + part ≢ 1000000000
    → shift (record {
      tv_sec = wadd u64 tv.tv_sec s;
      tv_nsec = wadd u64 (tv.tv_usec * 1000 % u64) part;
    })
      ≡ after tv (s * 1000000000 + part)
shift-after tv s part lu lp ls ne =
    let t = shift (record {
      tv_sec = wadd u64 tv.tv_sec s;
      tv_nsec = wadd u64 (tv.tv_usec * 1000 % u64) part;
    }) in
    is_after tv (s * 1000000000 + part) t (ground arith) (ground arith)

-- The nanoseconds of the clock and these make one second.
abbrev pub one_second : Timeval → ℕ → Bool
one_second tv part = tv.tv_usec * 1000 + part == 1000000000

module _ {W : Type 0} (pthread_cond_timedwait : Timespec → W → ℕ × W) (einval : ℕ) where
  -- It rejects a time whose nanoseconds are a second or more.
  abbrev pub Rejects : Type 0
  Rejects =
      (t : Timespec) (w : W) → 1000000000 ≤ t.tv_nsec → pthread_cond_timedwait t w ≡ (einval, w)

  shifted :
      (tv : Timeval) (s part : ℕ) (w : W)
      → Rejects
      → tv.tv_usec < 1000000
      → part < 1000000000
      → tv.tv_sec + s + 1 < 2 ^ 63
      → pthread_cond_timedwait
          (shift (record {
            tv_sec = wadd u64 tv.tv_sec s;
            tv_nsec = wadd u64 (tv.tv_usec * 1000 % u64) part;
          }))
          w
        ≡ (if one_second tv part
            then (einval, w)
            else pthread_cond_timedwait (after tv (s * 1000000000 + part)) w)
  shifted tv s part w rejects lu lp ls = elim (Bool-cases (one_second tv part)) [
    | inl t ↦ rw (t) (rejects _ w (ground arith))
    | inr f ↦
        rw (f) (
          ap (λ time. pthread_cond_timedwait time w)
            (shift-after tv s part lu lp ls (ground arith)))
  ]

  -- `timedwait_ms(mut, ms)`, when the clock and the deadline's seconds fit in a signed word: it waits
  -- until `ms` milliseconds after now, unless the nanoseconds of now and those of `ms` make exactly one
  -- second: then it fails at once with the error for an invalid time.
  pub timedwait_ms_lem :
      (tv : Timeval) (ms : ℕ) (w : W)
      → Rejects
      → tv.tv_usec < 1000000
      → tv.tv_sec + ms / 1000 + 1 < 2 ^ 63
      → timedwait_ms pthread_cond_timedwait tv ms w ≡ (
          if one_second tv (ms % 1000 * 1000000)
          then (einval, w)
          else pthread_cond_timedwait (after tv (ms * 1000000)) w)
  unfolding timedwait_ms
  timedwait_ms_lem tv ms w rejects lu ls =
      let span : ms / 1000 * 1000000000 + ms % 1000 * 1000000 ≡ ms * 1000000 = omega arith in
      let small : ms % 1000 * 1000000 % u64 ≡ ms % 1000 * 1000000 = omega arith in
      rw (small)
        (rw (sym span) (shifted tv (ms / 1000) (ms % 1000 * 1000000) w rejects lu (omega arith) ls))

  -- `timedwait_ns(mut, ns)` in the same cases: for 0 its assertion aborts; for any other `ns` it
  -- waits until `ns` nanoseconds and 0.999 seconds more for each full millisecond in `ns`, or fails
  -- in the same way.
  pub timedwait_ns_lem :
      (tv : Timeval) (ns : ℕ) (w : W)
      → Rejects
      → tv.tv_usec < 1000000
      → tv.tv_sec + ns / 1000000 + 1 < 2 ^ 63
      → timedwait_ns pthread_cond_timedwait tv ns w ≡ (
          if ns == 0
          then none
          else some (
              if one_second tv (ns % 1000000)
              then (einval, w)
              else pthread_cond_timedwait (after tv (ns + ns / 1000000 * 999000000)) w))
  unfolding timedwait_ns
  timedwait_ns_lem tv ns w rejects lu ls = elim (Bool-cases (ns == 0)) [
    | inl z ↦ let no_time : ltb 0 ns ≡ false = ground arith in rw (z, timedwait_ns, no_time) refl
    | inr pos ↦
        let some_time : ltb 0 ns ≡ true = ground arith in
        let span : ns / 1000000 * 1000000000 + ns % 1000000 ≡ ns + ns / 1000000 * 999000000 =
          omega arith in
        rw (pos, timedwait_ns, some_time, sym span)
          (ap some (shifted tv (ns / 1000000) (ns % 1000000) w rejects lu (omega arith) ls))
  ]

  -- `timedwait(mut, sec)` is `timedwait_ms(mut, sec * 1000)`.
  pub timedwait-timedwait_ms :
      (tv : Timeval) (sec : ℕ) (w : W)
      → tv.tv_usec < 1000000
      → tv.tv_sec + sec + 1 < 2 ^ 63
      → timedwait pthread_cond_timedwait tv sec w
        ≡ timedwait_ms pthread_cond_timedwait tv (sec * 1000) w
  unfolding timedwait timedwait_ms
  timedwait-timedwait_ms tv sec w lu ls =
      ap (λ time. pthread_cond_timedwait time w) (Timespec_ext _ _ (ground arith) (ground arith))
