-- ===== src/Examples/Conditionals.antt =====
-- Waits at half past a second, on a clock that has the deadline of the last wait as its state.
use akl.Base.{ℕ, ◌+◌, ◌*◌, ◌/◌, ◌%◌, ◌≡◌, refl, if◌then◌else◌, ltb, ◌==◌, none, some, arith}
use akl.Conditional.{Timeval, Timespec, timedwait_ms, timedwait_ns}
use akl.Conditional.Deadlines.{after, one_second, Rejects, timedwait_ms_lem, timedwait_ns_lem}

abbrev half_past : Timeval
half_past = record { tv_sec = 1700000000; tv_usec = 500000 }

-- It times out.
abbrev wait_until : Timespec → Timespec → ℕ × Timespec
wait_until t last = if ltb t.tv_nsec 1000000000 then (110, t) else (22, last)

abbrev last_wait : Timespec
last_wait = record { tv_sec = 0; tv_nsec = 0 }

wait_until-Rejects : Rejects wait_until 22
wait_until-Rejects t w h = ground arith

timedwait_ms_lem_example : timedwait_ms wait_until half_past 1500 last_wait ≡ (
    if one_second half_past (1500 % 1000 * 1000000)
    then (22, last_wait)
    else wait_until (after half_past (1500 * 1000000)) last_wait)
timedwait_ms_lem_example =
    timedwait_ms_lem wait_until 22 half_past 1500 last_wait wait_until-Rejects (omega arith)
      (omega arith)

timedwait_ns_lem_example : timedwait_ns wait_until half_past 2000000 last_wait ≡ (
    if 2000000 == 0
    then none
    else some (
        if one_second half_past (2000000 % 1000000)
        then (22, last_wait)
        else wait_until (after half_past (2000000 + 2000000 / 1000000 * 999000000)) last_wait))
timedwait_ns_lem_example =
    timedwait_ns_lem wait_until 22 half_past 2000000 last_wait wait_until-Rejects (omega arith)
      (omega arith)

-- At half past a second, a wait of half a second fails.
half_second : timedwait_ms wait_until half_past 500 last_wait ≡ (22, last_wait)
unfolding timedwait_ms
half_second = refl
