-- ===== src/Semaphore.antt =====
-- delete-me/semaphore.hpp: the semaphore for Apple's systems, over a mutex and a condition variable.
-- The methods hold the mutex except in `cond.wait`, so they run in sections: `post`, `wait` up to its
-- first test, and each later test of `wait`. The condition variable is not part of the repository:
-- `asleep` counts the threads in `cond.wait`, and `awake` those that are to return from it.
-- `signal` wakes a thread if one is asleep, and a thread may wake for no reason.
pub mod Tokens
use akl.Base.{ℕ, ◌+◌, ◌-◌, ◌<◌, ◌==◌, if◌then◌else◌, ltb}
use akl.Machine.Words.{wadd, wsub, u64}

pub record Semaphore : Type 0 where
  pub semvalue : ℕ  -- size_t
  pub waitercount : ℕ  -- size_t
  pub asleep : ℕ
  pub awake : ℕ

-- The constructors. The copy constructor does not copy.
abbrev pub construct : Semaphore
construct = record { semvalue = 0; waitercount = 0; asleep = 0; awake = 0 }

-- `cond.signal()`, and a thread that wakes for no reason
abbrev pub signal : Semaphore → Semaphore
signal s = if s.asleep == 0 then s else record s { asleep = s.asleep - 1; awake = s.awake + 1 }

unfoldable pub post : Semaphore → Semaphore
post s =
    let s' = if ltb 0 s.waitercount then signal s else s in
    record s' { semvalue = wadd u64 s'.semvalue 1 }

-- From the loop's test on: the thread sleeps, or leaves the loop and the method.
unfoldable pub resume : Semaphore → Semaphore
resume s =
    if s.semvalue == 0
    then record s { asleep = s.asleep + 1 }
    else record s { waitercount = wsub u64 s.waitercount 1; semvalue = wsub u64 s.semvalue 1 }

-- The first section of `wait`.
unfoldable pub wait : Semaphore → Semaphore
unfolding resume
wait s = resume (record s { waitercount = wadd u64 s.waitercount 1 })

-- A thread returns from `cond.wait` and tests again.
unfoldable pub wake : Semaphore → Semaphore
unfolding resume
wake s = resume (record s { awake = s.awake - 1 })
