-- ===== src/CancellableBarrier.antt =====
-- delete-me/cancellable_barrier.hpp: the barrier that flips its sense. Its methods hold the mutex
-- except in `conditional.wait`, so they run in sections: `wait` up to its first test, and each later
-- test. `waiting` counts the threads in the loop of `wait` by their `listening_on`. Each of them may
-- test again at any time, after a broadcast or for no reason.
pub mod Rounds
use akl.Base.{ℕ, ◌+◌, ◌-◌, ◌%◌, Bool, true, false, not, ◌&&◌, ◌==◌, if◌then◌else◌}
use akl.Machine.Words.{wadd, u32}

abbrev pub differ : Bool → Bool → Bool
differ true b = not b
differ false b = b

pub record Barrier : Type 0 where
  pub needed : ℕ  -- int
  pub called : ℕ  -- int
  pub barrier_sense : Bool
  pub barrier_release : Bool
  pub alive : Bool
  pub waiting : Bool → ℕ

abbrev pub construct : ℕ → Barrier
construct numthreads = record {
  needed = numthreads % u32;
  called = 0;
  barrier_sense = false;
  barrier_release = true;
  alive = true;
  waiting = λ _. 0;
}

unfoldable pub resize_unsafe : ℕ → Barrier → Barrier
resize_unsafe numthreads b = record b { needed = numthreads % u32 }

unfoldable pub cancel : Barrier → Barrier
cancel b = record b { alive = false }

abbrev pub put : (Bool → ℕ) → Bool → ℕ → Bool → ℕ
put waiting l n k = if differ k l then waiting k else n

-- From the test of the loop on: the thread stays in the loop, or leaves the method.
unfoldable pub resume : Bool → Barrier → Barrier
resume listening_on b =
    if differ b.barrier_release listening_on && b.alive
    then record b { waiting = put b.waiting listening_on (b.waiting listening_on + 1) }
    else b

-- The first section of `wait`.
unfoldable pub wait : Barrier → Barrier
unfolding resume
wait b =
    let called = wadd u32 b.called 1 in
    let more = resume b.barrier_sense (record b { called = called }) in
    let fallen = record b {
      called = 0;
      barrier_release = b.barrier_sense;
      barrier_sense = not b.barrier_sense;
    } in
    if not b.alive then b else (if called == b.needed then fallen else more)

-- A thread returns from `conditional.wait` and tests again.
unfoldable pub again : Bool → Barrier → Barrier
unfolding resume
again listening_on b =
    resume listening_on
      (record b { waiting = put b.waiting listening_on (b.waiting listening_on - 1) })
