-- ===== src/ThreadPool/Restarting.antt =====
-- delete-me/thread_pool.hpp: the threads of a pool end and others are launched.
use akl.Base.{ℕ, ◌+◌, ◌<◌, ◌≡◌, ◌≢◌, refl, sym, ap, ◌∙◌, List, [], ◌++◌, length, arith, Option}
use akl.Machine.Words.{u64}
use akl.ThreadGroup.{
  Entry, Group, Outcome, returned, threw, waits, out_of_fuel, launch, launch_on, join,
}
use akl.ThreadGroup
use akl.ThreadGroup.Joins.{pending, Ending}
use akl.ThreadGroup.Retries.{threads_of}
use akl.ThreadPool.Control.{
  Control, Result, completed, spawn_thread_group, Blocking, arrivals, restart,
}
use akl.ThreadPool.Staff.{staff, grown, spawn_loop_lem}
use akl.ThreadPool.Ends.{join_all_lem}

-- The pool has as many threads as it says, with the ids from 0 on.
pub record Staffed {Q : Type 0} (ncpus : ℕ) (c : Control Q) : Type 0 where
  pub few : c.pool_size < u64
  pub group : c.threads ≡ grown c.pool_size ThreadGroup.construct
  pub workers : c.workers ≡ staff ncpus c.cpu_affinity c.pool_size 0

-- A method completes, and then this holds.
abbrev pub Completes : {Q : Type 0} → Result Q → (Control Q → Type 0) → Type 0
Completes (completed c) P = P c
Completes _ P = ⊥

-- A pool that has just launched its threads.
abbrev pub refilled : {Q : Type 0} → ℕ → Control Q → Control Q
refilled ncpus c = record c {
  threads = grown c.pool_size ThreadGroup.construct;
  workers = staff ncpus c.cpu_affinity c.pool_size 0;
}

pub pending-queue :
    (k : ℕ) (es : List Entry) (g : Group) → g ≡ grown k ThreadGroup.construct → pending es g ≡ es
pending-queue k es g e = ap (λ h. h.joinqueue ++ es) e

-- Every thread of the pool has an entry to come.
pub grown-Ending :
    (k : ℕ) (es : List Entry) (g : Group)
    → g ≡ grown k ThreadGroup.construct
    → length es ≡ k
    → k < u64
    → Ending es g
grown-Ending k es g e l few =
    let running : g.threads_running ≡ k = ap (λ h. h.threads_running) e in
    let counter : g.m_thread_counter ≡ k = ap (λ h. h.m_thread_counter) e in
    record {
      all = running ∙ sym l ∙ ap (λ (xs : List Entry). length xs) (sym (pending-queue k es g e));
      few = omega arith;
      fresh = λ z. omega arith;
    }

module _ {Q : Type 0} (ncpus : ℕ) (some_cpu : ncpus ≢ 0) where
  pub spawn_thread_group_lem :
      (c : Control Q)
      → c.threads ≡ ThreadGroup.construct
      → c.workers ≡ []
      → c.pool_size < u64
      → spawn_thread_group ncpus c ≡ completed (refilled ncpus c)
  unfolding spawn_thread_group
  spawn_thread_group_lem c g w few =
      spawn_loop_lem ncpus some_cpu c.pool_size 0 c (ap (λ h. h.m_thread_counter) g)
        (ap (λ h. h.threads_running) g) (omega arith)
      ∙ λ j. completed (record c {
        threads = grown (sum j) (g j);
        workers = w j ++ staff ncpus c.cpu_affinity c.pool_size 0;
      })
    where
      sum : 0 + c.pool_size ≡ c.pool_size
      sum = omega arith

  module _ (queue : Blocking Q) where
    -- Once the queue is stopped, the threads end.
    arrivals_stopped :
        (ends : List (ℕ × Option ℕ) → List Entry) (c : Control Q)
        → arrivals queue ends (record c { spawn_queue = queue.stop_blocking c.spawn_queue })
          ≡ ends c.workers
    arrivals_stopped ends c = rw (queue.is_alive-stop_blocking c.spawn_queue) refl

    pub restart_lem :
        (fuel k : ℕ) (ends : List (ℕ × Option ℕ) → List Entry) (c : Control Q)
        → c.threads ≡ grown k ThreadGroup.construct
        → length (ends c.workers) ≡ k
        → k < fuel
        → k < u64
        → c.pool_size < u64
        → restart ncpus queue fuel ends c
          ≡ completed (
              refilled ncpus (record c {
                spawn_queue = queue.start_blocking (queue.stop_blocking c.spawn_queue);
                gone = c.gone ++ threads_of (ends c.workers);
              }))
    unfolding restart
    restart_lem fuel k ends c g l f few small =
        let es = ends c.workers in
        let here = pending-queue k es c.threads g in
        let en = grown-Ending k es c.threads g l few in
        let running : c.threads.threads_running ≡ k = ap (λ h. h.threads_running) g in
        let d = record c { spawn_queue = queue.stop_blocking c.spawn_queue } in
        rw
          (
            restart,
            arrivals_stopped ends c,
            join_all_lem fuel fuel es d en (omega arith) (omega arith),
            here,
          )
          (spawn_thread_group_lem _ refl refl small)
