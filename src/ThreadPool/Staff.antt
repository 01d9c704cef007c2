-- ===== src/ThreadPool/Staff.antt =====
-- delete-me/thread_pool.hpp: the threads that `spawn_thread_group` launches.
use mathlib.Core.List.{append_assoc, append-nil}
use akl.Base.{
  ℕ, zero, suc, ◌+◌, ◌-◌, ◌%◌, ◌^◌, ◌<◌, ◌≤◌, ◌≡◌, ◌≢◌, refl, sym, ◌∙◌, Option, none, some, List,
  [], ◌∷◌, ◌++◌, ◌==◌, if◌then◌else◌, Bool, false, Bool-cases, inl, inr, arith,
}
use akl.Machine.Words.{u64}
use akl.ThreadGroup.{Group, launch, launch_on}
use akl.ThreadPool.Control.{Control, completed, spawn, spawn_loop}

-- The cpu of the thread `i`, and the threads from `i` on.
abbrev pub cpu_of : ℕ → Bool → ℕ → Option ℕ
cpu_of ncpus affinity i = if affinity then some (i % ncpus) else none

abbrev pub staff : ℕ → Bool → (k i : ℕ) → List (ℕ × Option ℕ)
staff ncpus affinity zero i = []
staff ncpus affinity (suc k) i = (i, cpu_of ncpus affinity i) ∷ staff ncpus affinity k (i + 1)

-- The group after `k` threads more.
abbrev pub grown : ℕ → Group → Group
grown n g = record g { m_thread_counter = n; threads_running = n }

grown_lem :
    (i : ℕ) (g : Group)
    → g.m_thread_counter ≡ i
    → g.threads_running ≡ i
    → i + 1 < u64
    → (launch g).1 ≡ grown (i + 1) g
unfolding launch
grown_lem i g e r few j = record {
  m_thread_counter = counter j;
  threads_running = running j;
  joinqueue = g.joinqueue;
}
  where
    counter : (g.m_thread_counter + 1) % u64 ≡ i + 1
    counter = omega arith

    running : (g.threads_running + 1) % u64 ≡ i + 1
    running = omega arith

launch_lem :
    (i : ℕ) (g : Group)
    → g.m_thread_counter ≡ i
    → g.threads_running ≡ i
    → i + 1 < u64
    → launch g ≡ (i, grown (i + 1) g)
unfolding launch
launch_lem i g e r few j = (e j, grown_lem i g e r few j)

launch_on_lem :
    (i cpu_id : ℕ) (g : Group)
    → g.m_thread_counter ≡ i
    → g.threads_running ≡ i
    → i + 1 < u64
    → cpu_id ≤ i
    → launch_on cpu_id g ≡ ((i, some cpu_id), grown (i + 1) g)
unfolding launch_on launch
launch_on_lem i cpu_id g e r few l =
    let h : (cpu_id == 2 ^ 64 - 1) ≡ false = ground arith in
    rw (launch_on, h) (λ j. ((e j, some cpu_id), grown_lem i g e r few j))

module _ {Q : Type 0} (ncpus : ℕ) (some_cpu : ncpus ≢ 0) where
  spawn_lem :
      (i : ℕ) (c : Control Q)
      → c.threads.m_thread_counter ≡ i
      → c.threads.threads_running ≡ i
      → i + 1 < u64
      → spawn ncpus i c
        ≡ some (record c {
          threads = grown (i + 1) c.threads;
          workers = c.workers ++ (i, cpu_of ncpus c.cpu_affinity i) ∷ [];
        })
  unfolding spawn
  spawn_lem i c e r few = elim (Bool-cases c.cpu_affinity) [
    | inl a ↦
        let n : (ncpus == 0) ≡ false = ground arith in
        rw (spawn, a, n, launch_on_lem i (i % ncpus) c.threads e r few (omega arith)) refl
    | inr a ↦ rw (spawn, a, launch_lem i c.threads e r few) refl
  ]

  pub spawn_loop_lem :
      (k i : ℕ) (c : Control Q)
      → c.threads.m_thread_counter ≡ i
      → c.threads.threads_running ≡ i
      → i + k < u64
      → spawn_loop ncpus k i c
        ≡ completed (record c {
          threads = grown (i + k) c.threads;
          workers = c.workers ++ staff ncpus c.cpu_affinity k i;
        })
  unfolding spawn_loop
  spawn_loop_lem zero i c e r few = λ j. completed (record c {
    threads = record c.threads { m_thread_counter = counter j; threads_running = running j };
    workers = sym (append-nil c.workers) j;
  })
    where
      counter : c.threads.m_thread_counter ≡ i + 0
      counter = omega arith

      running : c.threads.threads_running ≡ i + 0
      running = omega arith
  spawn_loop_lem (suc k) i c e r few =
      rw (spawn_loop, spawn_lem i c e r (omega arith))
        (spawn_loop_lem k (i + 1) _ refl refl (omega arith) ∙ λ j. completed (record c {
          threads = grown (sum j) c.threads;
          workers =
              append_assoc c.workers ((i, cpu_of ncpus c.cpu_affinity i) ∷ [])
                (staff ncpus c.cpu_affinity k (i + 1)) j;
        }))
    where
      sum : i + 1 + k ≡ i + suc k
      sum = omega arith
