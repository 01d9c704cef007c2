-- ===== src/ThreadPool/Control.antt =====
-- delete-me/thread_pool.hpp: how a pool starts and ends its threads, on the thread group of
-- delete-me/thread_group.hpp. `stop_blocking` and `start_blocking` are those of the class
-- `blocking_queue`, which is not part of the repository. `arriving` are the entries of the threads
-- that end during a `join`, in their order; `ends` gives those of all threads. `workers` and `gone` are no fields of the class:
-- they record the thread ids and the cpus of the threads that run, and the threads that `join` has
-- joined. Output is left out: `logstream` returns.
use akl.Base.{
  ℕ, zero, suc, ◌+◌, ◌%◌, ◌≡◌, Option, none, some, List, [], ◌∷◌, ◌++◌, ◌==◌, if◌then◌else◌, Bool,
  true, false, not,
}
use akl.ThreadGroup.{
  Entry, Group, Outcome, returned, threw, waits, out_of_fuel, launch, launch_on, join,
}
use akl.ThreadGroup

module _ (Q : Type 0) where
  pub record Control : Type 0 where
    pub threads : Group
    pub spawn_queue : Q
    pub pool_size : ℕ  -- size_t
    pub cpu_affinity : Bool
    pub workers : List (ℕ × Option ℕ)
    pub gone : List ℕ

-- How a method ends. `sleeps` is a wait in `join` that no entry ends.
pub data Result (Q : Type 0) : Type 0 where
  completed : Control Q → Result Q
  divides_by_zero aborts sleeps unfinished : Result Q

-- The constructor, which gives the fields their values and launches the threads.
abbrev pub initial : {Q : Type 0} → ℕ → Bool → Q → Control Q
initial nthreads affinity queue = record {
  threads = ThreadGroup.construct;
  spawn_queue = queue;
  pool_size = nthreads;
  cpu_affinity = affinity;
  workers = [];
  gone = [];
}

module _ {Q : Type 0} (ncpus : ℕ) where
  -- A thread has been launched.
  abbrev pub hired : (ℕ × Option ℕ) × Group → Control Q → Control Q
  hired (worker, g) c = record c { threads = g; workers = c.workers ++ worker ∷ [] }

  -- The body of the loop of `spawn_thread_group`.
  unfoldable pub spawn : ℕ → Control Q → Option (Control Q)
  spawn i c =
      if c.cpu_affinity
      then (if ncpus == 0 then none else some (hired (launch_on (i % ncpus) c.threads) c))
      else (let (id, g) = launch c.threads in some (hired ((id, none), g) c))

  -- The loop, with `k` rounds to go.
  unfoldable pub spawn_loop : (k i : ℕ) → Control Q → Result Q
  spawn_loop zero i c = completed c
  spawn_loop (suc k) i c = elim (spawn i c) [
    | none ↦ divides_by_zero
    | some c' ↦ spawn_loop k (i + 1) c'
  ]

  unfoldable pub spawn_thread_group : Control Q → Result Q
  spawn_thread_group c = spawn_loop c.pool_size 0 c

  unfoldable pub construct : ℕ → Bool → Q → Result Q
  construct nthreads affinity queue = spawn_thread_group (initial nthreads affinity queue)

-- Some threads have been joined.
abbrev pub leave : {Q : Type 0} → List ℕ → Group → Control Q → Control Q
leave ts g c = record c { threads = g; gone = c.gone ++ ts }

-- A round of the loop round `threads.join()`, and what comes next when something is thrown.
abbrev pub tried :
    {Q : Type 0} → Outcome → Control Q → (List Entry → Control Q → Result Q) → Result Q
tried (returned ts later g) c next = completed (record (leave ts g c) { workers = [] })
tried (threw ex ts later g) c next = next later (leave ts g c)
tried waits c next = sleeps
tried out_of_fuel c next = unfinished

-- The loop, which ends when nothing is thrown. `tries` bounds its rounds.
unfoldable pub join_all : {Q : Type 0} → (tries fuel : ℕ) → List Entry → Control Q → Result Q
join_all zero fuel arriving c = unfinished
join_all (suc tries) fuel arriving c = tried (join fuel arriving c.threads) c (join_all tries fuel)

abbrev pub same : Bool → Bool → Bool
same true b = b
same false b = not b

-- The class `blocking_queue`, as far as it ends threads: while it is alive, `dequeue` waits for a task
-- or has one; when it is stopped, `dequeue` says so, and `wait_for_task` returns.
pub record Blocking (Q : Type 0) : Type 0 where
  pub stop_blocking : Q → Q
  pub start_blocking : Q → Q
  pub is_alive : Q → Bool
  pub is_alive-stop_blocking : (q : Q) → is_alive (stop_blocking q) ≡ false
  pub is_alive-start_blocking : (q : Q) → is_alive (start_blocking q) ≡ true

-- The entries of the threads that end while the queue is as it is: of all of them, in some order, if
-- it is stopped, and of none if it is alive.
abbrev pub arrivals :
    {Q : Type 0} → Blocking Q → (List (ℕ × Option ℕ) → List Entry) → Control Q → List Entry
arrivals queue ends c = if queue.is_alive c.spawn_queue then [] else ends c.workers

module _ {Q : Type 0} (ncpus : ℕ) (queue : Blocking Q) (fuel : ℕ) where
  -- The threads end, and others are launched.
  unfoldable pub restart : (List (ℕ × Option ℕ) → List Entry) → Control Q → Result Q
  restart ends c =
      let stopped = record c { spawn_queue = queue.stop_blocking c.spawn_queue } in
      elim (join_all fuel fuel (arrivals queue ends stopped) stopped) [
        | completed d ↦
            spawn_thread_group ncpus (record d { spawn_queue = queue.start_blocking d.spawn_queue })
        | divides_by_zero ↦ divides_by_zero
        | aborts ↦ aborts
        | sleeps ↦ sleeps
        | unfinished ↦ unfinished
      ]

  unfoldable pub resize : (List (ℕ × Option ℕ) → List Entry) → ℕ → Control Q → Result Q
  resize ends nthreads c =
      if nthreads == c.pool_size
      then completed c
      else restart ends (record c { pool_size = nthreads })

  unfoldable pub set_cpu_affinity : (List (ℕ × Option ℕ) → List Entry) → Bool → Control Q → Result Q
  set_cpu_affinity ends affinity c =
      if same affinity c.cpu_affinity
      then completed c
      else restart ends (record c { cpu_affinity = affinity })

module _ {Q : Type 0} (ncpus : ℕ) (stop_blocking start_blocking : Q → Q) (fuel : ℕ) where
  -- `destroy_all_threads` after `wait_until_empty`; the destructor calls it only.
  unfoldable pub destroy_all_threads : List Entry → Control Q → Result Q
  destroy_all_threads arriving c =
      let d = record c { spawn_queue = stop_blocking c.spawn_queue } in
      tried (join fuel arriving d.threads) d (λ _ _. aborts)
