-- ===== src/ThreadPool.antt =====
-- delete-me/thread_pool.hpp: the tasks of a pool. The code between `mut.lock()` and `mut.unlock()`
-- runs as one move, and so does each call of `spawn_queue`, whose class is not part of the
-- repository. A message of an exception is a number. `asleep` and `awake` count the threads in
-- `event_condition.wait`: those that sleep, and those that are to return. `launched`,
-- `counted`, `raised`, `pushed` and `thrown` are no fields of the class: they record the calls of
-- `launch`, the tasks that a thread has counted, and the exceptions that tasks have thrown, that the
-- catching threads have gone through the section with, and that `join` has thrown. The last three
-- are written by the moves only, from where a thread is and how `join` ends.
pub mod Counting
pub mod Rounds
pub mod Exceptions
pub mod Joining
pub mod Control
pub mod Staff
pub mod Ends
pub mod Restarting
pub mod Resizing
pub mod Destroying
use akl.Base.{
  ℕ, zero, suc, ◌+◌, ◌-◌, ◌<◌, ◌^◌, ◌≡◌, Bool, true, false, ◌&&◌, Option, none, some, List, [], ◌∷◌,
  ◌++◌, ◌==◌, if◌then◌else◌,
}
use akl.Machine.Words.{wadd, u64}
use akl.Machine.Crew.{crew}

-- What `launch` is given: the function and the thread id.
pub record Task : Type 0 where
  pub spawn_function : ℕ
  pub virtual_thread_id : ℕ  -- int

-- The class `blocking_queue`, while it is not stopped: `dequeue` waits when it is `none`.
pub record BlockingQueue (Q : Type 0) : Type 0 where
  pub empty : Q
  pub enqueue : Task → Q → Q
  pub dequeue : Q → Option (Task × Q)
  pub size : Q → ℕ
  pub size-empty : size empty ≡ 0
  pub size-enqueue : (t : Task) (q : Q) → size (enqueue t q) ≡ size q + 1
  pub size-dequeue : (q : Q) (t : Task) (r : Q) → dequeue q ≡ some (t, r) → size q ≡ size r + 1

module _ (Q : Type 0) where
  pub record Pool : Type 0 where
    pub spawn_queue : Q
    pub tasks_inserted : ℕ  -- size_t
    pub tasks_completed : ℕ  -- size_t
    pub exception_queue : List ℕ
    pub waiting_on_join : Bool
    pub asleep : ℕ
    pub awake : ℕ
    pub launched : ℕ
    pub counted : ℕ
    pub raised : List ℕ
    pub pushed : List ℕ
    pub thrown : List ℕ

module _ {Q : Type 0} (queue : BlockingQueue Q) where
  -- The constructor.
  abbrev pub construct : Pool Q
  construct = record {
    spawn_queue = queue.empty;
    tasks_inserted = 0;
    tasks_completed = 0;
    exception_queue = [];
    waiting_on_join = false;
    asleep = 0;
    awake = 0;
    launched = 0;
    counted = 0;
    raised = [];
    pushed = [];
    thrown = [];
  }

  unfoldable pub launch : Task → Pool Q → Pool Q
  launch t m = record m {
    tasks_inserted = wadd u64 m.tasks_inserted 1;
    spawn_queue = queue.enqueue t m.spawn_queue;
    launched = m.launched + 1;
  }

module _ {Q : Type 0} where
  -- `event_condition.signal()`
  abbrev pub signal : Pool Q → Pool Q
  signal m = if m.asleep == 0 then m else record m { asleep = m.asleep - 1; awake = m.awake + 1 }

  -- The `catch` in `wait_for_task`.
  unfoldable pub raise : ℕ → Pool Q → Pool Q
  raise ex m = signal (record m { exception_queue = m.exception_queue ++ ex ∷ [] })

  -- The end of the body of `wait_for_task`.
  unfoldable pub complete : Pool Q → Pool Q
  complete m =
      let m' = record m {
        tasks_completed = wadd u64 m.tasks_completed 1;
        counted = m.counted + 1;
      } in
      if m'.waiting_on_join && m'.tasks_completed == m'.tasks_inserted then signal m' else m'

-- How a section of `join` ends.
pub data Joined : Type 0 where
  threw : ℕ → Joined
  returned waits : Joined

module _ {Q : Type 0} where
  -- A round of the loop of `join`.
  unfoldable pub join_round : Pool Q → Joined × Pool Q
  join_round m = elim m.exception_queue [
    | [] ↦
        if m.tasks_completed == m.tasks_inserted
        then (returned, record m { waiting_on_join = false })
        else (waits, record m { asleep = m.asleep + 1 })
    | ex ∷ rest ↦ (threw ex, record m { exception_queue = rest; waiting_on_join = false })
  ]

  -- Its first section, after `wait_until_empty`.
  unfoldable pub join_enter : Pool Q → Joined × Pool Q
  unfolding join_round
  join_enter m = join_round (record m { waiting_on_join = true })

  -- The return from `event_condition.wait`.
  unfoldable pub join_again : Pool Q → Joined × Pool Q
  unfolding join_round
  join_again m = join_round (record m { awake = m.awake - 1 })

-- Where a thread is. A thread of the pool is there with its thread id.
pub data Place : Type 0 where
  producer : Place  -- may call `launch`
  joiner : Place  -- may call `join`
  entering : Place  -- in `join`, before `mut.lock()`
  in_join : Place  -- is in `event_condition.wait`
  fetching : ℕ → Place  -- before `spawn_queue.dequeue()`
  working : ℕ → Task → Place  -- before the call of the task
  caught : ℕ → ℕ → Place  -- in the `catch`, with the message
  finished : ℕ → Place  -- after the `try`

-- Whether `join` has ended or sleeps.
abbrev pub after_join : Joined → Place
after_join waits = in_join
after_join _ = joiner

-- What `join` has thrown.
abbrev pub noted : {Q : Type 0} → Joined → Pool Q → Pool Q
noted (threw ex) m = record m { thrown = m.thrown ++ ex ∷ [] }
noted returned m = m
noted waits m = m

-- The thread id while a task runs.
abbrev pub set_id : ℕ → Task → ℕ
set_id id t = if t.virtual_thread_id == 2 ^ 32 - 1 then id else t.virtual_thread_id

-- `n` threads of the pool, with the ids that their thread group gives them.
unfoldable pub workers : ℕ → List Place
workers zero = []
workers (suc n) = fetching n ∷ workers n

-- The threads at the start: one joins, and others launch.
abbrev pub threads : (producers pool_size : ℕ) → List Place
threads producers pool_size = joiner ∷ (crew producers producer ++ workers pool_size)

module _ {Q : Type 0} (queue : BlockingQueue Q) where
  pub data Move (m : Pool Q) : Place → Pool Q → Place → Type 0 where
    launches : (t : Task) → Move m producer (launch queue t m) producer
    sees_empty : queue.size m.spawn_queue ≡ 0 → Move m joiner m entering  -- `wait_until_empty`
    joins : Move m entering (noted (join_enter m).0 (join_enter m).1) (after_join (join_enter m).0)
    wakes :
        0 < m.awake
        → Move m in_join (noted (join_again m).0 (join_again m).1) (after_join (join_again m).0)
    wakes_for_nothing : Move m in_join (signal m) in_join
    fetches :
        {id : ℕ} (t : Task) (rest : Q)
        → queue.dequeue m.spawn_queue ≡ some (t, rest)
        → Move m (fetching id) (record m { spawn_queue = rest }) (working id t)
    task_returns : {id : ℕ} {t : Task} → Move m (working id t) m (finished id)
    task_throws :
        {id : ℕ} {t : Task} (ex : ℕ)
        → Move m
            (working id t)
            (record m { raised = m.raised ++ ex ∷ [] })
            (caught (set_id id t) ex)
    raises :
        {id ex : ℕ}
        → Move m (caught id ex) (record (raise ex m) { pushed = m.pushed ++ ex ∷ [] }) (finished id)
    completes : {id : ℕ} → Move m (finished id) (complete m) (fetching id)
