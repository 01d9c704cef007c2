-- ===== src/Examples/Pools.antt =====
-- A pool with one thread: another thread launches a task, a third one joins, and the task throws.
use akl.Base.{
  ◌+◌, ◌<◌, ◌≡◌, ◌↔◌, refl, true, Option, none, some, List, [], ◌∷◌, ◌++◌, length, length-append,
  arith,
}
use akl.Machine.Crew.{total, crew, Reachable, start, step}
use akl.ThreadPool.{
  Task, BlockingQueue, Pool, construct, launch, raise, returned, join_round, join_enter, join_again,
  Place, producer, joiner, in_join, fetching, working, finished, workers, threads, Move, launches,
  sees_empty, joins, fetches, task_throws, raises,
}
use akl.ThreadPool.Counting.{AllDone, returned-AllDone}
use akl.ThreadPool.Exceptions.{count, catches, exceptions_lem}
use akl.ThreadPool.Joining.{sleeper_lem}

abbrev first : List Task → Option (Task × List Task)
first [] = none
first (t ∷ ts) = some (t, ts)

size-first :
    (q : List Task) (t : Task) (r : List Task) → first q ≡ some (t, r) → length q ≡ length r + 1
size-first [] t r e = cc
size-first (x ∷ xs) t r e = ground arith

abbrev queue : BlockingQueue (List Task)
queue = record {
  empty = [];
  enqueue = λ t q. q ++ t ∷ [];
  dequeue = first;
  size = λ q. length q;
  size-empty = refl;
  size-enqueue = λ t q. omega (arith, length-append q (t ∷ []));
  size-dequeue = size-first;
}

abbrev task : Task
task = record { spawn_function = 7; virtual_thread_id = 3 }

abbrev fetched : Pool (List Task)
fetched = record (launch queue task (construct queue)) { spawn_queue = [] }

abbrev sleeping : Pool (List Task)
sleeping = (join_enter fetched).1

abbrev at_work : List Place
at_work = in_join ∷ producer ∷ working 0 task ∷ []

sleeping-Reachable : Reachable (Move queue) (construct queue) (threads 1 1) sleeping at_work
unfolding crew workers launch join_enter join_round
sleeping-Reachable =
    step [] (producer ∷ working 0 task ∷ [])
      (step [] (producer ∷ working 0 task ∷ [])
        (step (joiner ∷ producer ∷ []) []
          (step (joiner ∷ []) (fetching 0 ∷ []) start (launches task)) (fetches task [] refl))
        (sees_empty refl))
      joins

abbrev thrown : Pool (List Task)
thrown = let m = record sleeping { raised = 42 ∷ [] } in record (raise 42 m) { pushed = 42 ∷ [] }

thrown-Reachable :
    Reachable
      (Move queue)
      (construct queue)
      (threads 1 1)
      thrown
      (in_join ∷ producer ∷ finished 3 ∷ [])
unfolding join_enter join_round raise launch
thrown-Reachable =
    step (in_join ∷ producer ∷ []) []
      (step (in_join ∷ producer ∷ []) [] sleeping-Reachable (task_throws 42)) raises

returned-AllDone_example :
    (((join_enter sleeping).0 ≡ returned) ↔ AllDone queue sleeping at_work)
    × (((join_again sleeping).0 ≡ returned) ↔ AllDone queue sleeping at_work)
unfolding join_enter join_round launch
returned-AllDone_example =
    returned-AllDone queue 1 1 sleeping at_work sleeping-Reachable (omega arith)

exceptions_lem_example :
    (thrown.pushed ≡ thrown.thrown ++ thrown.exception_queue)
    × (count 42 thrown.raised
        ≡ count 42 thrown.thrown
          + count 42 thrown.exception_queue
          + total (catches 42) (in_join ∷ producer ∷ finished 3 ∷ []))
exceptions_lem_example =
    exceptions_lem queue 1 1 thrown (in_join ∷ producer ∷ finished 3 ∷ []) 42 thrown-Reachable

sleeper_lem_example :
    (sleeping.exception_queue ≡ [])
    × (sleeping.counted < sleeping.launched)
    × (sleeping.waiting_on_join ≡ true)
unfolding join_enter join_round launch
sleeper_lem_example = sleeper_lem queue 1 1 sleeping at_work sleeping-Reachable (omega arith)
