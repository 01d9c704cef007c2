-- ===== src/ThreadPool/Counting.antt =====
-- delete-me/thread_pool.hpp: what the counters and the exceptions say of the tasks.
use akl.Base.{ℕ, zero, suc, ◌-◌, ◌↔◌, ◌+◌, ◌%◌, ◌<◌, ◌≡◌, refl, true, List, [], arith}
use akl.Machine.Words.{u64}
use akl.Machine.Crew.{
  total, total-move, crew, total-crew_zero, total-append, Reachable, Reachable-invariant,
}
use akl.ThreadPool.{
  BlockingQueue, Pool, construct, launch, raise, complete, returned, join_round, join_enter,
  join_again, Place, producer, joiner, fetching, working, caught, finished, Move, launches, fetches,
  task_returns, workers, threads,
}

-- A thread with a task that is not counted.
abbrev pub busy : Place → ℕ
busy (working _ _) = 1
busy (caught _ _) = 1
busy (finished _) = 1
busy _ = 0

module _ {Q : Type 0} (queue : BlockingQueue Q) where
  pub record Counted (m : Pool Q) (ps : List Place) : Type 0 where
    pub inserted : m.tasks_inserted ≡ m.launched % u64
    pub completed : m.tasks_completed ≡ m.counted % u64
    pub open_tasks : m.launched ≡ m.counted + queue.size m.spawn_queue + total busy ps

  -- The totals before and after a move.
  abbrev pub Moved : (ps qs : List Place) → Place → Place → Type 0
  Moved ps qs p q = total busy qs + busy p ≡ total busy ps + busy q

  SizeGuard : {m m' : Pool Q} {p q : Place} → Move queue m p m' q → Type 0
  SizeGuard {m} (fetches t rest e) = queue.size m.spawn_queue ≡ queue.size rest + 1
  SizeGuard {m} (launches t) =
      queue.size (queue.enqueue t m.spawn_queue) ≡ queue.size m.spawn_queue + 1
  SizeGuard _ = Unit

  guard : {m m' : Pool Q} {p q : Place} (mv : Move queue m p m' q) → SizeGuard mv
  unfolding SizeGuard
  guard {m} (fetches t rest e) = queue.size-dequeue m.spawn_queue t rest e
  guard {m} (launches t) = queue.size-enqueue t m.spawn_queue
  guard _ = tt

  pub Move-Counted :
      {m m' : Pool Q} {p q : Place} {ps qs : List Place}
      → Move queue m p m' q
      → Moved ps qs p q
      → Counted m ps
      → Counted m' qs
  unfolding launch raise complete join_round join_enter join_again SizeGuard
  Move-Counted task_returns f c = ground arith
  Move-Counted mv f c = ground (arith, guard mv)

  pub total-workers :
      (w : Place → ℕ) → ((id : ℕ) → w (fetching id) ≡ 0) → (n : ℕ) → total w (workers n) ≡ 0
  unfolding total workers
  total-workers w h zero = refl
  total-workers w h (suc n) = omega (arith, h n, total-workers w h n)

  -- The weight of the threads at the start.
  pub total-threads :
      (w : Place → ℕ)
      → w producer ≡ 0
      → ((id : ℕ) → w (fetching id) ≡ 0)
      → (k n : ℕ) → total w (threads k n) ≡ w joiner
  unfolding total
  total-threads w hp hf k n = omega (
    arith,
    total-append w (crew k producer) (workers n),
    total-crew_zero w k producer hp,
    total-workers w hf n,
  )

  pub Reachable-Counted :
      (k n : ℕ) {m : Pool Q} {ps : List Place}
      → Reachable (Move queue) (construct queue) (threads k n) m ps
      → Counted m ps
  Reachable-Counted k n r =
      Reachable-invariant Counted
        (record {
          inserted = refl;
          completed = refl;
          open_tasks = omega (arith, queue.size-empty, total-threads busy refl (λ _. refl) k n);
        })
        (λ m m' p q before behind c mv. Move-Counted mv (total-move busy before p q behind) c) r

  -- No exception waits, no task is in the queue, and no thread has one.
  abbrev pub AllDone : Pool Q → List Place → Type 0
  AllDone m ps = (m.exception_queue ≡ []) × (queue.size m.spawn_queue ≡ 0) × (total busy ps ≡ 0)

  join_round-AllDone :
      (m : Pool Q) (ps : List Place)
      → Counted m ps
      → m.launched < u64
      → ((join_round m).0 ≡ returned) ↔ AllDone m ps
  unfolding join_round
  join_round-AllDone m ps c lt = ground arith

  -- In every state that a pool reaches with fewer than 2 ^ 64 tasks launched: a call of `join`, before
  -- and after it has slept, returns normally if and only if no exception waits to be thrown, the queue
  -- is empty and no thread of the pool has a task that it has not counted.
  pub returned-AllDone :
      (k n : ℕ) (m : Pool Q) (ps : List Place)
      → Reachable (Move queue) (construct queue) (threads k n) m ps
      → m.launched < u64
      → (((join_enter m).0 ≡ returned) ↔ AllDone m ps)
        × (((join_again m).0 ≡ returned) ↔ AllDone m ps)
  unfolding join_enter join_again
  returned-AllDone k n m ps r lt =
      let c = Reachable-Counted k n r in
      (
        join_round-AllDone (record m { waiting_on_join = true }) ps (ground arith) lt,
        join_round-AllDone (record m { awake = m.awake - 1 }) ps (ground arith) lt,
      )
