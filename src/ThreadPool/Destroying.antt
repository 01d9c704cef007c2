-- ===== src/ThreadPool/Destroying.antt =====
-- delete-me/thread_pool.hpp: a pool is destroyed.
use akl.Base.{ℕ, ◌<◌, ◌≡◌, refl, ap, ◌∙◌, List, [], ◌∷◌, length, arith}
use akl.ThreadGroup.{Entry, Outcome, join}
use akl.ThreadGroup.Joins.{pending, Plan, plan, Follows, cleanly, failing, join_lem}
use akl.ThreadGroup.Retries.{threads_of, messages, Means, plan-Means}
use akl.ThreadPool.Control.{Control, Result, completed, aborts, leave, tried, destroy_all_threads}
use akl.ThreadPool.Ends.{ended, empty_group}
use akl.ThreadPool.Restarting.{Staffed, pending-queue, grown-Ending}

-- What `destroy_all_threads` is to do when these are the messages.
abbrev pub destroyed : {Q : Type 0} → List ℕ → Control Q → Result Q
destroyed [] c = completed c
destroyed (_ ∷ _) c = aborts

tried_once :
    {Q : Type 0} (es : List Entry) (c : Control Q) (p : Plan) (o : Outcome)
    → Follows p o
    → Means p es
    → tried o c (λ _ _. aborts) ≡ destroyed (messages es) (ended (threads_of es) c)
tried_once es c _ _ (cleanly {ts} {arriving} {g} r e q) (m, t) =
    rw (m, t)
      (ap (λ h. completed (record (leave ts h c) { workers = [] })) (empty_group arriving g r e q))
tried_once es c _ _ (failing {ex} {ts} {rest} {arriving} {g} e en) (m, t, shrinks) = rw m refl

module _ {Q : Type 0} (ncpus : ℕ) (stop_blocking start_blocking : Q → Q) where
  -- The destructor, once the queue is empty, of a pool that runs as many threads as it says, whose
  -- threads end in any order: if none of them ends with a message, the queue is stopped, all threads
  -- are joined, each once and in the order in which they ended, and none runs; if one does, the
  -- assertion aborts the program.
  pub destroy_all_threads_lem :
      (fuel : ℕ) (es : List Entry) (c : Control Q)
      → Staffed ncpus c
      → length es ≡ c.pool_size
      → c.pool_size < fuel
      → destroy_all_threads ncpus stop_blocking start_blocking fuel es c
        ≡ destroyed
            (messages es)
            (ended (threads_of es) (record c { spawn_queue = stop_blocking c.spawn_queue }))
  unfolding destroy_all_threads
  destroy_all_threads_lem fuel es c st l f =
      let d = record c { spawn_queue = stop_blocking c.spawn_queue } in
      let running : c.threads.threads_running ≡ c.pool_size =
        ap (λ h. h.threads_running) st.group in
      let en = grown-Ending c.pool_size es c.threads st.group l st.few in
      tried_once (pending es c.threads) d (plan (pending es c.threads)) (join fuel es c.threads)
        (join_lem fuel es c.threads en (omega arith)) (plan-Means (pending es c.threads))
      ∙ ap (λ xs. destroyed (messages xs) (ended (threads_of xs) d))
          (pending-queue c.pool_size es c.threads st.group)
