-- ===== src/ThreadPool/Ends.antt =====
-- delete-me/thread_pool.hpp: the threads of a pool end, and are joined.
use mathlib.Core.List.{append_assoc}
use akl.Base.{ℕ, zero, suc, ◌<◌, ◌≡◌, refl, sym, ap, ◌∙◌, List, [], ◌∷◌, ◌++◌, length, arith}
use akl.ThreadGroup.{
  Entry, Group, Outcome, returned, threw, waits, out_of_fuel, launch, launch_on, join,
}
use akl.ThreadGroup
use akl.ThreadGroup.Joins.{pending, Ending, Plan, plan, Follows, cleanly, failing, join_lem}
use akl.ThreadGroup.Retries.{threads_of, Means, plan-Means}
use akl.ThreadPool.Control.{Control, completed, leave, tried, join_all}

-- The pool when its threads have been joined.
abbrev pub ended : {Q : Type 0} → List ℕ → Control Q → Control Q
ended ts c = record (leave ts ThreadGroup.construct c) { workers = [] }

-- A group whose threads have all been joined.
pub empty_group :
    (arriving : List Entry) (g : Group)
    → g.threads_running ≡ 0
    → g.m_thread_counter ≡ 0
    → pending arriving g ≡ []
    → g ≡ ThreadGroup.construct
empty_group arriving g r e p j = record {
  m_thread_counter = e j;
  threads_running = r j;
  joinqueue = none_queued g.joinqueue p j;
}
  where
    none_queued : (xs : List Entry) → xs ++ arriving ≡ [] → xs ≡ []
    none_queued [] h = refl
    none_queued (x ∷ xs) h = ground arith

module _ {Q : Type 0} (tries fuel : ℕ)
    (again : (arriving : List Entry) (c : Control Q)
      → Ending arriving c.threads
      → c.threads.threads_running < fuel
      → c.threads.threads_running < tries
      → join_all tries fuel arriving c
        ≡ completed (ended (threads_of (pending arriving c.threads)) c)) where
  tried_lem :
      (es : List Entry) (c : Control Q) (p : Plan) (o : Outcome)
      → Follows p o
      → Means p es
      → length es < fuel
      → length es < suc tries
      → tried o c (join_all tries fuel) ≡ completed (ended (threads_of es) c)
  tried_lem es c _ _ (cleanly {ts} {arriving} {g} r e q) (m, t) lf lt =
      ap (λ h. completed (record (leave ts h c) { workers = [] })) (empty_group arriving g r e q)
      ∙ ap (λ us. completed (ended us c)) (sym t)
  tried_lem es c _ _ (failing {ex} {ts} {rest} {arriving} {g} e en) (m, t, shrinks) lf lt =
      let shorter : g.threads_running ≡ length rest =
        en.all ∙ ap (λ (zs : List Entry). length zs) e in
      again arriving (leave ts g c) en (omega arith) (omega arith)
      ∙ ap
          (λ us.
            completed (record (leave us ThreadGroup.construct (leave ts g c)) { workers = [] }))
          (ap threads_of e)
      ∙ λ j. completed (record (leave ts ThreadGroup.construct c) {
        workers = [];
        gone = (append_assoc c.gone ts (threads_of rest) ∙ ap (λ us. c.gone ++ us) (sym t)) j;
      })

pub join_all_lem :
    {Q : Type 0} (tries fuel : ℕ) (arriving : List Entry) (c : Control Q)
    → Ending arriving c.threads
    → c.threads.threads_running < fuel
    → c.threads.threads_running < tries
    → join_all tries fuel arriving c ≡ completed (ended (threads_of (pending arriving c.threads)) c)
unfolding join_all
join_all_lem zero fuel arriving c en lf lt = absurd (omega arith)
join_all_lem (suc tries) fuel arriving c en lf lt =
    tried_lem tries fuel (join_all_lem tries fuel) (pending arriving c.threads) c
      (plan (pending arriving c.threads)) (join fuel arriving c.threads)
      (join_lem fuel arriving c.threads en lf) (plan-Means (pending arriving c.threads))
      (omega (arith, en.all)) (omega (arith, en.all))
