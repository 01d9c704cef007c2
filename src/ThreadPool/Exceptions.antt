-- ===== src/ThreadPool/Exceptions.antt =====
-- delete-me/thread_pool.hpp: the exceptions of the tasks on their way to `join`.
use mathlib.Core.List.{append_assoc}
use mathlib.Core.Path.{ap₂}
use akl.ThreadPool.Counting.{total-threads}
use akl.Base.{
  ℕ, ◌+◌, arith, if◌then◌else◌, ◌≡◌, refl, sym, ap, ◌∙◌, inl, inr, true, ◌-◌, List, [], ◌∷◌, ◌++◌,
  ◌==◌,
}
use akl.ThreadPool.Rounds.{join_round-cases}
use akl.Machine.Crew.{total, total-move, Reachable, Reachable-invariant}
use akl.ThreadPool.{
  BlockingQueue, Pool, construct, launch, signal, raise, complete, join_round, join_enter,
  join_again, Joined, noted, Place, caught, fetching, working, finished, producer, joiner, entering,
  in_join, after_join, threw, returned, waits, Move, launches, sees_empty, joins, wakes,
  wakes_for_nothing, fetches, task_returns, task_throws, raises, completes, threads,
}

-- How often an exception is in a list, and whether a thread has caught it and not yet pushed it.
abbrev pub count : ℕ → List ℕ → ℕ
count x [] = 0
count x (y ∷ ys) = (if y == x then 1 else 0) + count x ys

abbrev pub catches : ℕ → Place → ℕ
catches x (caught _ ex) = if ex == x then 1 else 0
catches x _ = 0

count-append : (x : ℕ) (ys zs : List ℕ) → count x (ys ++ zs) ≡ count x ys + count x zs
count-append x [] zs = omega arith
count-append x (y ∷ ys) zs = omega (arith, count-append x ys zs)

module _ {Q : Type 0} (queue : BlockingQueue Q) where
  -- No task throws and nothing is pushed; what `join` throws leaves the queue.
  record Passes (m m' : Pool Q) : Type 0 where
    raised : m'.raised ≡ m.raised
    pushed : m'.pushed ≡ m.pushed
    on_the_way : m'.thrown ++ m'.exception_queue ≡ m.thrown ++ m.exception_queue

  signal-Passes : (m : Pool Q) → Passes m (signal m)
  signal-Passes m = ground arith

  complete-Passes : (m : Pool Q) → Passes m (complete m)
  unfolding complete
  complete-Passes m = ground arith

  -- A round of `join`, with what it throws.
  round-Passes : (m : Pool Q) → Passes m (noted (join_round m).0 (join_round m).1)
  round-Passes m = elim (join_round-cases m) [
    | inl t ↦ rw t.round (record {
      raised = refl;
      pushed = refl;
      on_the_way =
          append_assoc m.thrown (t.ex ∷ []) t.rest ∙ ap (λ xs. m.thrown ++ xs) (sym t.queued);
    })
    | inr (inl t) ↦ rw t.round (record { raised = refl; pushed = refl; on_the_way = refl })
    | inr (inr t) ↦ rw t.round (record { raised = refl; pushed = refl; on_the_way = refl })
  ]

  raise_lem :
      (ex : ℕ) (m : Pool Q)
      → ((raise ex m).exception_queue ≡ m.exception_queue ++ ex ∷ [])
        × ((raise ex m).raised ≡ m.raised)
        × ((raise ex m).pushed ≡ m.pushed)
        × ((raise ex m).thrown ≡ m.thrown)
  unfolding raise
  raise_lem ex m = ground arith

  record Forwarded (m : Pool Q) (ps : List Place) : Type 0 where
    order : m.pushed ≡ m.thrown ++ m.exception_queue
    each : (x : ℕ) → count x m.raised ≡ count x m.pushed + total (catches x) ps

  -- How the totals change with the place of a thread.
  abbrev Moved : (ps qs : List Place) → Place → Place → Type 0
  Moved ps qs p q =
      (x : ℕ) → total (catches x) qs + catches x p ≡ total (catches x) ps + catches x q

  -- As many threads have caught an exception as before.
  abbrev Stays : (ps qs : List Place) → Type 0
  Stays ps qs = (x : ℕ) → total (catches x) qs ≡ total (catches x) ps

  stays :
      (p q : Place) (ps qs : List Place)
      → Moved ps qs p q
      → ((x : ℕ) → catches x p ≡ catches x q)
      → Stays ps qs
  stays p q ps qs f same x = omega (arith, f x, same x)

  catches-after_join : (x : ℕ) (o : Joined) → 0 ≡ catches x (after_join o)
  catches-after_join x (threw _) = refl
  catches-after_join x returned = refl
  catches-after_join x waits = refl

  Passes-Forwarded :
      {m m' : Pool Q} {ps qs : List Place}
      → Passes m m'
      → Stays ps qs
      → Forwarded m ps
      → Forwarded m' qs
  Passes-Forwarded pass same w = record {
    order = pass.pushed ∙ w.order ∙ sym pass.on_the_way;
    each =
        λ x. ap (count x) pass.raised ∙ w.each x ∙ omega (arith, same x, ap (count x) pass.pushed);
  }

  same-Passes : (m : Pool Q) → Passes m m
  same-Passes m = record { raised = refl; pushed = refl; on_the_way = refl }

  Move-Forwarded :
      {m m' : Pool Q} {p q : Place} {ps qs : List Place}
      → Move queue m p m' q
      → Moved ps qs p q
      → Forwarded m ps
      → Forwarded m' qs
  unfolding launch join_enter join_again
  Move-Forwarded {m} {ps} {qs} (launches t) f w =
      Passes-Forwarded {m = m} (record { raised = refl; pushed = refl; on_the_way = refl })
        (stays producer producer ps qs f (λ _. refl)) w
  Move-Forwarded {m} {ps} {qs} (sees_empty _) f w =
      Passes-Forwarded (same-Passes m) (stays joiner entering ps qs f (λ _. refl)) w
  Move-Forwarded {m} {ps} {qs} joins f w =
      let n = record m { waiting_on_join = true } in
      Passes-Forwarded (round-Passes n)
        (stays entering (after_join (join_round n).0) ps qs f
          (λ x. catches-after_join x (join_round n).0))
        (record { order = w.order; each = w.each })
  Move-Forwarded {m} {ps} {qs} (wakes _) f w =
      let n = record m { awake = m.awake - 1 } in
      Passes-Forwarded (round-Passes n)
        (stays in_join (after_join (join_round n).0) ps qs f
          (λ x. catches-after_join x (join_round n).0))
        (record { order = w.order; each = w.each })
  Move-Forwarded {m} {ps} {qs} wakes_for_nothing f w =
      Passes-Forwarded (signal-Passes m) (stays in_join in_join ps qs f (λ _. refl)) w
  Move-Forwarded {m} {ps} {qs} (fetches {id} t rest e) f w =
      Passes-Forwarded {m = m} (record { raised = refl; pushed = refl; on_the_way = refl })
        (stays (fetching id) (working id t) ps qs f (λ _. refl)) w
  Move-Forwarded {m} {ps} {qs} (task_returns {id} {t}) f w =
      Passes-Forwarded (same-Passes m) (stays (working id t) (finished id) ps qs f (λ _. refl)) w
  Move-Forwarded {m} {ps} {qs} (task_throws ex) f w = record {
    order = w.order;
    each = λ x. count-append x m.raised (ex ∷ []) ∙ omega (arith, f x, w.each x);
  }
  Move-Forwarded {m} {ps} {qs} (raises {id} {ex}) f w =
      let (queued, raised_same, pushed_same, thrown_same) = raise_lem ex m in
      record {
        order =
            ap (λ xs. xs ++ ex ∷ []) w.order
            ∙ append_assoc m.thrown m.exception_queue (ex ∷ [])
            ∙ ap₂ (λ a b. a ++ b) (sym thrown_same) (sym queued);
        each = λ x.
            ap (count x) raised_same
            ∙ omega (arith, f x, w.each x, count-append x m.pushed (ex ∷ []));
      }
  Move-Forwarded {m} {ps} {qs} (completes {id}) f w =
      Passes-Forwarded (complete-Passes m) (stays (finished id) (fetching id) ps qs f (λ _. refl)) w

  construct-Forwarded : (k n : ℕ) → Forwarded (construct queue) (threads k n)
  construct-Forwarded k n = record {
    order = refl;
    each = λ x. omega (arith, total-threads queue (catches x) refl (λ _. refl) k n);
  }

  -- In every state that a pool reaches: the exceptions that its threads have pushed, in that order,
  -- are those that calls of `join` have thrown, in the order in which they threw them, and then those
  -- of the queue. And each exception has been thrown by tasks exactly as often as `join` has thrown it,
  -- it is in the queue, and threads have caught it and not pushed it yet, taken together. So none is
  -- lost, and none is thrown twice.
  pub exceptions_lem :
      (k n : ℕ) (m : Pool Q) (ps : List Place) (x : ℕ)
      → Reachable (Move queue) (construct queue) (threads k n) m ps
      → (m.pushed ≡ m.thrown ++ m.exception_queue)
        × (count x m.raised ≡ count x m.thrown + count x m.exception_queue + total (catches x) ps)
  exceptions_lem k n m ps x r =
      let w =
        Reachable-invariant Forwarded (construct-Forwarded k n)
          (λ m m' p q before behind w mv.
            Move-Forwarded mv (λ x. total-move (catches x) before p q behind) w)
          r in
      (
        w.order,
        w.each x ∙ omega (arith, ap (count x) w.order, count-append x m.thrown m.exception_queue),
      )
