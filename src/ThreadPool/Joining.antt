-- ===== src/ThreadPool/Joining.antt =====
-- delete-me/thread_pool.hpp: a thread that sleeps in `join` is woken when it can go on.
use mathlib.Core.Path.{subst}
use akl.Base.{
  ℕ, ◌+◌, ◌-◌, ◌%◌, ◌<◌, ◌≤◌, ◌≡◌, ◌⊎◌, inl, inr, refl, sym, ◌∙◌, true, List, [], ◌∷◌, ◌++◌, arith,
}
use akl.Machine.Words.{u64}
use akl.Machine.Crew.{total, total-move, total-at, Reachable, start, Reachable-invariant}
use akl.ThreadPool.{
  BlockingQueue, Pool, construct, launch, raise, complete, Joined, join_round, join_enter,
  join_again, Place, joiner, entering, in_join, after_join, noted, Move, joins, wakes, threads,
}
use akl.ThreadPool.Counting.{busy, Counted, Move-Counted, Reachable-Counted, total-threads}
use akl.ThreadPool.Rounds.{join_round-cases}

abbrev pub may_join : Place → ℕ
may_join joiner = 1
may_join entering = 1
may_join _ = 0

abbrev pub sleeps : Place → ℕ
sleeps in_join = 1
sleeps _ = 0

module _ {Q : Type 0} (queue : BlockingQueue Q) where
  -- What is kept beside `Counted`.
  pub record Watched (m : Pool Q) (ps : List Place) : Type 0 where
    pub joiners : total may_join ps + total sleeps ps ≡ 1
    pub sleepers : m.asleep + m.awake ≡ total sleeps ps
    pub flag : (total sleeps ps ≡ 0) ⊎ (m.waiting_on_join ≡ true)
    pub unmissed : (m.asleep ≡ 0) ⊎ ((m.exception_queue ≡ []) × (m.counted < m.launched))

  record Moved (ps qs : List Place) (p q : Place) : Type 0 where
    joined : total may_join qs + may_join p ≡ total may_join ps + may_join q
    slept : total sleeps qs + sleeps p ≡ total sleeps ps + sleeps q
    may : may_join p ≤ total may_join ps
    sleep : sleeps p ≤ total sleeps ps

  moved :
      (before behind : List Place) (p q : Place)
      → Moved (before ++ p ∷ behind) (before ++ q ∷ behind) p q
  moved before behind p q = record {
    joined = total-move may_join before p q behind;
    slept = total-move sleeps before p q behind;
    may = total-at may_join before p behind;
    sleep = total-at sleeps before p behind;
  }

  -- Before a round, by a thread at `p`, which neither sleeps nor is counted as awake.
  record Ready (m : Pool Q) (ps : List Place) (p : Place) : Type 0 where
    joiners : total may_join ps + total sleeps ps ≡ 1
    here : may_join p + sleeps p ≡ 1
    sleepers : m.asleep + m.awake + sleeps p ≡ total sleeps ps
    flag : m.waiting_on_join ≡ true
    counted : m.tasks_completed ≡ m.counted % u64
    inserted : m.tasks_inserted ≡ m.launched % u64
    open_tasks : m.counted ≤ m.launched

  module _ {m : Pool Q} {ps qs : List Place} {p : Place} (r : Ready m ps p) where
    round_of :
        (o : Joined × Pool Q)
        → join_round m ≡ o
        → Moved ps qs p (after_join o.0)
        → Watched (noted o.0 o.1) qs
    round_of o e = elim (join_round-cases m) [
      | inl t ↦
          subst (λ o. Moved ps qs p (after_join o.0) → Watched (noted o.0 o.1) qs) (sym t.round ∙ e)
            (λ f. ground arith)
      | inr (inl t) ↦
          subst (λ o. Moved ps qs p (after_join o.0) → Watched (noted o.0 o.1) qs) (sym t.round ∙ e)
            (λ f. ground arith)
      | inr (inr t) ↦
          subst (λ o. Moved ps qs p (after_join o.0) → Watched (noted o.0 o.1) qs) (sym t.round ∙ e)
            (λ f. ground (arith, t.none_queued, t.some_open))
    ]

  Move-Watched :
      {m m' : Pool Q} {p q : Place} {ps qs : List Place}
      → Move queue m p m' q
      → Moved ps qs p q
      → Counted queue m ps
      → Watched m ps
      → Watched m' qs
  unfolding launch raise complete join_enter join_again
  Move-Watched {m} joins f c w =
      round_of {m = record m { waiting_on_join = true }} (ground arith) _ refl f
  Move-Watched {m} (wakes h) f c w =
      round_of {m = record m { awake = m.awake - 1 }} (ground arith) _ refl f
  Move-Watched mv f c w = ground arith

  Reachable-Watched :
      (k n : ℕ) {m : Pool Q} {ps : List Place}
      → Reachable (Move queue) (construct queue) (threads k n) m ps
      → Counted queue m ps × Watched m ps
  Reachable-Watched k n r =
      Reachable-invariant (λ m ps. Counted queue m ps × Watched m ps)
        (
          Reachable-Counted queue k n start,
          record {
            joiners = omega (
              arith,
              total-threads queue may_join refl (λ _. refl) k n,
              total-threads queue sleeps refl (λ _. refl) k n,
            );
            sleepers = omega (arith, total-threads queue sleeps refl (λ _. refl) k n);
            flag = inl (total-threads queue sleeps refl (λ _. refl) k n);
            unmissed = inl refl;
          },
        )
        (λ m m' p q before behind i mv. (
          Move-Counted queue mv (total-move busy before p q behind) i.0,
          Move-Watched mv (moved before behind p q) i.0 i.1,
        ))
        r

  -- One thread calls `join`, again and again, while others launch tasks and the pool runs them. In
  -- every state that they reach, if that thread sleeps in `join` and has not been woken, then no
  -- exception waits to be thrown, fewer tasks have been counted than launched, and `waiting_on_join`
  -- is set, so that the thread that counts the last one will wake it.
  pub sleeper_lem :
      (k n : ℕ) (m : Pool Q) (ps : List Place)
      → Reachable (Move queue) (construct queue) (threads k n) m ps
      → 0 < m.asleep
      → (m.exception_queue ≡ []) × (m.counted < m.launched) × (m.waiting_on_join ≡ true)
  sleeper_lem k n m ps r h = let (c, w) = Reachable-Watched k n r in ground arith
