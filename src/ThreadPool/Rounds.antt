-- ===== src/ThreadPool/Rounds.antt =====
-- delete-me/thread_pool.hpp: the three ways in which a round of the loop of `join` goes.
use akl.Base.{ℕ, ◌+◌, ◌≡◌, ◌≢◌, ◌⊎◌, inl, inr, refl, false, List, [], ◌∷◌, ◌==◌, Bool-cases, arith}
use akl.ThreadPool.{Pool, threw, returned, waits, join_round}

module _ {Q : Type 0} where
  -- It throws the first exception.
  pub record Throws (m : Pool Q) : Type 0 where
    pub ex : ℕ
    pub rest : List ℕ
    pub queued : m.exception_queue ≡ ex ∷ rest
    pub round :
        join_round m ≡ (threw ex, record m { exception_queue = rest; waiting_on_join = false })

  -- It ends.
  pub record Returns (m : Pool Q) : Type 0 where
    pub none_queued : m.exception_queue ≡ []
    pub all_completed : m.tasks_completed ≡ m.tasks_inserted
    pub round : join_round m ≡ (returned, record m { waiting_on_join = false })

  -- It sleeps.
  pub record Sleeps (m : Pool Q) : Type 0 where
    pub none_queued : m.exception_queue ≡ []
    pub some_open : m.tasks_completed ≢ m.tasks_inserted
    pub round : join_round m ≡ (waits, record m { asleep = m.asleep + 1 })

  pub join_round-cases : (m : Pool Q) → Throws m ⊎ (Returns m ⊎ Sleeps m)
  unfolding join_round
  join_round-cases m = by_queue m.exception_queue refl
    where
      by_queue : (xs : List ℕ) → m.exception_queue ≡ xs → Throws m ⊎ (Returns m ⊎ Sleeps m)
      by_queue [] e = elim (Bool-cases (m.tasks_completed == m.tasks_inserted)) [
        | inl t ↦
            inr (
              inl
                (record { none_queued = e; all_completed = ground arith; round = rw (e, t) refl }))
        | inr f ↦
            inr (inr (record { none_queued = e; some_open = ground arith; round = rw (e, f) refl }))
      ]
      by_queue (ex ∷ rest) e = inl (record { ex = ex; rest = rest; queued = e; round = rw e refl })
