-- ===== src/Sync/Linear.antt =====
-- The exchange loops of sync.c end, and are one atomic exchange to the other threads.
use akl.Base.{
  ℕ, zero, suc, ◌<◌, ◌≡◌, refl, List, [], ◌∷◌, length, arith, ◌==◌, inl, inr, Bool-cases, ==_refl,
}
use akl.Machine.External.{GccSync, Platform, Build-cases}
use akl.Machine.Shared.{access, read, access-Finishes, at, Finishes, finishes, Finishes-after}
use akl.Sync.Exchange.{
  exchange_loop, akl_sync_lock_test_and_set_float, akl_sync_lock_test_and_set_double,
}
use akl.Sync.Laws.{swap}

-- Without interference a round that knows the cell's value succeeds.
exchange_loop-Finishes :
    {m : ℕ} (k : ℕ) (g : GccSync m) (prev v c : ℕ) (fs : List (ℕ → ℕ))
    → length fs < k
    → (fs ≡ [] → prev ≡ c)
    → Finishes (swap v) (at c fs) (exchange_loop k g prev v (at c fs))
unfolding exchange_loop access
exchange_loop-Finishes zero g prev v c fs h e = absurd (omega arith)
exchange_loop-Finishes (suc k) g prev v c [] h e = rw (e refl) (
    rw (g.val_hit v c)
      (rw (==_refl c) (finishes (record { early = []; split = refl; effect = refl }))))
exchange_loop-Finishes (suc k) g prev v c (f ∷ fs) h e = elim (Bool-cases (f c == prev)) [
  | inl hit ↦
      let same : f c ≡ prev = ground arith in
      rw (← same) (
        rw (g.val_hit v (f c))
          (rw (==_refl (f c)) (finishes (record { early = f ∷ []; split = refl; effect = refl }))))
  | inr miss ↦ rw (g.val_miss prev v (f c) (ground arith)) (
      rw miss
        (Finishes-after (exchange_loop-Finishes k g (f c) v (f c) fs (omega arith) (λ _. refl))))
]

-- The read in front of the loop.
start-Finishes :
    {m : ℕ} (k : ℕ) (g : GccSync m) (v c : ℕ) (fs : List (ℕ → ℕ))
    → length fs < k
    → Finishes
        (swap v)
        (at c fs)
        (let (oldv, t) = access read (at c fs) in exchange_loop k g oldv v t)
unfolding access
start-Finishes k g v c [] h = exchange_loop-Finishes k g c v c [] h (λ _. refl)
start-Finishes k g v c (f ∷ fs) h =
    Finishes-after (exchange_loop-Finishes k g (f c) v (f c) fs (omega arith) (λ _. refl))

module _ (p : Platform) (fuel v c : ℕ) (fs : List (ℕ → ℕ)) (enough : length fs < fuel) where
  -- With more fuel than the other threads have writes in the meantime, the exchange of a float ends,
  -- and it is one atomic exchange that returns the value it replaced, in both builds.
  pub exchange_float-Finishes :
      Finishes (swap v) (at c fs) (akl_sync_lock_test_and_set_float p fuel v (at c fs))
  unfolding akl_sync_lock_test_and_set_float
  exchange_float-Finishes = elim (Build-cases p.build) [
    | inl k ↦ rw k (access-Finishes (at c fs) (p.linux32.xchg_lem v))
    | inr u ↦ rw u (start-Finishes fuel p.gcc32 v c fs enough)
  ]

  -- The same of the exchange of a double.
  pub exchange_double-Finishes :
      Finishes (swap v) (at c fs) (akl_sync_lock_test_and_set_double p fuel v (at c fs))
  unfolding akl_sync_lock_test_and_set_double
  exchange_double-Finishes = elim (Build-cases p.build) [
    | inl k ↦ rw k (access-Finishes (at c fs) (p.linux64.xchg_lem v))
    | inr u ↦ rw u (start-Finishes fuel p.gcc64 v c fs enough)
  ]
