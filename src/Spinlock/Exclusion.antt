-- ===== src/Spinlock/Exclusion.antt =====
-- akl/spinlock.hpp: threads that lock and unlock one `simple_spinlock`, one access at a time.
use mathlib.Core.Path.{subst}
use akl.Base.{
  ℕ, ◌≡◌, ◌≢◌, ◌⊎◌, inl, inr, refl, sym, ◌∙◌, ap, Bool, true, false, ◌==◌, if◌then◌else◌,
  Bool-cases, ==_refl, ==_of_ne, arith,
}
use akl.Machine.External.{GccSync}
use akl.Spinlock.{
  u8, construct, Place, outside, testing, swapping, holding, test, swap, try_lock, unlock,
}

pub record System : Type 0 where
  pub spinner : ℕ
  pub threads : ℕ → Place

abbrev pub put : (ℕ → Place) → ℕ → Place → ℕ → Place
put threads i place j = if j == i then place else threads j

-- Thread `i` made an access with this outcome.
abbrev pub moved : System → ℕ → Place × ℕ → System
moved s i (place, spinner) = record { spinner = spinner; threads = put s.threads i place }

abbrev pub tried : Bool × ℕ → Place × ℕ
tried (got, spinner) = (if got then holding else outside, spinner)

module _ (gcc : GccSync u8) where
  -- The steps of thread `i`. Only a thread that has the lock calls `unlock`.
  pub data Step (s : System) : System → Type 0 where
    calls_lock : (i : ℕ) → s.threads i ≡ outside → Step s (moved s i (testing, s.spinner))
    tests : (i : ℕ) → s.threads i ≡ testing → Step s (moved s i (test s.spinner))
    swaps : (i : ℕ) → s.threads i ≡ swapping → Step s (moved s i (swap gcc s.spinner))
    tries : (i : ℕ) → s.threads i ≡ outside → Step s (moved s i (tried (try_lock gcc s.spinner)))
    unlocks : (i : ℕ) → s.threads i ≡ holding → Step s (moved s i (outside, (unlock s.spinner).1))

  pub data Reachable : System → Type 0 where
    start : Reachable (record { spinner = construct; threads = λ _. outside })
    step : {s t : System} → Reachable s → Step s t → Reachable t

  pub record Held (s : System) : Type 0 where
    pub owner : ℕ
    pub set : s.spinner ≡ 1
    pub holds : s.threads owner ≡ holding
    pub only : (j : ℕ) → s.threads j ≡ holding → j ≡ owner

  abbrev Free : System → Type 0
  Free s = (s.spinner ≡ 0) × ((j : ℕ) → s.threads j ≢ holding)

  put_self : (f : ℕ → Place) (i : ℕ) (p : Place) → put f i p i ≡ p
  put_self f i p = rw (==_refl i) refl

  put_other : (f : ℕ → Place) (i j : ℕ) (p : Place) → j ≢ i → put f i p j ≡ f j
  put_other f i j p n = rw (==_of_ne j i n) refl

  -- A thread that has `holding` after a move is the one that moved, or had it.
  put-cases :
      (f : ℕ → Place) (i j : ℕ) (p : Place)
      → put f i p j ≡ holding
      → ((j ≡ i) × (p ≡ holding)) ⊎ ((j ≢ i) × (f j ≡ holding))
  put-cases f i j p e = elim (Bool-cases (j == i)) [
    | inl t ↦
        let q : j ≡ i = ground arith in inl (q, sym (put_self f i p) ∙ ap (put f i p) (sym q) ∙ e)
    | inr n ↦ let q : j ≢ i = ground arith in inr (q, sym (put_other f i j p q) ∙ e)
  ]

  module _ (s : System) (i : ℕ) (p : Place) where
    -- A thread that has not the lock moves and does not get it; the cell stays.
    quiet :
        s.threads i ≢ holding
        → p ≢ holding
        → Free s ⊎ Held s
        → Free (moved s i (p, s.spinner)) ⊎ Held (moved s i (p, s.spinner))
    quiet h n (inl (z, none)) =
        inl (
          z,
          λ j e. elim (put-cases s.threads i j p e) [ inl (_, q) ↦ n q | inr (_, q) ↦ none j q ],
        )
    quiet h n (inr x) = inr (record {
      owner = x.owner;
      set = x.set;
      holds = put_other s.threads i x.owner p (λ q. h (ap s.threads (sym q) ∙ x.holds)) ∙ x.holds;
      only = λ j e. elim (put-cases s.threads i j p e) [
        | inl (_, q) ↦ absurd (n q)
        | inr (_, q) ↦ x.only j q
      ];
    })

  -- A thread gets the lock.
  acquire : (s : System) (i : ℕ) → Free s → Held (moved s i (holding, 1))
  acquire s i (z, none) = record {
    owner = i;
    set = refl;
    holds = put_self s.threads i holding;
    only = λ j e. elim (put-cases s.threads i j holding e) [
      | inl (q, _) ↦ q
      | inr (_, q) ↦ absurd (none j q)
    ];
  }

  -- The access that swaps, when the lock is free and when it is not.
  swap_free : (c : ℕ) → c ≡ 0 → swap gcc c ≡ (holding, 1)
  unfolding swap
  swap_free c z = rw (gcc.lock_test_and_set_lem 1 c, z) refl

  swap_held : (c : ℕ) → c ≡ 1 → swap gcc c ≡ (testing, c)
  unfolding swap
  swap_held c o = rw (gcc.lock_test_and_set_lem 1 c, o) refl

  try_free : (c : ℕ) → c ≡ 0 → try_lock gcc c ≡ (true, 1)
  unfolding try_lock
  try_free c z = rw (gcc.lock_test_and_set_lem 1 c, z) refl

  try_held : (c : ℕ) → c ≡ 1 → try_lock gcc c ≡ (false, c)
  unfolding try_lock
  try_held c o = rw (gcc.lock_test_and_set_lem 1 c, o) refl

  test-cases : (c : ℕ) → (test c ≡ (testing, c)) ⊎ (test c ≡ (swapping, c))
  unfolding test
  test-cases c = elim (Bool-cases (c == 1)) [ inl e ↦ inl (rw e refl) | inr e ↦ inr (rw e refl) ]

  abbrev Exclusive : System → Type 0
  Exclusive s = Free s ⊎ Held s

  -- The outcome of an access in place of what it equals.
  by_outcome :
      (s : System) (i : ℕ) {o u : Place × ℕ}
      → o ≡ u
      → Exclusive (moved s i u)
      → Exclusive (moved s i o)
  by_outcome s i e x = subst (λ o. Exclusive (moved s i o)) (sym e) x

  Step-Exclusive : (s t : System) → Step s t → Exclusive s → Exclusive t
  unfolding unlock
  Step-Exclusive s _ (calls_lock i e) x = quiet s i testing (λ q. cc) (λ q. cc) x
  Step-Exclusive s _ (tests i e) x = elim (test-cases s.spinner) [
    | inl o ↦ by_outcome s i o (quiet s i testing (λ q. cc) (λ q. cc) x)
    | inr o ↦ by_outcome s i o (quiet s i swapping (λ q. cc) (λ q. cc) x)
  ]
  Step-Exclusive s _ (swaps i e) (inl x) =
      by_outcome s i (swap_free s.spinner x.0) (inr (acquire s i x))
  Step-Exclusive s _ (swaps i e) (inr x) =
      by_outcome s i (swap_held s.spinner x.set) (quiet s i testing (λ q. cc) (λ q. cc) (inr x))
  Step-Exclusive s _ (tries i e) (inl x) =
      by_outcome s i (ap tried (try_free s.spinner x.0)) (inr (acquire s i x))
  Step-Exclusive s _ (tries i e) (inr x) =
      by_outcome s i (ap tried (try_held s.spinner x.set))
        (quiet s i outside (λ q. cc) (λ q. cc) (inr x))
  Step-Exclusive s _ (unlocks i e) (inl x) = absurd (x.1 i e)
  Step-Exclusive s _ (unlocks i e) (inr x) = inl (
    refl,
    λ j h. elim (put-cases s.threads i j outside h) [
      | inl (_, q) ↦ cc
      | inr (n, q) ↦ n (x.only j q ∙ sym (x.only i e))
    ],
  )

  Reachable-Exclusive : (s : System) → Reachable s → Exclusive s
  Reachable-Exclusive _ start = inl (refl, λ j e. cc)
  Reachable-Exclusive t (step {s} r h) = Step-Exclusive s t h (Reachable-Exclusive s r)

  -- Whatever the order of the accesses of any number of threads: two threads that have the lock are
  -- one, and `spinner` is 1 while a thread has it.
  pub one_holder :
      (s : System)
      → Reachable s
      → (i j : ℕ) → s.threads i ≡ holding
      → s.threads j ≡ holding
      → (i ≡ j) × (s.spinner ≡ 1)
  one_holder s r i j hi hj = elim (Reachable-Exclusive s r) [
    | inl x ↦ absurd (x.1 i hi)
    | inr x ↦ (x.only i hi ∙ sym (x.only j hj), x.set)
  ]

  -- In every state that the threads can reach, `try_lock` returns true if and only if no thread has
  -- the lock, and then leaves 1 in `spinner`; otherwise it leaves `spinner` as it is.
  pub try_lock_lem :
      (s : System)
      → Reachable s
      → (((j : ℕ) → s.threads j ≢ holding) × (try_lock gcc s.spinner ≡ (true, 1)))
        ⊎ (Held s × (try_lock gcc s.spinner ≡ (false, s.spinner)))
  try_lock_lem s r = elim (Reachable-Exclusive s r) [
    | inl x ↦ inl (x.1, try_free s.spinner x.0)
    | inr x ↦ inr (x, try_held s.spinner x.set)
  ]
