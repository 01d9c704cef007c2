-- ===== src/Machine/Crew.antt =====
-- Threads that share a memory. A thread is at a place in the code, one step is one access of one of
-- them, and the others stay where they are.
use akl.Base.{ℕ, zero, suc, ◌+◌, ◌≤◌, ◌≡◌, refl, List, [], ◌∷◌, ◌++◌, arith}

module _ {Place : Type 0} where
  -- The weights of all threads.
  unfoldable pub total : (Place → ℕ) → List Place → ℕ
  total w [] = 0
  total w (p ∷ ps) = w p + total w ps

  pub total-move :
      (w : Place → ℕ) (before : List Place) (p q : Place) (behind : List Place)
      → total w (before ++ q ∷ behind) + w p ≡ total w (before ++ p ∷ behind) + w q
  unfolding total
  total-move w [] p q behind = omega arith
  total-move w (x ∷ before) p q behind = omega (arith, total-move w before p q behind)

  pub total-at :
      (w : Place → ℕ) (before : List Place) (p : Place) (behind : List Place)
      → w p ≤ total w (before ++ p ∷ behind)
  unfolding total
  total-at w [] p behind = omega arith
  total-at w (x ∷ before) p behind = omega (arith, total-at w before p behind)

  pub total_mono :
      (v w : Place → ℕ) → ((p : Place) → v p ≤ w p) → (ps : List Place) → total v ps ≤ total w ps
  unfolding total
  total_mono v w h [] = omega arith
  total_mono v w h (p ∷ ps) = omega (arith, h p, total_mono v w h ps)

  pub total-without :
      (w : Place → ℕ) (before : List Place) (p : Place) (behind : List Place)
      → total w (before ++ p ∷ behind) ≡ w p + total w (before ++ behind)
  unfolding total
  total-without w [] p behind = omega arith
  total-without w (x ∷ before) p behind = omega (arith, total-without w before p behind)

  abbrev pub one : Place → ℕ
  one _ = 1

  abbrev pub All {ℓ} : (Place → Type ℓ) → List Place → Type ℓ
  All P [] = Unit
  All P (p ∷ ps) = P p × All P ps

  pub All-at {ℓ} :
      (P : Place → Type ℓ) (before : List Place) (p : Place) (behind : List Place)
      → All P (before ++ p ∷ behind)
      → P p
  All-at P [] p behind a = a.0
  All-at P (x ∷ before) p behind a = All-at P before p behind a.1

  pub All-total : (w : Place → ℕ) (ps : List Place) → total w ps ≡ 0 → All (λ p. w p ≡ 0) ps
  unfolding total
  All-total w [] h = tt
  All-total w (p ∷ ps) h = (omega arith, All-total w ps (omega arith))

  pub total_mono_All {ℓ} :
      (P : Place → Type ℓ) (v w : Place → ℕ)
      → ((p : Place) → P p → v p ≤ w p)
      → (ps : List Place) → All P ps
      → total v ps ≤ total w ps
  unfolding total
  total_mono_All P v w h [] a = omega arith
  total_mono_All P v w h (p ∷ ps) a = omega (arith, h p a.0, total_mono_All P v w h ps a.1)

  pub All_both {ℓ κ} :
      (P : Place → Type ℓ) (Q : Place → Type κ) (ps : List Place)
      → All P ps
      → All Q ps
      → All (λ p. P p × Q p) ps
  All_both P Q [] a b = tt
  All_both P Q (p ∷ ps) a b = ((a.0, b.0), All_both P Q ps a.1 b.1)

  -- The thread that moves is at `q`, and the others keep what held of them.
  pub All-move {ℓ κ} :
      (P : Place → Type ℓ) (Q : Place → Type κ) (before : List Place) (p q : Place)
      (behind : List Place)
      → ((x : Place) → P x → Q x)
      → Q q
      → All P (before ++ p ∷ behind)
      → All Q (before ++ q ∷ behind)
  All-move P Q [] p q [] keep h a = (h, tt)
  All-move P Q [] p q (x ∷ xs) keep h a = (h, All-move P Q [] x x xs keep (keep x a.1.0) a.1)
  All-move P Q (x ∷ before) p q behind keep h a =
      (keep x a.0, All-move P Q before p q behind keep h a.1)

  pub total-append :
      (w : Place → ℕ) (ps qs : List Place) → total w (ps ++ qs) ≡ total w ps + total w qs
  unfolding total
  total-append w [] qs = omega arith
  total-append w (p ∷ ps) qs = omega (arith, total-append w ps qs)

  -- `n` threads at one place.
  unfoldable pub crew : ℕ → Place → List Place
  crew zero p = []
  crew (suc n) p = p ∷ crew n p

  pub total-crew_zero : (w : Place → ℕ) (n : ℕ) (p : Place) → w p ≡ 0 → total w (crew n p) ≡ 0
  unfolding total crew
  total-crew_zero w zero p h = refl
  total-crew_zero w (suc n) p h = omega (arith, h, total-crew_zero w n p h)

  pub total-crew_one : (n : ℕ) (p : Place) → total one (crew n p) ≡ n
  unfolding total crew
  total-crew_one zero p = refl
  total-crew_one (suc n) p = omega (arith, total-crew_one n p)

  pub All-crew {ℓ} : (P : Place → Type ℓ) (n : ℕ) (p : Place) → P p → All P (crew n p)
  unfolding crew
  All-crew P zero p h = tt
  All-crew P (suc n) p h = (h, All-crew P n p h)

-- The states that the threads reach from `m` and `ps`, one move of a thread after another.
pub data Reachable {Memory Place : Type 0} (Move : Memory → Place → Memory → Place → Type 0)
    (m : Memory) (ps : List Place) : Memory → List Place → Type 0 where
  start : Reachable Move m ps m ps
  step :
      {n n' : Memory} {p q : Place} (before behind : List Place)
      → Reachable Move m ps n (before ++ p ∷ behind)
      → Move n p n' q
      → Reachable Move m ps n' (before ++ q ∷ behind)

-- What holds at the start and is kept by every move holds in all of them.
pub Reachable-invariant {ℓ} :
    {Memory Place : Type 0} {Move : Memory → Place → Memory → Place → Type 0} {m : Memory}
    {ps : List Place} (Inv : Memory → List Place → Type ℓ)
    → Inv m ps
    → ((n n' : Memory) (p q : Place) (before behind : List Place)
        → Inv n (before ++ p ∷ behind)
        → Move n p n' q
        → Inv n' (before ++ q ∷ behind))
    → {n : Memory} {qs : List Place} → Reachable Move m ps n qs
    → Inv n qs
Reachable-invariant Inv h keep start = h
Reachable-invariant Inv h keep (step {n} {n'} {p} {q} before behind r mv) =
    keep n n' p q before behind (Reachable-invariant Inv h keep r) mv
