-- ===== src/CancellableBarrier/Rounds.antt =====
-- delete-me/cancellable_barrier.hpp: threads that use the barrier again and again.
use mathlib.Core.Path.{subst}
use native.Mathlib.Nat.{suc-mul}
use akl.Base.{
  ℕ, suc, ◌≢◌, ◌⊎◌, ◌+◌, ◌-◌, ◌*◌, ◌<◌, ◌≡◌, refl, sym, ap, ◌∙◌, Bool, true, false, not, ◌&&◌, ◌==◌,
  Bool-cases, inl, inr, arith,
}
use akl.Machine.Words.{wadd, u32}
use akl.CancellableBarrier.{Barrier, differ, construct, put, resume, wait, again}

-- A run of a barrier for `n` threads, without a cancellation, in which `wait` has been called
-- `entered` times: a thread calls it only while it is not in it, so fewer than `n` others are.
pub data Run (n : ℕ) : (entered : ℕ) → Barrier → Type 0 where
  start : Run n 0 (construct n)
  enters :
      {e : ℕ} {b : Barrier}
      → Run n e b
      → b.waiting false + b.waiting true < n
      → Run n (e + 1) (wait b)
  tests : {e : ℕ} {b : Barrier} (l : Bool) → Run n e b → 0 < b.waiting l → Run n e (again l b)

-- `before` calls belong to rounds that have ended. The others are those that `called` counts, and
-- all of them wait.
pub record Round (n e : ℕ) (b : Barrier) : Type 0 where
  pub rounds : ℕ
  pub entered : e ≡ rounds * n + b.called
  pub called_lt : b.called < n
  pub waits : b.waiting b.barrier_sense ≡ b.called
  pub release : b.barrier_release ≡ not b.barrier_sense
  pub needed : b.needed ≡ n
  pub alive : b.alive ≡ true

sum_sides : (w : Bool → ℕ) (s : Bool) → w s + w (not s) ≡ w false + w true
sum_sides w true = omega arith
sum_sides w false = refl

differ-not : (s : Bool) → differ (not s) s ≡ true
differ-not true = refl
differ-not false = refl

differ_self : (s : Bool) → differ s s ≡ false
differ_self true = refl
differ_self false = refl

not-not : (s : Bool) → s ≡ not (not s)
not-not true = refl
not-not false = refl

differ_flip : (s : Bool) → differ s (not s) ≡ true
differ_flip true = refl
differ_flip false = refl

put_same : (w : Bool → ℕ) (l : Bool) (k : ℕ) → put w l k l ≡ k
put_same w l k = rw (differ_self l) refl

put-not : (w : Bool → ℕ) (s : Bool) (k : ℕ) → put w (not s) k s ≡ w s
put-not w s k = rw (differ_flip s) refl

module _ (n e : ℕ) (lt : n < u32) (b : Barrier) (r : Round n e b) where
  stays : (differ b.barrier_release b.barrier_sense && b.alive) ≡ true
  stays = rw (r.release, r.alive, differ-not b.barrier_sense) refl

  one_more : wadd u32 b.called 1 ≡ b.called + 1
  one_more = omega (arith, r.called_lt)

  no_others :
      b.waiting false + b.waiting true < n → b.called + 1 ≡ n → b.waiting (not b.barrier_sense) ≡ 0
  no_others h e = omega (arith, sum_sides b.waiting b.barrier_sense, r.waits)

  next_round : b.called + 1 ≡ n → e + 1 ≡ (r.rounds + 1) * n + 0
  next_round full =
      let c : r.rounds + 1 ≡ suc r.rounds = omega arith in
      let m : (r.rounds + 1) * n ≡ r.rounds * n + n = ap (λ k. k * n) c ∙ suc-mul r.rounds n in
      omega (arith, m, r.entered)

  added :
      put b.waiting b.barrier_sense (b.waiting b.barrier_sense + 1) b.barrier_sense
      ≡ b.waiting b.barrier_sense + 1
  added = rw (differ_self b.barrier_sense) refl

  enter-Round : b.waiting false + b.waiting true < n → Round n (e + 1) (wait b)
  unfolding wait resume
  enter-Round h = elim (Bool-cases (b.called + 1 == n)) [
    | inl t ↦
        let full : b.called + 1 ≡ n = ground arith in
        rw (r.alive, one_more, r.needed, t)
          (record {
            rounds = r.rounds + 1;
            entered = next_round full;
            called_lt = omega arith;
            waits = no_others h full;
            release = not-not b.barrier_sense;
            needed = refl;
            alive = refl;
          })
    | inr f ↦
        rw (stays, r.alive, one_more, r.needed, f)
          (record {
            rounds = r.rounds;
            entered = omega (arith, r.entered);
            called_lt = let q : b.called + 1 ≢ n = ground arith in omega (arith, r.called_lt);
            waits = added ∙ ap (λ k. k + 1) r.waits;
            release = r.release;
            needed = refl;
            alive = refl;
          })
  ]

  back :
      0 < b.waiting b.barrier_sense
      → put b.waiting b.barrier_sense (b.waiting b.barrier_sense - 1) b.barrier_sense + 1 ≡ b.called
  back h =
      omega (arith, put_same b.waiting b.barrier_sense (b.waiting b.barrier_sense - 1), r.waits)

  -- A thread that tests again.
  again-stays : 0 < b.waiting b.barrier_sense → Round n e (again b.barrier_sense b)
  unfolding again resume
  again-stays h = rw (stays) (record {
    rounds = r.rounds;
    entered = r.entered;
    called_lt = r.called_lt;
    waits =
        put_same (put b.waiting b.barrier_sense (b.waiting b.barrier_sense - 1)) b.barrier_sense
          (put b.waiting b.barrier_sense (b.waiting b.barrier_sense - 1) b.barrier_sense + 1)
        ∙ back h;
    release = r.release;
    needed = r.needed;
    alive = r.alive;
  })

  again-leaves : Round n e (again (not b.barrier_sense) b)
  unfolding again resume
  again-leaves =
      let out : differ b.barrier_release (not b.barrier_sense) ≡ false =
        rw r.release (differ_self (not b.barrier_sense)) in
      rw out (record {
        rounds = r.rounds;
        entered = r.entered;
        called_lt = r.called_lt;
        waits = put-not b.waiting b.barrier_sense (b.waiting (not b.barrier_sense) - 1) ∙ r.waits;
        release = r.release;
        needed = r.needed;
        alive = r.alive;
      })

  -- The other side loses the thread.
  one_less :
      0 < b.waiting (not b.barrier_sense)
      → (again (not b.barrier_sense) b).waiting (not b.barrier_sense) + 1
        ≡ b.waiting (not b.barrier_sense)
  unfolding again resume
  one_less h =
      let out : differ b.barrier_release (not b.barrier_sense) ≡ false =
        rw r.release (differ_self (not b.barrier_sense)) in
      rw out (
        omega
          (arith, put_same b.waiting (not b.barrier_sense) (b.waiting (not b.barrier_sense) - 1)))

same_side : (l s : Bool) → (l ≡ s) ⊎ (l ≡ not s)
same_side true true = inl refl
same_side true false = inr refl
same_side false true = inr refl
same_side false false = inl refl

-- A barrier for `n` threads, of which each calls `wait` again and again, is in a round that at most
-- `n - 1` have entered: the calls so far are `n` for each round that has ended and those that
-- `called` counts, and the threads of the last ones are all still in the loop. So no thread leaves
-- before `n` have come. `n` is positive and fits an unsigned 32-bit word, and nobody cancels.
pub Run-Round : (n e : ℕ) (b : Barrier) → 0 < n → n < u32 → Run n e b → Round n e b
Run-Round n _ _ pos lt start = record {
  rounds = 0;
  entered = omega arith;
  called_lt = pos;
  waits = refl;
  release = refl;
  needed = omega arith;
  alive = refl;
}
Run-Round n _ _ pos lt (enters {e} {b} run h) = enter-Round n e lt b (Run-Round n e b pos lt run) h
Run-Round n e _ pos lt (tests {b} l run h) =
    let r = Run-Round n e b pos lt run in
    elim (same_side l b.barrier_sense) [
      | inl q ↦
          subst (λ k. Round n e (again k b)) (sym q)
            (again-stays n e lt b r (subst (λ k. 0 < b.waiting k) q h))
      | inr q ↦ subst (λ k. Round n e (again k b)) (sym q) (again-leaves n e lt b r)
    ]

-- In every such run, a thread of a round that has ended leaves the loop at its next test.
pub again_lem :
    (n e : ℕ) (b : Barrier)
    → 0 < n
    → n < u32
    → Run n e b
    → 0 < b.waiting (not b.barrier_sense)
    → (again (not b.barrier_sense) b).waiting (not b.barrier_sense) + 1
      ≡ b.waiting (not b.barrier_sense)
again_lem n e b pos lt run h = one_less n e lt b (Run-Round n e b pos lt run) h
