-- ===== src/Pthread/Untouched.antt =====
-- akl/mutex.hpp over pthread.c: which bytes the methods of `mutex` write.
use akl.Base.{
  ℕ, ◌+◌, ◌<◌, ◌≤◌, ◌≡◌, ◌⊎◌, inl, inr, refl, ap, ◌∙◌, true, false, arith, ◌==◌, ltb, leb,
  Bool-cases,
}
use akl.Machine.External.{Build, Build-cases, kernel_module, user_space}
use akl.Pthread.{
  Memory, Operation, Mutexes, pass, StaysIn, akl_pthread_mutex_init, akl_pthread_mutex_destroy,
  akl_pthread_mutex_lock, akl_pthread_mutex_unlock, akl_pthread_mutex_trylock,
}
use akl.Pthread.Mutex.{
  Outcome, returned, aborted, assert_no_error, construct, destruct, lock, unlock, try_lock,
}

-- The memory when a method has returned or aborted.
abbrev pub left : {A : Type 0} → Outcome A → Memory
left (returned a m) = m
left (aborted a m) = m

-- A byte that is neither in the parameter at `frame` nor in an object of `size` bytes there.
abbrev pub Clear : (frame size x : ℕ) → Type 0
Clear frame size x = (x < frame) ⊎ ((frame + size ≤ x) × (frame + 8 ≤ x))

left-assert : (b : Build) (r : ℕ × Memory) → left (assert_no_error b r) ≡ r.1
left-assert kernel_module (error, m) = refl
left-assert user_space (error, m) = elim (Bool-cases (error == 0)) [
  | inl e ↦ rw e refl
  | inr e ↦ rw e refl
]

passed : (frame this size x : ℕ) (m : Memory) → Clear frame size x → pass frame this m x ≡ m x
passed frame this size x m (inl h) = let e : leb frame x ≡ false = ground arith in rw e refl
passed frame this size x m (inr (h, k)) =
    let a : leb frame x ≡ true = ground arith in
    let e : ltb x (frame + 8) ≡ false = ground arith in rw (a, e) refl

outside : (frame size x : ℕ) → Clear frame size x → (x < frame) ⊎ (frame + size ≤ x)
outside frame size x (inl h) = inl h
outside frame size x (inr (h, k)) = inr h

-- An operation on the parameter instead of the mutex.
misses :
    (size : ℕ) (op : Operation)
    → StaysIn size op
    → (frame this x : ℕ) (m : Memory) → Clear frame size x
    → (op frame (pass frame this m)).1 x ≡ m x
misses size op s frame this x m c =
    s frame (pass frame this m) x (outside frame size x c) ∙ passed frame this size x m c

module _ (p : Mutexes) (frame this x : ℕ) (m : Memory) (k : Clear frame p.kernel.size x)
    (u : Clear frame p.pthread.size x) where
  -- In both builds, `lock`, `unlock`, `try_lock` and the destructor of `mutex` leave every byte as it
  -- is, those of `m_mut` included, that lies outside the called function's parameter and what the
  -- platform takes for a mutex at the parameter's address. In a kernel module the constructor does
  -- so as well.
  pub mutex-Untouched :
      (left (lock p frame this m) x ≡ m x)
      × (left (unlock p frame this m) x ≡ m x)
      × (left (try_lock p frame this m) x ≡ m x)
      × (left (destruct p frame this m) x ≡ m x)
      × ((p.build ≡ user_space) ⊎ (left (construct p frame this m) x ≡ m x))
  unfolding lock unlock try_lock destruct construct akl_pthread_mutex_lock akl_pthread_mutex_unlock
      akl_pthread_mutex_trylock akl_pthread_mutex_destroy akl_pthread_mutex_init
  mutex-Untouched = elim (Build-cases p.build) [
    | inl b ↦ rw b (
      misses p.kernel.size p.kernel.lock p.kernel.lock-StaysIn frame this x m k,
      misses p.kernel.size p.kernel.unlock p.kernel.unlock-StaysIn frame this x m k,
      misses p.kernel.size p.kernel.trylock p.kernel.trylock-StaysIn frame this x m k,
      misses p.kernel.size p.kernel.destroy p.kernel.destroy-StaysIn frame this x m k,
      inr (misses p.kernel.size p.kernel.init p.kernel.init-StaysIn frame this x m k),
    )
    | inr b ↦ rw b (
      ap (λ n. n x) (left-assert user_space (p.pthread.lock frame (pass frame this m)))
          ∙ misses p.pthread.size p.pthread.lock p.pthread.lock-StaysIn frame this x m u,
      ap (λ n. n x) (left-assert user_space (p.pthread.unlock frame (pass frame this m)))
          ∙ misses p.pthread.size p.pthread.unlock p.pthread.unlock-StaysIn frame this x m u,
      misses p.pthread.size p.pthread.trylock p.pthread.trylock-StaysIn frame this x m u,
      ap (λ n. n x) (left-assert user_space (p.pthread.destroy frame (pass frame this m)))
          ∙ misses p.pthread.size p.pthread.destroy p.pthread.destroy-StaysIn frame this x m u,
      inl refl,
    )
  ]
