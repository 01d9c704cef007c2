-- ===== src/Semaphore/Tokens.antt =====
-- delete-me/semaphore.hpp: any number of threads that post and wait.
use akl.Base.{ℕ, ◌+◌, ◌-◌, ◌<◌, ◌≤◌, ◌≡◌, ◌⊎◌, inl, inr, refl, ◌==◌, ltb, Bool-cases, arith}
use akl.Machine.Words.{wadd, u64}
use akl.Semaphore.{Semaphore, construct, signal, post, resume, wait, wake}

-- A run of some sections in any order, in which `posts` calls of `post` and `waits` calls of `wait`
-- have been made.
pub data Run : (posts waits : ℕ) → Semaphore → Type 0 where
  start : Run 0 0 construct
  posts_one : {p w : ℕ} {s : Semaphore} → Run p w s → Run (p + 1) w (post s)
  waits_one : {p w : ℕ} {s : Semaphore} → Run p w s → Run p (w + 1) (wait s)
  wakes_one : {p w : ℕ} {s : Semaphore} → Run p w s → 0 < s.awake → Run p w (wake s)
  wakes_for_nothing : {p w : ℕ} {s : Semaphore} → Run p w s → Run p w (signal s)

-- Each wait that has ended took one post, each other thread sleeps or is about to test again, and
-- nobody sleeps while a post is left for which no thread is awake.
pub record Balanced (p w : ℕ) (s : Semaphore) : Type 0 where
  pub ended : ℕ
  pub taken : s.semvalue + ended ≡ p
  pub begun : s.waitercount + ended ≡ w
  pub threads : s.waitercount ≡ s.asleep + s.awake
  pub served : (s.asleep ≡ 0) ⊎ (s.semvalue ≤ s.awake)

signal-Balanced : {p w : ℕ} (s : Semaphore) → Balanced p w s → Balanced p w (signal s)
signal-Balanced s b = elim (Bool-cases (s.asleep == 0)) [
  | inl z ↦ rw z b
  | inr n ↦ rw n (record {
    ended = b.ended;
    taken = b.taken;
    begun = b.begun;
    threads = ground (arith, b.threads);
    served = elim b.served [ inl e ↦ absurd (ground arith) | inr le ↦ inr (omega arith) ];
  })
]

-- Before a test of the loop: one thread is neither asleep nor awake, but runs.
record Testing (p w : ℕ) (s : Semaphore) : Type 0 where
  ended : ℕ
  taken : s.semvalue + ended ≡ p
  begun : s.waitercount + ended ≡ w
  threads : s.waitercount ≡ s.asleep + s.awake + 1
  served : (s.asleep ≡ 0) ⊎ (s.semvalue ≤ s.awake + 1)

module _ (p w : ℕ) (posts_lt : p < u64) (waits_lt : w < u64) where
  resume-Balanced : (s : Semaphore) → Testing p w s → Balanced p w (resume s)
  unfolding resume
  resume-Balanced s t = elim (Bool-cases (s.semvalue == 0)) [
    | inl z ↦
        let none : s.semvalue ≡ 0 = ground arith in
        rw z (record {
          ended = t.ended;
          taken = t.taken;
          begun = t.begun;
          threads = omega (arith, t.threads);
          served = inr (omega arith);
        })
    | inr n ↦
        let some_left : 0 < s.semvalue = ground arith in
        rw n (record {
          ended = t.ended + 1;
          taken = omega (arith, t.taken);
          begun = omega (arith, t.begun, t.threads);
          threads = omega (arith, t.threads, t.begun);
          served = elim t.served [ inl e ↦ inl e | inr le ↦ inr (omega (arith, t.taken)) ];
        })
  ]

  wake-Balanced : (s : Semaphore) → Balanced p w s → 0 < s.awake → Balanced p w (wake s)
  unfolding wake
  wake-Balanced s b h =
      resume-Balanced (record s { awake = s.awake - 1 })
        (record {
          ended = b.ended;
          taken = b.taken;
          begun = b.begun;
          threads = omega (arith, b.threads);
          served = elim b.served [ inl e ↦ inl e | inr le ↦ inr (omega arith) ];
        })

wait-Balanced :
    (p w : ℕ) (s : Semaphore) → p < u64 → w + 1 < u64 → Balanced p w s → Balanced p (w + 1) (wait s)
unfolding wait
wait-Balanced p w s hp hw b =
    resume-Balanced p (w + 1) hp hw (record s { waitercount = wadd u64 s.waitercount 1 })
      (record {
        ended = b.ended;
        taken = b.taken;
        begun = omega (arith, b.begun);
        threads = omega (arith, b.begun, b.threads);
        served = elim b.served [ inl e ↦ inl e | inr le ↦ inr (omega arith) ];
      })

-- One post more, when a thread is awake for it or none sleeps.
posted :
    (p w : ℕ) (s : Semaphore)
    → p + 1 < u64
    → Balanced p w s
    → (s.asleep ≡ 0) ⊎ (s.semvalue + 1 ≤ s.awake)
    → Balanced (p + 1) w (record s { semvalue = wadd u64 s.semvalue 1 })
posted p w s hp b served = record {
  ended = b.ended;
  taken = omega (arith, b.taken);
  begun = b.begun;
  threads = b.threads;
  served = elim served [ inl e ↦ inl e | inr le ↦ inr (omega (arith, b.taken)) ];
}

signal-served :
    {p w : ℕ} (s : Semaphore)
    → Balanced p w s
    → ((signal s).asleep ≡ 0) ⊎ ((signal s).semvalue + 1 ≤ (signal s).awake)
signal-served s b = elim (Bool-cases (s.asleep == 0)) [
  | inl z ↦ let e : s.asleep ≡ 0 = ground arith in rw z (inl e)
  | inr n ↦
      let more : 0 < s.asleep = ground arith in
      rw n (elim b.served [ inl e ↦ absurd (omega arith) | inr le ↦ inr (omega arith) ])
]

post-Balanced :
    (p w : ℕ) (s : Semaphore) → p + 1 < u64 → Balanced p w s → Balanced (p + 1) w (post s)
unfolding post
post-Balanced p w s hp b = elim (Bool-cases (ltb 0 s.waitercount)) [
  | inl t ↦ rw t (posted p w (signal s) hp (signal-Balanced s b) (signal-served s b))
  | inr f ↦
      let none : s.waitercount ≡ 0 = ground arith in
      rw f (posted p w s hp b (inl (omega (arith, b.threads))))
]

-- After fewer than 2 ^ 64 posts and as many waits, in any order and with threads that wake for no
-- reason: the waits that have ended and `semvalue` add up to the posts, `waitercount` is the number
-- of waits that have not ended, and if a thread sleeps, then at least as many threads are awake as
-- posts are left to take.
pub Run-Balanced : (p w : ℕ) (s : Semaphore) → Run p w s → p < u64 → w < u64 → Balanced p w s
Run-Balanced _ _ _ start hp hw = record {
  ended = 0;
  taken = refl;
  begun = refl;
  threads = refl;
  served = inl refl;
}
Run-Balanced _ w _ (posts_one {p} {s} r) hp hw =
    post-Balanced p w s hp (Run-Balanced p w s r (omega arith) hw)
Run-Balanced p _ _ (waits_one {w} {s} r) hp hw =
    wait-Balanced p w s hp hw (Run-Balanced p w s r hp (omega arith))
Run-Balanced p w _ (wakes_one {s} r h) hp hw =
    wake-Balanced p w hp hw s (Run-Balanced p w s r hp hw) h
Run-Balanced p w _ (wakes_for_nothing {s} r) hp hw = signal-Balanced s (Run-Balanced p w s r hp hw)
