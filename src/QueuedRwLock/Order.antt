-- ===== src/QueuedRwLock/Order.antt =====
-- delete-me/queued_rw_lock.hpp: who has the lock, and in which order.
use mathlib.Core.Path.{subst}
use akl.Base.{
  Bool, ap, ◌⊎◌, Bool-cases, ltb, zero, suc, ℕ, ◌+◌, ◌-◌, ◌<◌, ◌≤◌, ◌≡◌, ◌≢◌, inl, inr, refl, sym,
  ◌∙◌, true, false, Option, none, some, List, [], ◌∷◌, arith,
}
use akl.QueuedRwLock.{
  request_read, request_write, Place, outside, w_announce, w_class, w_count, w_pass, r_chain_count,
  r_chain_pass, r_store, faulted, Request, put, Lock, construct, act, Action, calls_writelock,
  calls_readlock, goes, step, run,
}
use akl.QueuedRwLock.Invariant.{
  TailOk, WriterOk, Inv, WakeOk, past, passed, is_done, PlaceOk, NextOk, Requests,
}
use akl.QueuedRwLock.Change.{ok_of}
use akl.QueuedRwLock.Acts.{act-Requests}
use akl.QueuedRwLock.Arrival.{arrive-Inv}

module _ (padding : ℕ) where
  act-arrived : (p : Place) (i : ℕ) (m : Lock) → (act padding p i m).arrived ≡ m.arrived
  unfolding act put
  act-arrived p i m = ground arith

  -- Who has been let in stays so.
  act-entitled :
      (p : Place) (i w : ℕ) (m : Lock)
      → (m.requests w).entitled ≡ true
      → ((act padding p i m).requests w).entitled ≡ true
  unfolding act put
  act-entitled p i w m h = ground arith

  act-passed :
      (p : Place) (i t : ℕ) (m : Lock)
      → (m.requests i).place ≡ p
      → passed (m.requests t).place ≡ true
      → passed ((act padding p i m).requests t).place ≡ true
  unfolding act put
  act-passed p i t m e h = ground arith

  act-later :
      (p : Place) (i t : ℕ) (m : Lock)
      → t ≢ i
      → ((act padding p i m).requests t).place ≡ (m.requests t).place
  unfolding act put
  act-later p i t m ne = ground arith

  WriterOk-keep :
      (p : Place) (i : ℕ) (m : Lock) (o : Option ℕ) → WriterOk m o → WriterOk (act padding p i m) o
  WriterOk-keep p i m none h = tt
  WriterOk-keep p i m (some w) (l, h) = (omega (arith, act-arrived p i m), act-entitled p i w m h)

  act-next_writer :
      (p : Place) (i : ℕ) (m : Lock)
      → Requests m.arrived m.requests
      → i < m.arrived
      → (m.requests i).place ≡ p
      → WriterOk m m.next_writer
      → WriterOk (act padding p i m) (act padding p i m).next_writer
  unfolding act put
  act-next_writer w_announce i m rs l e h =
      let ok = ok_of w_announce m.arrived i m.requests rs l e in
      WriterOk-keep w_announce i m (some i) (l, ok.0.1)
  act-next_writer r_store i m rs l e h =
      let ok = ok_of r_store m.arrived i m.requests rs l e in ground (arith, (rs.own i l).next)
  act-next_writer p i m rs l e h = ground (arith, WriterOk-keep p i m m.next_writer h)

  act-wakes :
      (p : Place) (i t : ℕ) (m : Lock)
      → WriterOk m m.next_writer
      → WakeOk m (m.requests t).place
      → WakeOk (act padding p i m) ((act padding p i m).requests t).place
  unfolding act put
  act-wakes p i t m h w = ground (arith, act-entitled p i)

  act-tail :
      (p : Place) (i : ℕ) (m : Lock)
      → i < m.arrived
      → (m.requests i).place ≡ p
      → TailOk m m.tail
      → TailOk (act padding p i m) (act padding p i m).tail
  unfolding act put
  act-tail p i m l e h = ground (arith, act-passed p i (m.arrived - 1) m e)

module _ (padding : ℕ) (sound : padding ≡ 0) where
  act-Inv :
      (p : Place) (i : ℕ) (m : Lock)
      → Inv m
      → i < m.arrived
      → (m.requests i).place ≡ p
      → Inv (act padding p i m)
  act-Inv p i m inv l e = record {
    requests = rw (act-arrived padding p i m) (
        act-Requests padding sound p i m inv.requests l e
          (subst (λ x. WakeOk m x) e (inv.wakes i)));
    later = λ t h.
        let h' : m.arrived ≤ t = rw⁻¹ (act-arrived padding p i m) h in
        act-later padding p i t m (omega arith) ∙ inv.later t h';
    next_writer = act-next_writer padding p i m inv.requests l e inv.next_writer;
    wakes = λ t. act-wakes padding p i t m inv.next_writer (inv.wakes t);
    tail = act-tail padding p i m l e inv.tail;
  }

  step-Inv : (a : Action) (m : Lock) → Inv m → Inv (step padding a m)
  unfolding step act
  step-Inv calls_writelock m inv = arrive-Inv request_write m (omega arith) inv
  step-Inv calls_readlock m inv = arrive-Inv request_read m (omega arith) inv
  step-Inv (goes i) m inv = elim (Bool-cases (ltb i m.arrived)) [
    | inl l ↦ act-Inv (m.requests i).place i m inv (ground arith) refl
    | inr g ↦ rw (inv.later i (ground arith)) inv
  ]

  run-Inv : (actions : List Action) (m : Lock) → Inv m → Inv (run padding actions m)
  unfolding run
  run-Inv [] m inv = inv
  run-Inv (a ∷ actions) m inv = run-Inv actions (step padding a m) (step-Inv a m inv)

construct-Inv : Inv construct
construct-Inv = record {
  requests = record { own = λ t l. absurd (omega arith); pair = λ t l. absurd (omega arith) };
  later = λ t h. refl;
  next_writer = tt;
  wakes = λ t. tt;
  tail = inl refl;
}

-- Who has been let in, after everyone before.
before_entitled :
    (n : ℕ) (q : ℕ → Request)
    → Requests n q
    → (d i : ℕ) → i + d < n
    → (q (i + d)).entitled ≡ true
    → (q i).entitled ≡ true
before_entitled n q rs zero i l h = subst (λ j. (q j).entitled ≡ true) (omega arith) h
before_entitled n q rs (suc d) i l h = (rs.pair i (omega arith)).both (
    before_entitled n q rs d (i + 1) (omega arith)
      (subst (λ j. (q j).entitled ≡ true) (omega arith) h))

-- With the padding of `tempold` at 0, after any sequence of calls and moves: while a thread that
-- called `writelock` has not done its `wrunlock`, no thread that arrived later has passed the loop
-- in which it waits. So writers exclude each other and the readers behind them, and nobody
-- overtakes a writer.
pub run_in_line :
    (padding : ℕ) (actions : List Action) (i j : ℕ)
    → padding ≡ 0
    → i < j
    → j < (run padding actions construct).arrived
    → ((run padding actions construct).requests i).lockclass ≡ request_write
    → is_done ((run padding actions construct).requests i).place ≡ false
    → past ((run padding actions construct).requests j).place ≡ false
run_in_line padding actions i j sound lt l c d =
    let m = run padding actions construct in
    let rs = (run-Inv padding sound actions construct construct-Inv).requests in
    elim (Bool-cases (past (m.requests j).place)) [
      | inl h ↦
          let after : (m.requests (i + 1)).entitled ≡ true =
            before_entitled m.arrived m.requests rs (j - (i + 1)) (i + 1) (omega arith)
              (subst (λ k. (m.requests k).entitled ≡ true) (omega arith) ((rs.own j l).let_in h)) in
          let left : is_done (m.requests i).place ≡ true =
            (rs.pair i (omega arith)).behind_writer after c in
          absurd (ground arith)
      | inr h ↦ h
    ]

-- The thread is to follow `next` without a test: `wrunlock` and the end of `readlock` for the request
-- to wake, and `rdunlock` for the writer that it announces.
abbrev pub follows : Place → Bool
follows w_class = true
follows w_count = true
follows w_pass = true
follows r_chain_count = true
follows r_chain_pass = true
follows r_store = true
follows _ = false

next_there : (n i : ℕ) (o : Option ℕ) → NextOk n i o → o ≢ none → o ≡ some (i + 1)
next_there n i none ok ne = absurd (ne refl)
next_there n i (some x) (e, l) ne = ap some e

follows-PlaceOk :
    (t : ℕ) (r : Request) (p : Place) → follows p ≡ true → PlaceOk t r p → r.next ≢ none
follows-PlaceOk t r p h ok = ground arith

-- With the padding of `tempold` at 0, after any sequence of calls and moves: no thread has gone
-- through a `next` that is NULL. A thread is at no place from which it follows the `next` of its
-- request without a test, or that `next` is the request that arrived next after its own.
pub run_never_faulted :
    (padding : ℕ) (actions : List Action) (i : ℕ)
    → padding ≡ 0
    → (((run padding actions construct).requests i).place ≢ faulted)
      × ((follows ((run padding actions construct).requests i).place ≡ false)
          ⊎ (((run padding actions construct).requests i).next ≡ some (i + 1)))
run_never_faulted padding actions i sound =
    let m = run padding actions construct in
    let inv = run-Inv padding sound actions construct construct-Inv in
    elim (Bool-cases (ltb i m.arrived)) [
      | inl l ↦
          let own = inv.requests.own i (ground arith) in
          (
            λ e. subst (λ p. PlaceOk i (m.requests i) p) e own.at,
            elim (Bool-cases (follows (m.requests i).place)) [
              | inl h ↦ inr (
                  next_there m.arrived i (m.requests i).next own.next
                    (follows-PlaceOk i (m.requests i) (m.requests i).place h own.at))
              | inr h ↦ inl h
            ],
          )
      | inr g ↦
          let away : (m.requests i).place ≡ outside = inv.later i (ground arith) in
          (
            λ e. let e' : outside ≡ faulted = sym away ∙ e in absurd (ground arith),
            inl (ap follows away),
          )
    ]
