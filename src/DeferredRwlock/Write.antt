-- ===== src/DeferredRwlock/Write.antt =====
-- `writelock` and `writelock_priority`.
use akl.Base.{
  ℕ, ◌<◌, ◌≡◌, ◌⊎◌, inl, inr, refl, sym, ◌∙◌, Bool, true, false, List, [], ◌∷◌, ◌++◌, arith,
  Bool-cases,
}
use akl.DeferredRwlock.Memory.{Ptr, request_write, Lock, Cmd, unlock}
use akl.DeferredRwlock.Queue.{Cell, All, IsWriter}
use akl.DeferredRwlock.Steps.{Ends, ends, Ends-bind}
use akl.DeferredRwlock.Spec.{IsQueue}
use akl.DeferredRwlock.Prefix.{Stops}
use akl.DeferredRwlock.Completion.{IsRequest}
use akl.DeferredRwlock.Enqueue.{IsNew, Queued, insert_queue_lem, insert_queue_head_lem}
use akl.DeferredRwlock.Invariant.{
  Inv, Offered, idle, idle-count, taken, clear, classify, take, prepared, prepared-IsQueue,
  prepared-IsNew,
}
use akl.DeferredRwlock.Ops.{
  writelock_with, writelock, writelock_priority, insert_queue, insert_queue_head,
}

-- The lock was idle and is the caller's, or it was not and the request waits in the queue `ys`.
abbrev pub WriteAsked : Lock → (xs ys : List Cell) → Bool → Lock → Type 0
WriteAsked w xs ys got v =
    ((idle w ≡ true) × (got ≡ true) × (v.writer ≡ true) × Inv v xs)
    ⊎ ((idle w ≡ false)
        × (got ≡ false)
        × (v.writer ≡ w.writer)
        × (v.reader_count ≡ w.reader_count)
        × Inv v ys)

IsQueue-unlock :
    (v : Lock) (xs : List Cell) (n : ℕ) (b : Bool) (s : ℕ)
    → IsQueue v xs
    → IsQueue (record v { writer = b; spinner = s; reader_count = n }) xs
IsQueue-unlock v xs n b s q = record {
  head = q.head;
  chain = q.chain;
  distinct = q.distinct;
  tail = q.tail;
}

busy_as :
    (w v : Lock)
    → v.writer ≡ w.writer
    → v.reader_count ≡ w.reader_count
    → (w.writer ≡ true) ⊎ (0 < w.reader_count)
    → (v.writer ≡ true) ⊎ (0 < v.reader_count)
busy_as w v e f h = ground arith

module _ (w : Lock) (xs ys : List Cell) (i : Cell) (inv : Inv w xs) (o : Offered w xs i)
    (requests : All IsRequest ys) (first : Stops xs → Stops ys) where
  granted : idle w ≡ true → Inv (record (prepared w xs i inv o) { writer = true; spinner = 0 }) xs
  granted e = record {
    queue = IsQueue-unlock _ xs w.reader_count true 0 (prepared-IsQueue w xs i inv o);
    requests = inv.requests;
    excl = λ _. idle-count w e;
    first = λ h. cc;
    busy = λ _. inl refl;
    count_lt = inv.count_lt;
    free = refl;
  }

  waits :
      idle w ≡ false
      → (v : Lock) → Queued (prepared w xs i inv o) ys v
      → Inv (record v { spinner = 0 }) ys
  waits e v q = record {
    queue = IsQueue-unlock v ys v.reader_count v.writer 0 q.queue;
    requests = requests;
    excl = λ h. q.reader_count ∙ inv.excl (sym q.writer ∙ h);
    first = λ h. first (inv.first (sym q.writer ∙ h));
    busy = λ _. busy_as w v q.writer q.reader_count (taken w e);
    count_lt = omega (arith, q.reader_count, inv.count_lt);
    free = refl;
  }

  writelock_with_lem :
      (insert : Ptr → Cmd (Unit {0}))
      → ((v : Lock) → IsQueue v xs → IsNew v xs i → Ends (λ _. Queued v ys) (insert i.ptr v))
      → IsWriter i
      → Ends (WriteAsked w xs ys) (writelock_with insert i.ptr w)
  unfolding writelock_with unlock
  writelock_with_lem insert ins wr =
      rw (clear w xs i inv o, classify w xs i inv o request_write wr, take w xs i inv o)
        (elim (Bool-cases (idle w)) [
          | inl e ↦ rw e (ends (inl (e, refl, refl, granted e)))
          | inr e ↦ rw e (
              Ends-bind
                (ins (prepared w xs i inv o) (prepared-IsQueue w xs i inv o)
                  (prepared-IsNew w xs i inv o))
                (λ _ v q. ends (inr (e, refl, q.writer, q.reader_count, waits e v q))))
        ])

All-snoc :
    (xs : List Cell) (i : Cell) → All IsRequest xs → IsWriter i → All IsRequest (xs ++ i ∷ [])
All-snoc [] i a wr = (inr wr, tt)
All-snoc (x ∷ xs) i a wr = (a.0, All-snoc xs i a.1 wr)

Stops-snoc : (xs : List Cell) (i : Cell) → IsWriter i → Stops xs → Stops (xs ++ i ∷ [])
Stops-snoc [] i wr s = wr
Stops-snoc (x ∷ xs) i wr s = s

module _ (w : Lock) (xs : List Cell) (i : Cell) (inv : Inv w xs) (o : Offered w xs i)
    (wr : IsWriter i) where
  -- On a lock that satisfies the invariant and with a request that is not queued, `writelock` ends:
  -- it takes the lock if nobody has it, and else puts the request at the end of the queue. Either
  -- way the invariant is kept.
  pub writelock_lem : Ends (WriteAsked w xs (xs ++ i ∷ [])) (writelock i.ptr w)
  unfolding writelock
  writelock_lem =
      writelock_with_lem w xs (xs ++ i ∷ []) i inv o (All-snoc xs i inv.requests wr)
        (Stops-snoc xs i wr) insert_queue (λ v q n. insert_queue_lem v xs i q n) wr

  -- On a lock that satisfies the invariant and with a request that is not queued,
  -- `writelock_priority` ends: it takes the lock if nobody has it, and else puts the request at the
  -- head of the queue. Either way the invariant is kept.
  pub writelock_priority_lem : Ends (WriteAsked w xs (i ∷ xs)) (writelock_priority i.ptr w)
  unfolding writelock_priority
  writelock_priority_lem =
      writelock_with_lem w xs (i ∷ xs) i inv o (inr wr, inv.requests) (λ _. wr) insert_queue_head
        (λ v q n. insert_queue_head_lem v xs i q n) wr
