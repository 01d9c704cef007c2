-- ===== src/DeferredRwlock/RdUnlock.antt =====
-- `rdunlock`.
use akl.Base.{
  ℕ, ◌+◌, ◌<◌, ◌^◌, ◌≡◌, ◌⊎◌, inl, inr, refl, true, false, List, arith, ◌==◌, Bool-cases, ==_iff,
}
use akl.DeferredRwlock.Memory.{Ptr, null, Lock, unlock, pure}
use akl.DeferredRwlock.Queue.{Cell}
use akl.DeferredRwlock.Steps.{Ends, ends, Ends-bind}
use akl.DeferredRwlock.Invariant.{Inv, lock_lem}
use akl.DeferredRwlock.Ops.{u16, rdunlock}
-- A free lock with the queue `xs`, which has no reader at its head, has gone to the first writer,
use akl.DeferredRwlock.Unlock.{Handed, freed, hand_over-Handed}

-- What `rdunlock` leaves: the last reader hands the lock over, another only leaves.
abbrev pub ReadLeft : Lock → List Cell → Ptr × ℕ → Lock → Type 0
ReadLeft w xs out v =
    ((w.reader_count ≡ 1) × Handed xs out v)
    ⊎ ((1 < w.reader_count)
        × (out ≡ (null, 0))
        × (v.writer ≡ false)
        × (v.reader_count + 1 ≡ w.reader_count)
        × Inv v xs)

module _ (k : ℕ) (w : Lock) where
  last_left :
      w.writer ≡ false
      → (u16 (w.reader_count + 65535) == 0) ≡ true
      → record w { reader_count = u16 (w.reader_count + 65535); spinner = 1 } ≡ freed w
  last_left f e =
      let zero_left : u16 (w.reader_count + 65535) ≡ 0 = (==_iff _ 0).0 e in
      λ i. record w { reader_count = zero_left i; writer = f i; spinner = 1 }

  one_left :
      w.reader_count < 2 ^ 16
      → 0 < w.reader_count
      → (u16 (w.reader_count + 65535) == 0) ≡ true
      → w.reader_count ≡ 1
  one_left lt pos e = omega (arith, (==_iff (u16 (w.reader_count + 65535)) 0).0 e)

  some_left :
      w.reader_count < 2 ^ 16
      → 0 < w.reader_count
      → (u16 (w.reader_count + 65535) == 0) ≡ false
      → (1 < w.reader_count) × (u16 (w.reader_count + 65535) + 1 ≡ w.reader_count)
  some_left lt pos e = ground arith

  still_read :
      (xs : List Cell)
      → Inv w xs
      → w.writer ≡ false
      → (1 < w.reader_count) × (u16 (w.reader_count + 65535) + 1 ≡ w.reader_count)
      → Inv (record w { reader_count = u16 (w.reader_count + 65535); spinner = 0 }) xs
  still_read xs inv f h = record {
    queue = record {
      head = inv.queue.head;
      chain = inv.queue.chain;
      distinct = inv.queue.distinct;
      tail = inv.queue.tail;
    };
    requests = inv.requests;
    excl = λ e. absurd (cc (e, f));
    first = inv.first;
    busy = λ _. inr (omega arith);
    count_lt = omega arith;
    free = refl;
  }

  -- `rdunlock` by a reader, on a lock that satisfies the invariant, ends without a fault, whatever
  -- the queue: the last reader hands the lock to the first writer, or leaves it idle, and any other
  -- lowers the count. The invariant is kept.
  pub rdunlock_lem :
      (xs : List Cell)
      → Inv w xs
      → w.writer ≡ false
      → 0 < w.reader_count
      → Ends (ReadLeft w xs) (rdunlock k w)
  unfolding rdunlock unlock
  rdunlock_lem xs inv wf pos =
      rw (lock_lem w inv.free) (elim (Bool-cases (u16 (w.reader_count + 65535) == 0)) [
        | inl e ↦
            rw (e, last_left wf e)
              (Ends-bind
                (hand_over-Handed (λ _ _. pure tt) k w xs inv.queue inv.requests (inv.first wf))
                (λ out v p. ends (inl (one_left inv.count_lt pos e, p))))
        | inr e ↦
            let left = some_left inv.count_lt pos e in
            rw e (ends (inr (left.0, refl, wf, left.1, still_read xs inv wf left)))
      ])
