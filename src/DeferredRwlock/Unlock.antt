-- ===== src/DeferredRwlock/Unlock.antt =====
-- `wrunlock`, and the hand-over that `rdunlock` shares with it.
use akl.Base.{
  ℕ, ◌<◌, ◌≡◌, ◌≢◌, ◌⊎◌, inl, inr, refl, sym, ap, true, false, List, [], ◌∷◌, arith, ◌==◌,
  Bool-cases, ==_of_ne, length, on-equal,
}
use akl.DeferredRwlock.Memory.{Ptr, null, Lock, Run, ok, fault, unlock}
use akl.DeferredRwlock.Queue.{
  Cell, Linked, Distinct, start, All, IsReader, readers, is_write, has-readers,
}
use akl.DeferredRwlock.Steps.{Ends, ends, Ends-mono, Ends-bind, load_lem}
use akl.DeferredRwlock.Spec.{IsQueue, Completed}
use akl.DeferredRwlock.Prefix.{Stops}
use akl.DeferredRwlock.Completion.{IsRequest, behind, complete_rdlock-cases}
use akl.DeferredRwlock.Invariant.{Inv, idle, lock_lem}
use akl.DeferredRwlock.Grant.{
  hand_over-nobody, hand_over-writer, hand_over-readers, hand_over-fault,
}
use akl.DeferredRwlock.Ops.{hand_over, check_second, wrunlock}

-- A free lock with the queue `xs`, which has no reader at its head, has gone to the first writer,
-- or stays free if nobody waits. The result is the request that got it, and how many did.
abbrev pub Handed : List Cell → Ptr × ℕ → Lock → Type 0
Handed [] out v = (out ≡ (null, 0)) × (idle v ≡ true) × Inv v []
Handed (x ∷ xs) out v = (out ≡ (x.ptr, 1)) × (v.writer ≡ true) × Inv v xs

-- The lock while `hand_over` runs.
abbrev pub freed : Lock → Lock
freed w = record w { writer = false; spinner = 1; reader_count = 0 }

freed-IsQueue : (w : Lock) (xs : List Cell) → IsQueue w xs → IsQueue (freed w) xs
freed-IsQueue w xs q = record {
  head = q.head;
  chain = q.chain;
  distinct = q.distinct;
  tail = q.tail;
}

-- The spinlock is released at the end.
abbrev released : Lock → Lock
released w = record w { spinner = 0 }

pub hand_over-Handed :
    (check : Ptr → ℕ → (w : Lock) → Run (Unit {0})) (k : ℕ) (w : Lock) (xs : List Cell)
    → IsQueue w xs
    → All IsRequest xs
    → Stops xs
    → Ends (λ out v. Handed xs out (released v)) (hand_over check k (freed w))
hand_over-Handed check k w [] q a s =
    rw (hand_over-nobody check k (freed w) (freed-IsQueue w [] q)) (
      ends (
        refl,
        refl,
        record {
          queue = record { head = q.head; chain = tt; distinct = tt; tail = q.tail };
          requests = tt;
          excl = λ e. cc;
          first = λ _. tt;
          busy = λ n. absurd (n refl);
          count_lt = omega arith;
          free = refl;
        },
      ))
hand_over-Handed check k w (x ∷ xs) q a s =
    Ends-mono (hand_over-writer check k (freed w) x xs (freed-IsQueue w (x ∷ xs) q) s) (λ out v h. (
      h.0,
      h.1.writer,
      record {
        queue = record {
          head = h.1.queue.head;
          chain = h.1.queue.chain;
          distinct = h.1.queue.distinct;
          tail = h.1.queue.tail;
        };
        requests = a.1;
        excl = λ _. h.1.reader_count;
        first = λ e. absurd (cc (h.1.writer, e));
        busy = λ _. inl h.1.writer;
        count_lt = omega (arith, h.1.reader_count);
        free = refl;
      },
    ))

Distinct-readers : (xs : List Cell) → Distinct xs → Distinct (readers xs)
Distinct-readers [] d = tt
Distinct-readers (x ∷ xs) d = elim (Bool-cases (is_write x)) [
  | inl wr ↦ rw wr (Distinct-readers xs d.2)
  | inr rd ↦ rw rd (d.0, has-readers x.ptr xs d.1, Distinct-readers xs d.2)
]

-- The assertion of `wrunlock` holds of two released readers.
check-chain :
    (rd : List Cell) (p stop : Ptr) (n : ℕ) (v : Lock)
    → p ≡ start rd stop
    → n ≡ length rd
    → Linked v.heap rd stop
    → Distinct rd
    → check_second p n v ≡ ok tt v
unfolding check_second
check-chain [] p stop n v e f l d = rw f
check-chain (a ∷ []) p stop n v e f l d = rw f
check-chain (a ∷ b ∷ []) p stop n v e f l d =
    rw (f, e, load_lem v a b.ptr d.0 l.0, ==_of_ne b.ptr null d.2.0)
check-chain (a ∷ b ∷ c ∷ rd) p stop n v e f l d =
    let more : (n == 2) ≡ false = ground arith in rw more

-- The lock at the start of `hand_over`, the readers' count being 0.
freed_lem : (w : Lock) → w.reader_count ≡ 0 → record w { writer = false; spinner = 1 } ≡ freed w
freed_lem w e = ap (λ n. record w { writer = false; spinner = 1; reader_count = n }) e

-- The lock at the start of `complete_rdlock` in `wrunlock`.
abbrev unwritten : Lock → Lock
unwritten w = record w { writer = false; spinner = 1 }

unwritten-IsQueue : (w : Lock) (xs : List Cell) → IsQueue w xs → IsQueue (unwritten w) xs
unwritten-IsQueue w xs q = record {
  head = q.head;
  chain = q.chain;
  distinct = q.distinct;
  tail = q.tail;
}

Completed-released :
    (w : Lock) (xs : List Cell) (out : Ptr × ℕ) (v : Lock)
    → w.spinner ≡ 0
    → Completed (unwritten w) xs out v
    → Completed (record w { writer = false }) xs out (released v)
Completed-released w xs out v e c = record {
  stop = c.stop;
  released = c.released;
  count = c.count;
  readers_chain = c.readers_chain;
  head = c.head;
  waiting = c.waiting;
  tail = c.tail;
  reader_count = c.reader_count;
  writer = c.writer;
  spinner = sym e;
  same = c.same;
}

module _ (k : ℕ) (w : Lock) where
  -- `wrunlock` by the writer, on a lock that satisfies the invariant and when no reader is first in
  -- the queue: it ends, and the lock goes to the first writer, which is returned, or becomes idle if
  -- nobody waits. The invariant is kept.
  pub wrunlock_lem :
      (xs : List Cell) → Inv w xs → w.writer ≡ true → Stops xs → Ends (Handed xs) (wrunlock k w)
  unfolding wrunlock unlock
  wrunlock_lem xs inv h s =
      rw (lock_lem w inv.free, freed_lem w (inv.excl h))
        (Ends-bind (hand_over-Handed check_second k w xs inv.queue inv.requests s)
          (λ out v p. ends p))

  -- The two cases, as implications.
  pub wrunlock-cases :
      (x : Cell) (xs : List Cell)
      → Inv w (x ∷ xs)
      → IsReader x
      → length xs < k
      → ((length (behind xs) ≢ 1
            → Ends (Completed (record w { writer = false }) (x ∷ xs)) (wrunlock k w))
          × (length (behind xs) ≡ 1 → wrunlock k w ≡ fault))
  unfolding wrunlock unlock
  wrunlock-cases x xs inv rd h =
      let q = unwritten-IsQueue w (x ∷ xs) inv.queue in
      let (good, bad) = complete_rdlock-cases k (unwritten w) x xs q rd inv.requests.1 h in
      (
        λ n. rw (lock_lem w inv.free) (
            Ends-bind
              (hand_over-readers check_second k (unwritten w) x xs q rd (good n) (λ out v c.
                check-chain (readers (x ∷ xs)) out.0 c.stop out.1 v c.released c.count
                  c.readers_chain (Distinct-readers (x ∷ xs) q.distinct)))
              (λ out v c. ends (Completed-released w (x ∷ xs) out v inv.free c))),
        λ n.
            rw (lock_lem w inv.free)
              (rw (hand_over-fault check_second k (unwritten w) x xs q rd (bad n)) refl),
      )

  -- `wrunlock` on a lock that satisfies the invariant, when a reader is first in the queue and there
  -- is more fuel than requests behind it: if exactly one request stands behind the readers at the
  -- head, the call reads through `NULL`. Otherwise it ends, all readers of the queue have been
  -- released, in order, and the writers have stayed in it.
  pub wrunlock-readers :
      (x : Cell) (xs : List Cell)
      → Inv w (x ∷ xs)
      → IsReader x
      → length xs < k
      → ((length (behind xs) ≢ 1)
          × Ends (Completed (record w { writer = false }) (x ∷ xs)) (wrunlock k w))
        ⊎ ((length (behind xs) ≡ 1) × (wrunlock k w ≡ fault))
  wrunlock-readers x xs inv rd h = on-equal (length (behind xs)) 1 (wrunlock-cases x xs inv rd h)
