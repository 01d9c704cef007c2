-- ===== src/DeferredRwlock/Waiters.antt =====
-- What becomes of the writers that wait when `wrunlock` has released the readers.
use mathlib.Core.Path.{subst}
use akl.Base.{
  ℕ, ◌<◌, ◌^◌, ◌≡◌, ◌≢◌, ◌⊎◌, inr, refl, sym, ◌∙◌, ap, true, false, List, [], ◌∷◌, arith, ◌==◌,
  if◌then◌else◌, ==_of_ne, length,
}
use akl.DeferredRwlock.Memory.{
  Ptr, null, request, request_write, Lock, write, ok, set_next, and_then,
}
use akl.DeferredRwlock.Queue.{
  Cell, Holds, Linked, Distinct, IsReader, IsWriter, is_write, readers, writers, has, start,
  last_cell, has-writers, Linked-write,
}
use akl.DeferredRwlock.Append.{Linked-last, last-ne_null}
use akl.DeferredRwlock.Steps.{Ends, ends, Ends-mono, Ends-bind, set_next_lem}
use akl.DeferredRwlock.Spec.{IsQueue, Completed, kept_tail}
use akl.DeferredRwlock.Completion.{behind}
use akl.DeferredRwlock.Invariant.{Inv}
use akl.DeferredRwlock.Ops.{insert_queue, wrunlock}
use akl.DeferredRwlock.Unlock.{wrunlock-cases}
use akl.DeferredRwlock.Tail.{
  EndsWith, readers-end, last-out, Completed-IsQueue, Distinct-writers, writers-Stops,
  writers-IsRequest,
}

some_reader : (x : Cell) (xs : List Cell) → IsReader x → 0 < length (readers (x ∷ xs))
some_reader x xs e =
    subst (λ c. 0 < length (if c == request_write then readers xs else x ∷ readers xs)) (sym e)
      (omega arith)

-- The readers have the lock, and the queue of writers is well-formed.
abbrev pub ReadersIn : List Cell → Ptr × ℕ → Lock → Type 0
ReadersIn xs out v =
    (out.1 ≡ length (readers xs))
    × (v.writer ≡ false)
    × (v.reader_count ≡ length (readers xs))
    × Inv v (writers xs)

-- `wrunlock` by the writer, with a reader first in the queue and more fuel than requests behind it,
-- keeps the invariant, and the readers that it released have the lock, provided that not exactly one
-- request stands behind the readers at the head, that the last request of the queue is a writer or
-- no writer waits, and that the readers can be counted in 16 bits.
pub wrunlock-Inv :
    (k : ℕ) (w : Lock) (x : Cell) (xs : List Cell)
    → Inv w (x ∷ xs)
    → w.writer ≡ true
    → IsReader x
    → length xs < k
    → length (behind xs) ≢ 1
    → (writers (x ∷ xs) ≡ []) ⊎ IsWriter (last_cell x xs)
    → length (readers (x ∷ xs)) < 2 ^ 16
    → Ends (ReadersIn (x ∷ xs)) (wrunlock k w)
wrunlock-Inv k w x xs inv h rd fuel more end few =
    Ends-mono ((wrunlock-cases k w x xs inv rd fuel).0 more) (λ out v c.
      let n : v.reader_count ≡ length (readers (x ∷ xs)) =
        omega (arith, c.reader_count, inv.excl h) in
      (
        c.count,
        c.writer,
        n,
        record {
          queue =
              Completed-IsQueue (record w { writer = false }) x xs out v
                (record {
                  head = inv.queue.head;
                  chain = inv.queue.chain;
                  distinct = inv.queue.distinct;
                  tail = inv.queue.tail;
                })
                c end;
          requests = writers-IsRequest (x ∷ xs);
          excl = λ e. absurd (cc (e, c.writer));
          first = λ _. writers-Stops (x ∷ xs);
          busy = λ _. inr (omega (arith, some_reader x xs rd));
          count_lt = omega arith;
          free = c.spinner ∙ inv.free;
        },
      ))

-- From `head` the requests `wr` are linked, and `i` is none of them.
abbrev pub Lost : List Cell → Cell → Lock → Type 0
Lost wr i u = (u.head ≡ start wr null) × Linked u.heap wr null × (has i.ptr wr ≡ false)

-- After `complete_rdlock` on a queue whose last request is a reader, while writers wait.
module _ (w : Lock) (x : Cell) (xs : List Cell) (out : Ptr × ℕ) (v : Lock) (q : IsQueue w (x ∷ xs))
    (c : Completed w (x ∷ xs) out v) (end : is_write (last_cell x xs) ≡ false) (y : Cell)
    (ys : List Cell) (wait : writers (x ∷ xs) ≡ y ∷ ys) where
  abbrev z : Cell
  z = last_cell x xs

  stale : v.tail ≡ z.ptr
  stale = c.tail ∙ ap (λ zs. kept_tail zs w.tail) wait ∙ q.tail

  tail-Holds : Holds v.heap z c.stop
  tail-Holds = by_end (readers-end x xs end)
    where
      by_end : EndsWith z (readers (x ∷ xs)) → Holds v.heap z c.stop
      by_end e =
          subst (λ d. Holds v.heap d c.stop) e.end
            (Linked-last v.heap e.first e.rest c.stop
              (subst (λ zs. Linked v.heap zs c.stop) e.split c.readers_chain))

  waits : (v.head == null) ≡ false
  waits =
      let there : y.ptr ≢ null =
        (subst (λ zs. Distinct zs) wait (Distinct-writers (x ∷ xs) q.distinct)).0 in
      subst (λ p. (p == null) ≡ false) (sym (c.head ∙ ap (λ zs. start zs null) wait))
        (==_of_ne y.ptr null there)

  set_stale :
      (p : Ptr)
      → set_next v.tail p v
        ≡ ok tt (record v { heap = write v.heap z.ptr (request z.class z.id p) })
  set_stale p =
      subst
        (λ t.
          set_next t p v ≡ ok tt (record v { heap = write v.heap z.ptr (request z.class z.id p) }))
        (sym stale) (set_next_lem v z c.stop (last-ne_null x xs q.distinct) tail-Holds p)

  insert_queue-Lost :
      (i : Cell)
      → has i.ptr (x ∷ xs) ≡ false
      → Ends (λ _. Lost (writers (x ∷ xs)) i) (insert_queue i.ptr v)
  unfolding insert_queue
  insert_queue-Lost i o =
      rw (waits, set_stale i.ptr)
        (ends (
          c.head,
          Linked-write v.heap z.ptr (request z.class z.id i.ptr) (writers (x ∷ xs)) null
              (last-out x xs q.distinct end) c.waiting,
          has-writers i.ptr (x ∷ xs) o,
        ))

-- If the last request of the queue is a reader while a writer waits, `wrunlock` makes the next
-- request that `insert_queue` gets disappear: `head` still leads through the writers that waited to
-- `NULL`, and the request is none of them. The other conditions are those under which `wrunlock`
-- releases readers and does not fault.
pub wrunlock-Lost :
    (k : ℕ) (w : Lock) (x : Cell) (xs : List Cell) (i : Cell)
    → Inv w (x ∷ xs)
    → IsReader x
    → length xs < k
    → length (behind xs) ≢ 1
    → is_write (last_cell x xs) ≡ false
    → writers (x ∷ xs) ≢ []
    → has i.ptr (x ∷ xs) ≡ false
    → Ends (λ _. Lost (writers (x ∷ xs)) i) (and_then (wrunlock k w) (λ _. insert_queue i.ptr))
wrunlock-Lost k w x xs i inv rd fuel more end wait out =
    Ends-bind ((wrunlock-cases k w x xs inv rd fuel).0 more)
      (λ r v c. by_head v r c (writers (x ∷ xs)) refl)
  where
    queue : IsQueue (record w { writer = false }) (x ∷ xs)
    queue = record {
      head = inv.queue.head;
      chain = inv.queue.chain;
      distinct = inv.queue.distinct;
      tail = inv.queue.tail;
    }

    by_head :
        (v : Lock) (r : Ptr × ℕ)
        → Completed (record w { writer = false }) (x ∷ xs) r v
        → (ws : List Cell) → writers (x ∷ xs) ≡ ws
        → Ends (λ _. Lost (writers (x ∷ xs)) i) (insert_queue i.ptr v)
    by_head v r c [] e = absurd (wait e)
    by_head v r c (y ∷ ys) e =
        insert_queue-Lost (record w { writer = false }) x xs r v queue c end y ys e i out
