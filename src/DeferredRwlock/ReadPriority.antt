-- ===== src/DeferredRwlock/ReadPriority.antt =====
-- `readlock_priority`.
use akl.Base.{
  ℕ, suc, ◌+◌, ◌<◌, ◌^◌, ◌≡◌, ◌≢◌, ◌⊎◌, inl, inr, refl, sym, ◌∙◌, ap, true, false, not, ◌&&◌, List,
  [], ◌∷◌, arith, ◌==◌, if◌then◌else◌, Bool-cases, length, on-equal,
}
use akl.DeferredRwlock.Memory.{Ptr, null, request_read, Lock, fault, unlock}
use akl.DeferredRwlock.Queue.{Cell, IsReader}
use akl.DeferredRwlock.Steps.{Ends, ends, Ends-mono, Ends-bind, fault-bind}
use akl.DeferredRwlock.Spec.{IsQueue, Completed}
use akl.DeferredRwlock.Completion.{behind, complete_rdlock-cases}
use akl.DeferredRwlock.Enqueue.{Queued, insert_queue_head_lem}
use akl.DeferredRwlock.Invariant.{
  Inv, Offered, clear, classify, take, prepared, prepared-IsQueue, prepared-IsNew,
}
use akl.DeferredRwlock.Grant.{load_head, head_there}
use akl.DeferredRwlock.Ops.{readlock_with, readlock_priority, insert_queue_head}
use akl.DeferredRwlock.Read.{ReadWaits, ReadGranted, slow, fast, held_test}

-- The request has gone to the head of the queue, and all readers of the queue are released.
pub record ReadReleased (w : Lock) (i : Cell) (xs : List Cell) (out : Ptr × ℕ) (v : Lock)
    : Type 0 where
  pub queued : Lock
  pub queue : IsQueue queued (i ∷ xs)
  pub same_count : queued.reader_count ≡ w.reader_count
  pub same_writer : queued.writer ≡ w.writer
  pub completed : Completed queued (i ∷ xs) out v

-- What `readlock_priority` does where it ends.
abbrev pub PriorityAsked : Lock → Cell → List Cell → Ptr × ℕ → Lock → Type 0
PriorityAsked w i xs out v =
    ((w.writer ≡ true) × ReadWaits w (i ∷ xs) out v)
    ⊎ ((w.writer ≡ false) × (xs ≡ []) × ReadGranted w i out v)
    ⊎ ((w.writer ≡ false) × (xs ≢ []) × ReadReleased w i xs out v)

length-suc : (xs : List Cell) → suc (length xs) ≡ 1 → xs ≡ []
length-suc [] e = refl
length-suc (x ∷ xs) e = absurd (omega arith)

Completed-unlocked :
    (w : Lock) (xs : List Cell) (out : Ptr × ℕ) (v : Lock)
    → Completed w xs out v
    → Completed (record w { spinner = 0 }) xs out (record v { spinner = 0 })
Completed-unlocked w xs out v c = record {
  stop = c.stop;
  released = c.released;
  count = c.count;
  readers_chain = c.readers_chain;
  head = c.head;
  waiting = c.waiting;
  tail = c.tail;
  reader_count = c.reader_count;
  writer = c.writer;
  spinner = refl;
  same = c.same;
}

module _ (k : ℕ) (w : Lock) (i : Cell) (rd : IsReader i) where
  module _ (x : Cell) (xs : List Cell) (inv : Inv w (x ∷ xs)) (o : Offered w (x ∷ xs) i)
      (f : w.writer ≡ false) (h : suc (length xs) < k) where
    lone_behind : behind (x ∷ xs) ≡ x ∷ xs
    lone_behind = ap (λ c. if c == request_read then behind xs else x ∷ xs) (inv.first f)

    shut_test : ((w.head == null) && not w.writer) ≡ false
    shut_test = ap (λ b. b && not w.writer) (head_there w x xs inv.queue)

    front_test :
        (v : Lock) → v.writer ≡ w.writer → ((i.class == request_read) && not v.writer) ≡ true
    front_test v e = ap (λ c. (c == request_read) && not v.writer) rd ∙ ap not (e ∙ f)

    inserted :
        Ends
          (λ _. Queued (prepared w (x ∷ xs) i inv o) (i ∷ x ∷ xs))
          (insert_queue_head i.ptr (prepared w (x ∷ xs) i inv o))
    inserted =
        insert_queue_head_lem (prepared w (x ∷ xs) i inv o) (x ∷ xs) i
          (prepared-IsQueue w (x ∷ xs) i inv o) (prepared-IsNew w (x ∷ xs) i inv o)

    -- The path that completes the request at once.
    barges : xs ≢ [] → Ends (ReadReleased w i (x ∷ xs)) (readlock_priority k i.ptr w)
    unfolding readlock_priority readlock_with unlock
    barges n =
        rw
          (
            clear w (x ∷ xs) i inv o,
            classify w (x ∷ xs) i inv o request_read rd,
            take w (x ∷ xs) i inv o,
            shut_test,
          )
          (Ends-bind inserted (λ _ v q.
            rw (load_head v i (x ∷ xs) q.queue, front_test v q.writer)
              (Ends-bind
                ((complete_rdlock-cases k v i (x ∷ xs) q.queue rd inv.requests h).0 (λ e.
                  n (length-suc xs (sym (ap (λ (ys : List Cell). length ys) lone_behind) ∙ e))))
                (λ out u c. ends (record {
                  queued = record v { spinner = 0 };
                  queue = record {
                    head = q.queue.head;
                    chain = q.queue.chain;
                    distinct = q.queue.distinct;
                    tail = q.queue.tail;
                  };
                  same_count = q.reader_count;
                  same_writer = q.writer;
                  completed = Completed-unlocked v (i ∷ x ∷ xs) out u c;
                })))))

    barges_fault : xs ≡ [] → readlock_priority k i.ptr w ≡ fault
    unfolding readlock_priority readlock_with unlock
    barges_fault e =
        rw
          (
            clear w (x ∷ xs) i inv o,
            classify w (x ∷ xs) i inv o request_read rd,
            take w (x ∷ xs) i inv o,
            shut_test,
          )
          (fault-bind _ inserted (λ _ v q. rw (
            load_head v i (x ∷ xs) q.queue,
            front_test v q.writer,
            (complete_rdlock-cases k v i (x ∷ xs) q.queue rd inv.requests h).1 (
                ap (λ (ys : List Cell). length ys) lone_behind
                ∙ ap (λ (ys : List Cell). suc (length ys)) e),
          )))

  held :
      (xs : List Cell)
      → Inv w xs
      → Offered w xs i
      → w.writer ≡ true
      → Ends (ReadWaits w (i ∷ xs)) (readlock_priority k i.ptr w)
  unfolding readlock_priority
  held xs inv o h =
      slow k w xs i inv o rd insert_queue_head i xs (λ v q n. insert_queue_head_lem v xs i q n)
        (held_test k w i rd h (w.head == null)) (held_test k w i rd h (i.class == request_read))
        (inl rd, inv.requests) (λ f. absurd (cc (h, f))) (inl h)

  more_than_one :
      (x : Cell) (xs : List Cell)
      → w.writer ≡ false
      → (w.writer ≡ true) ⊎ (length (x ∷ xs) ≢ 1)
      → xs ≢ []
  more_than_one x xs f (inl e) n = cc
  more_than_one x xs f (inr m) n = m (ap (λ (ys : List Cell). suc (length ys)) n)

  -- The two cases, as implications.
  pub readlock_priority-cases :
      (xs : List Cell)
      → Inv w xs
      → Offered w xs i
      → w.reader_count + 1 < 2 ^ 16
      → length xs < k
      → ((((w.writer ≡ true) ⊎ (length xs ≢ 1))
            → Ends (PriorityAsked w i xs) (readlock_priority k i.ptr w))
          × ((w.writer ≡ false) → (length xs ≡ 1) → readlock_priority k i.ptr w ≡ fault))
  unfolding readlock_priority
  readlock_priority-cases [] inv o room h = (
    λ _. elim (Bool-cases w.writer) [
      | inl e ↦ Ends-mono (held [] inv o e) (λ out v p. inl (e, p))
      | inr f ↦
          Ends-mono (fast k w i inv o rd f room insert_queue_head)
            (λ out v p. inr (inl (f, refl, p)))
    ],
    λ f e. absurd (omega arith),
  )
  readlock_priority-cases (x ∷ xs) inv o room h = (
    λ c. elim (Bool-cases w.writer) [
      | inl e ↦ Ends-mono (held (x ∷ xs) inv o e) (λ out v p. inl (e, p))
      | inr f ↦
          Ends-mono (barges x xs inv o f h (more_than_one x xs f c))
            (λ out v p. inr (inr (f, (λ e. cc), p)))
    ],
    λ f e. barges_fault x xs inv o f h (length-suc xs e),
  )

  -- On a lock that satisfies the invariant, with a request that is not queued, room for one more
  -- reader in the 16-bit count and more fuel than requests that wait: if no writer has the lock and
  -- exactly one request waits, `readlock_priority` reads through `NULL`. Otherwise it ends: it puts
  -- the request at the head of the queue if a writer has the lock, lets the reader in if no writer
  -- has it and nobody waits, and else releases the request with all readers of the queue.
  pub readlock_priority_lem :
      (xs : List Cell)
      → Inv w xs
      → Offered w xs i
      → w.reader_count + 1 < 2 ^ 16
      → length xs < k
      → (((w.writer ≡ true) ⊎ (length xs ≢ 1))
          × Ends (PriorityAsked w i xs) (readlock_priority k i.ptr w))
        ⊎ ((w.writer ≡ false) × (length xs ≡ 1) × (readlock_priority k i.ptr w ≡ fault))
  readlock_priority_lem xs inv o room h =
      let (good, bad) = readlock_priority-cases xs inv o room h in
      elim (Bool-cases w.writer) [
        | inl e ↦ inl (inl e, good (inl e))
        | inr f ↦ elim (on-equal (length xs) 1 ((λ n. good (inr n)), bad f)) [
          | inl (n, p) ↦ inl (inr n, p)
          | inr (e, p) ↦ inr (f, e, p)
        ]
      ]
