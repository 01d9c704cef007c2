-- ===== src/DeferredRwlock/Read.antt =====
-- `readlock`, and what `readlock_priority` shares with it.
use akl.Base.{
  ℕ, ◌+◌, ◌<◌, ◌^◌, ◌≡◌, ◌≢◌, ◌⊎◌, inl, inr, refl, sym, ◌∙◌, ap, Bool, true, false, not, ◌&&◌, List,
  [], ◌∷◌, ◌++◌, arith, ◌==◌, Bool-cases,
}
use akl.DeferredRwlock.Memory.{Ptr, null, request_read, Lock, Cmd, unlock}
use akl.DeferredRwlock.Queue.{Cell, All, IsReader, IsWriter}
use akl.DeferredRwlock.Steps.{Ends, ends, Ends-mono, Ends-bind}
use akl.DeferredRwlock.Spec.{IsQueue}
use akl.DeferredRwlock.Prefix.{Stops}
use akl.DeferredRwlock.Completion.{IsRequest}
use akl.DeferredRwlock.Enqueue.{IsNew, Queued, insert_queue_lem}
use akl.DeferredRwlock.Invariant.{
  Inv, Offered, clear, classify, take, prepared, prepared-IsQueue, prepared-IsNew,
}
use akl.DeferredRwlock.Grant.{load_head, head_there}
use akl.DeferredRwlock.Ops.{u16, readlock_with, readlock, insert_queue}

-- The request waits in the queue `ys`.
abbrev pub ReadWaits : Lock → List Cell → Ptr × ℕ → Lock → Type 0
ReadWaits w ys out v =
    (out ≡ (null, 0)) × (v.writer ≡ w.writer) × (v.reader_count ≡ w.reader_count) × Inv v ys

-- The caller is one reader more.
abbrev pub ReadGranted : Lock → Cell → Ptr × ℕ → Lock → Type 0
ReadGranted w i out v =
    (out ≡ (i.ptr, 1)) × (v.writer ≡ false) × (v.reader_count ≡ w.reader_count + 1) × Inv v []

queued-Inv :
    (w v : Lock) (y : Cell) (ys : List Cell)
    → IsQueue v (y ∷ ys)
    → v.writer ≡ w.writer
    → v.reader_count ≡ w.reader_count
    → {xs : List Cell} → Inv w xs
    → All IsRequest (y ∷ ys)
    → (w.writer ≡ false → Stops (y ∷ ys))
    → (w.writer ≡ true) ⊎ (0 < w.reader_count)
    → Inv (record v { spinner = 0 }) (y ∷ ys)
queued-Inv w v y ys q e f inv a first busy = record {
  queue = record { head = q.head; chain = q.chain; distinct = q.distinct; tail = q.tail };
  requests = a;
  excl = λ h. f ∙ inv.excl (sym e ∙ h);
  first = λ h. first (sym e ∙ h);
  busy = λ _. ground arith;
  count_lt = omega (arith, inv.count_lt);
  free = refl;
}

module _ (k : ℕ) (w : Lock) (xs : List Cell) (i : Cell) (inv : Inv w xs) (o : Offered w xs i)
    (rd : IsReader i) where
  -- The slow path as far as the test after the insertion, which does not pass.
  pub slow :
      (insert : Ptr → Cmd (Unit {0})) (y : Cell) (ys : List Cell)
      → ((v : Lock) → IsQueue v xs → IsNew v xs i → Ends (λ _. Queued v (y ∷ ys)) (insert i.ptr v))
      → ((w.head == null) && not w.writer) ≡ false
      → ((y.class == request_read) && not w.writer) ≡ false
      → All IsRequest (y ∷ ys)
      → (w.writer ≡ false → Stops (y ∷ ys))
      → (w.writer ≡ true) ⊎ (0 < w.reader_count)
      → Ends (ReadWaits w (y ∷ ys)) (readlock_with insert k i.ptr w)
  unfolding readlock_with unlock
  slow insert y ys ins wait test a first busy =
      rw (clear w xs i inv o, classify w xs i inv o request_read rd, take w xs i inv o, wait)
        (Ends-bind
          (ins (prepared w xs i inv o) (prepared-IsQueue w xs i inv o)
            (prepared-IsNew w xs i inv o))
          (λ _ v q.
            rw
              (
                load_head v y ys q.queue,
                ap (λ b. (y.class == request_read) && not b) q.writer ∙ test,
              )
              (ends (
                refl,
                q.writer,
                q.reader_count,
                queued-Inv w v y ys q.queue q.writer q.reader_count inv a first busy,
              ))))

-- What `readlock` does with a request, the queue being `xs`.
abbrev pub ReadAsked : Lock → Cell → List Cell → Ptr × ℕ → Lock → Type 0
ReadAsked w i xs out v =
    ((w.writer ≡ false) × (xs ≡ []) × ReadGranted w i out v)
    ⊎ (((w.writer ≡ true) ⊎ (xs ≢ [])) × ReadWaits w (xs ++ i ∷ []) out v)

-- The fast path.
module _ (k : ℕ) (w : Lock) (i : Cell) (inv : Inv w []) (o : Offered w [] i) (rd : IsReader i)
    (f : w.writer ≡ false) (room : w.reader_count + 1 < 2 ^ 16) where
  free_test : ((w.head == null) && not w.writer) ≡ true
  free_test = ap (λ p. (p == null) && not w.writer) inv.queue.head ∙ ap not f

  one_more :
      Inv
        (record (prepared w [] i inv o) { reader_count = u16 (w.reader_count + 1); spinner = 0 })
        []
  one_more = record {
    queue = record { head = inv.queue.head; chain = tt; distinct = tt; tail = inv.queue.tail };
    requests = tt;
    excl = λ e. absurd (cc (e, f));
    first = λ _. tt;
    busy = λ n. absurd (n refl);
    count_lt = omega arith;
    free = refl;
  }

  pub fast :
      (insert : Ptr → Cmd (Unit {0})) → Ends (ReadGranted w i) (readlock_with insert k i.ptr w)
  unfolding readlock_with unlock
  fast insert =
      rw (clear w [] i inv o, classify w [] i inv o request_read rd, take w [] i inv o, free_test)
        (ends (refl, f, omega arith, one_more))

module _ (k : ℕ) (w : Lock) (i : Cell) (rd : IsReader i) where
  pub held_test : w.writer ≡ true → (b : Bool) → (b && not w.writer) ≡ false
  held_test h b = ground arith

  first_test :
      (x : Cell)
      → (w.writer ≡ false → IsWriter x)
      → ((x.class == request_read) && not w.writer) ≡ false
  first_test x first = elim (Bool-cases w.writer) [
    | inl h ↦ held_test h (x.class == request_read)
    | inr f ↦ ap (λ c. (c == request_read) && not w.writer) (first f)
  ]

  All-snoc_reader : (xs : List Cell) → All IsRequest xs → All IsRequest (xs ++ i ∷ [])
  All-snoc_reader [] a = (inl rd, tt)
  All-snoc_reader (x ∷ xs) a = (a.0, All-snoc_reader xs a.1)

  -- On a lock that satisfies the invariant, with a request that is not queued and room for one more
  -- reader in the 16-bit count, `readlock` ends without a fault: it lets the reader in if no writer
  -- has the lock and nobody waits, and else puts the request at the end of the queue. The invariant
  -- is kept.
  pub readlock_lem :
      (xs : List Cell)
      → Inv w xs
      → Offered w xs i
      → w.reader_count + 1 < 2 ^ 16
      → Ends (ReadAsked w i xs) (readlock k i.ptr w)
  unfolding readlock
  readlock_lem [] inv o room = elim (Bool-cases w.writer) [
    | inl h ↦
        Ends-mono
          (slow k w [] i inv o rd insert_queue i [] (λ v q n. insert_queue_lem v [] i q n)
            (held_test h (w.head == null)) (held_test h (i.class == request_read)) (inl rd, tt)
            (λ f. absurd (cc (h, f))) (inl h))
          (λ out v p. inr (inl h, p))
    | inr f ↦ Ends-mono (fast k w i inv o rd f room insert_queue) (λ out v p. inl (f, refl, p))
  ]
  readlock_lem (x ∷ xs) inv o room =
      Ends-mono
        (slow k w (x ∷ xs) i inv o rd insert_queue x (xs ++ i ∷ [])
          (λ v q n. insert_queue_lem v (x ∷ xs) i q n)
          (ap (λ b. b && not w.writer) (head_there w x xs inv.queue)) (first_test x inv.first)
          (All-snoc_reader (x ∷ xs) inv.requests) inv.first (inv.busy (λ e. cc)))
        (λ out v p. inr (inr (λ e. cc), p))
