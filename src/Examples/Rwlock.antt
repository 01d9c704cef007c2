-- ===== src/Examples/Rwlock.antt =====
-- The deferred lock: a queue of four requests, and the theorems at locks that hold it or a part.
use akl.Base.{
  ℕ, ◌≡◌, ◌≢◌, ◌⊎◌, inl, inr, refl, true, false, none, List, [], ◌∷◌, ◌++◌, arith, length,
}
use akl.DeferredRwlock.Memory.{
  Ptr, request, Heap, write, Lock, Run, ok, fault, load, set_next, lock, unlock, and_then,
}
use akl.DeferredRwlock.Queue.{Cell}
use akl.DeferredRwlock.Ops.{
  insert_queue, complete_rdlock, prefix_loop, split_loop, release_reader, hand_over, check_second,
  wrunlock, rdunlock, readlock, readlock_priority, writelock, writelock_priority,
}
use akl.DeferredRwlock.Steps.{Ends}
use akl.DeferredRwlock.Spec.{IsQueue, Completed}
use akl.DeferredRwlock.Completion.{behind, complete_rdlock_lem}
use akl.DeferredRwlock.Invariant.{Inv, Offered}
use akl.DeferredRwlock.Write.{WriteAsked, writelock_lem, writelock_priority_lem}
use akl.DeferredRwlock.ReadPriority.{readlock_priority_lem, PriorityAsked}
use akl.DeferredRwlock.RdUnlock.{rdunlock_lem, ReadLeft}
use akl.DeferredRwlock.Read.{readlock_lem, ReadAsked}
use akl.DeferredRwlock.Unlock.{Handed, wrunlock_lem, wrunlock-readers}
use akl.DeferredRwlock.Waiters.{ReadersIn, wrunlock-Inv, wrunlock-Lost, Lost}

abbrev cell : ℕ → ℕ → Cell
cell p c = record { ptr = p; class = c; id = p }

-- Requests 1 and 3 are readers, 2 and 4 writers.
abbrev r1 : Cell
r1 = cell 1 0

abbrev w2 : Cell
w2 = cell 2 1

abbrev r3 : Cell
r3 = cell 3 0

abbrev w4 : Cell
w4 = cell 4 1

abbrev no_requests : Heap
no_requests _ = none

-- The store with 1, 2, 3 and 4 in this order, and with 5, which is offered.
abbrev store : Heap
store =
    write
      (write
        (write (write (write no_requests 5 (request 2 5 9)) 4 (request 1 4 0)) 3 (request 0 3 4)) 2
        (request 1 2 3))
      1 (request 0 1 2)

-- A writer has the lock, and all four wait.
abbrev full : Lock
full = record { heap = store; head = 1; tail = 4; reader_count = 0; writer = true; spinner = 0 }

abbrev queue : List Cell
queue = r1 ∷ w2 ∷ r3 ∷ w4 ∷ []

full-IsQueue : IsQueue full queue
full-IsQueue = record {
  head = refl;
  chain = (refl, (refl, (refl, (refl, tt))));
  distinct = (omega arith, refl, (omega arith, refl, (omega arith, refl, (omega arith, refl, tt))));
  tail = refl;
}

full-Inv : Inv full queue
full-Inv = record {
  queue = full-IsQueue;
  requests = (inl refl, (inr refl, (inl refl, (inr refl, tt))));
  excl = λ _. refl;
  first = λ e. cc;
  busy = λ _. inl refl;
  count_lt = omega arith;
  free = refl;
}

-- The heap of `full` without request 1 in the queue.
abbrev reading : Lock
reading = record full { head = 2; reader_count = 3; writer = false }

reading-Inv : Inv reading (w2 ∷ r3 ∷ w4 ∷ [])
reading-Inv = record {
  queue = record {
    head = refl;
    chain = full-IsQueue.chain.1;
    distinct = full-IsQueue.distinct.2;
    tail = refl;
  };
  requests = full-Inv.requests.1;
  excl = λ e. cc;
  first = λ _. refl;
  busy = λ _. inr (omega arith);
  count_lt = omega arith;
  free = refl;
}

Offered-write : Offered full queue (cell 5 1)
Offered-write = record { there = omega arith; out = refl; class = 2; next = 9; holds = refl }

Offered-reading : Offered reading (w2 ∷ r3 ∷ w4 ∷ []) (cell 5 0)
Offered-reading = record { there = omega arith; out = refl; class = 2; next = 9; holds = refl }

-- `complete_rdlock` releases 1 and 3, counts them, and leaves 2 and 4.
abbrev outcome : Run (Ptr × ℕ) → List ℕ
outcome (ok out w) = out.0 ∷ out.1 ∷ w.head ∷ w.tail ∷ w.reader_count ∷ []
outcome _ = []

complete_rdlock_run : outcome (complete_rdlock 9 full) ≡ 1 ∷ 2 ∷ 2 ∷ 4 ∷ 2 ∷ []
unfolding complete_rdlock load prefix_loop split_loop release_reader set_next
complete_rdlock_run = refl

wrunlock_run : outcome (wrunlock 9 full) ≡ 1 ∷ 2 ∷ 2 ∷ 4 ∷ 2 ∷ []
unfolding wrunlock lock unlock hand_over check_second complete_rdlock load prefix_loop split_loop
    release_reader set_next
wrunlock_run = refl

complete_rdlock_lem_example :
    ((length (behind (w2 ∷ r3 ∷ w4 ∷ [])) ≢ 1)
      × Ends (Completed full queue) (complete_rdlock 9 full))
    ⊎ ((length (behind (w2 ∷ r3 ∷ w4 ∷ [])) ≡ 1) × (complete_rdlock 9 full ≡ fault))
complete_rdlock_lem_example =
    complete_rdlock_lem 9 full r1 (w2 ∷ r3 ∷ w4 ∷ []) full-IsQueue refl full-Inv.requests.1
      (omega arith)

wrunlock-readers_example :
    ((length (behind (w2 ∷ r3 ∷ w4 ∷ [])) ≢ 1)
      × Ends (Completed (record full { writer = false }) queue) (wrunlock 9 full))
    ⊎ ((length (behind (w2 ∷ r3 ∷ w4 ∷ [])) ≡ 1) × (wrunlock 9 full ≡ fault))
wrunlock-readers_example =
    wrunlock-readers 9 full r1 (w2 ∷ r3 ∷ w4 ∷ []) full-Inv refl (omega arith)

wrunlock-Inv_example : Ends (ReadersIn queue) (wrunlock 9 full)
wrunlock-Inv_example =
    wrunlock-Inv 9 full r1 (w2 ∷ r3 ∷ w4 ∷ []) full-Inv refl refl (omega arith) (omega arith)
      (inr refl) (omega arith)

writelock_lem_example : Ends (WriteAsked full queue (queue ++ cell 5 1 ∷ [])) (writelock 5 full)
writelock_lem_example = writelock_lem full queue (cell 5 1) full-Inv Offered-write refl

writelock_priority_lem_example :
    Ends (WriteAsked full queue (cell 5 1 ∷ queue)) (writelock_priority 5 full)
writelock_priority_lem_example =
    writelock_priority_lem full queue (cell 5 1) full-Inv Offered-write refl

readlock_lem_example :
    Ends (ReadAsked reading (cell 5 0) (w2 ∷ r3 ∷ w4 ∷ [])) (readlock 9 5 reading)
readlock_lem_example =
    readlock_lem 9 reading (cell 5 0) refl (w2 ∷ r3 ∷ w4 ∷ []) reading-Inv Offered-reading
      (omega arith)

readlock_priority_lem_example :
    (((reading.writer ≡ true) ⊎ (length (w2 ∷ r3 ∷ w4 ∷ []) ≢ 1))
      × Ends (PriorityAsked reading (cell 5 0) (w2 ∷ r3 ∷ w4 ∷ [])) (readlock_priority 9 5 reading))
    ⊎ ((reading.writer ≡ false)
        × (length (w2 ∷ r3 ∷ w4 ∷ []) ≡ 1)
        × (readlock_priority 9 5 reading ≡ fault))
readlock_priority_lem_example =
    readlock_priority_lem 9 reading (cell 5 0) refl (w2 ∷ r3 ∷ w4 ∷ []) reading-Inv Offered-reading
      (omega arith) (omega arith)

rdunlock_lem_example : Ends (ReadLeft reading (w2 ∷ r3 ∷ w4 ∷ [])) (rdunlock 9 reading)
rdunlock_lem_example = rdunlock_lem 9 reading (w2 ∷ r3 ∷ w4 ∷ []) reading-Inv refl (omega arith)

-- A writer has the lock, and a writer is first in the queue.
abbrev writing : Lock
writing = record full { head = 2 }

writing-Inv : Inv writing (w2 ∷ r3 ∷ w4 ∷ [])
writing-Inv = record {
  queue = record {
    head = refl;
    chain = full-IsQueue.chain.1;
    distinct = full-IsQueue.distinct.2;
    tail = refl;
  };
  requests = full-Inv.requests.1;
  excl = λ _. refl;
  first = λ _. refl;
  busy = λ _. inl refl;
  count_lt = omega arith;
  free = refl;
}

wrunlock_lem_example : Ends (Handed (w2 ∷ r3 ∷ w4 ∷ [])) (wrunlock 9 writing)
wrunlock_lem_example = wrunlock_lem 9 writing (w2 ∷ r3 ∷ w4 ∷ []) writing-Inv refl refl

-- The queue 1, 2, 3 ends with a reader.
abbrev ends_read : Lock
ends_read = record full { heap = write store 3 (request 0 3 0); tail = 3 }

ends_read-Inv : Inv ends_read (r1 ∷ w2 ∷ r3 ∷ [])
ends_read-Inv = record {
  queue = record {
    head = refl;
    chain = (refl, (refl, (refl, tt)));
    distinct = (omega arith, refl, (omega arith, refl, (omega arith, refl, tt)));
    tail = refl;
  };
  requests = (inl refl, (inr refl, (inl refl, tt)));
  excl = λ _. refl;
  first = λ e. cc;
  busy = λ _. inl refl;
  count_lt = omega arith;
  free = refl;
}

wrunlock-Lost_example :
    Ends (λ _. Lost (w2 ∷ []) (cell 5 1)) (and_then (wrunlock 9 ends_read) (λ _. insert_queue 5))
wrunlock-Lost_example =
    wrunlock-Lost 9 ends_read r1 (w2 ∷ r3 ∷ []) (cell 5 1) ends_read-Inv refl (omega arith)
      (omega arith) refl (λ e. cc) refl
