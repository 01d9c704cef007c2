-- ===== src/DeferredRwlock/Ops.antt =====
-- delete-me/deferred_rwlock.hpp: the methods. `fuel` bounds the rounds of the loops in
-- `complete_rdlock`. `released` is returned beside the result of a method that has it as an output.
-- The counts of completed readers count requests in memory, so a `size_t` does not overflow;
-- `reader_count` is 16 bits wide and wraps.
use akl.Base.{ℕ, zero, suc, ◌+◌, ◌%◌, ◌^◌, Bool, true, false, not, ◌&&◌, ◌==◌, if◌then◌else◌}
use akl.DeferredRwlock.Memory.{
  Ptr, null, request_read, request_write, Lock, Cmd, out_of_fuel, aborted, pure, ◌>>=◌, ◌>>◌, self,
  modify, load, set_next, set_lockclass, lock, unlock,
}

abbrev pub u16 : ℕ → ℕ
u16 n = n % 2 ^ 16

-- The constructor, among requests that the callers have made.
abbrev pub init : Lock → Lock
init w = record w { head = null; tail = null; reader_count = 0; writer = false; spinner = 0 }

unfoldable pub get_reader_count : Cmd ℕ
get_reader_count = do w ← self; pure w.reader_count

unfoldable pub has_waiters : Cmd Bool
has_waiters = do w ← self; pure (if w.head == null then not (w.tail == null) else true)

unfoldable pub insert_queue : Ptr → Cmd (Unit {0})
insert_queue i = do
  w ← self
  if w.head == null
      then modify (λ w. record w { head = i; tail = i })
      else do set_next w.tail i; modify (λ w. record w { tail = i })

unfoldable pub insert_queue_head : Ptr → Cmd (Unit {0})
insert_queue_head i = do
  w ← self
  if w.head == null
      then modify (λ w. record w { head = i; tail = i })
      else do set_next i w.head; modify (λ w. record w { head = i })

-- The two methods that ask for the write lock differ in where they queue.
unfoldable pub writelock_with : (Ptr → Cmd (Unit {0})) → Ptr → Cmd Bool
writelock_with insert i = do
  set_next i null
  set_lockclass i request_write
  lock
  w ← self
  if (w.reader_count == 0) && not w.writer
      then (do modify (λ w. record w { writer = true }); unlock; pure true)
      else do insert i; unlock; pure false

unfoldable pub writelock_priority : Ptr → Cmd Bool
unfolding writelock_with
writelock_priority i = writelock_with insert_queue_head i

unfoldable pub writelock : Ptr → Cmd Bool
unfolding writelock_with
writelock i = writelock_with insert_queue i

unfoldable pub complete_wrlock : Cmd (Unit {0})
complete_wrlock = do
  w ← self
  r ← load w.head
  modify (λ w. record w { head = r.next })
  modify (λ w. if w.head == null then record w { tail = null } else w)
  modify (λ w. record w { writer = true })

-- The first loop of `complete_rdlock`: over the readers at the head. It returns `readertail` and
-- `numcompleted`.
unfoldable pub prefix_loop : ℕ → Ptr → ℕ → Cmd (Ptr × ℕ)
prefix_loop zero readertail numcompleted = λ _. out_of_fuel
prefix_loop (suc fuel) readertail numcompleted = do
  w ← self
  if w.head == null then pure (readertail, numcompleted) else do
    r ← load w.head
    if r.lockclass == request_read
        then (do
          modify (λ w. record w { head = r.next })
          prefix_loop fuel w.head (numcompleted + 1))
        else pure (readertail, numcompleted)

-- The body of its second loop, for a request that is no writer.
unfoldable pub release_reader : (latestwriter cur readertail : Ptr) → Cmd (Unit {0})
release_reader latestwriter cur readertail = do
  set_next readertail cur
  modify (λ w. record w { reader_count = u16 (w.reader_count + 1) })
  r ← load cur
  set_next latestwriter r.next

-- The second loop: it unlinks the readers among the writers and links them behind `readertail`. It
-- returns `numcompleted`.
unfoldable pub split_loop : ℕ → (latestwriter cur readertail : Ptr) → ℕ → Cmd ℕ
split_loop zero latestwriter cur readertail numcompleted = λ _. out_of_fuel
split_loop (suc fuel) latestwriter cur readertail numcompleted = do
  r ← load cur
  if r.lockclass == request_write
      then (do
        w ← self
        if cur == w.tail
            then pure numcompleted
            else split_loop fuel cur r.next readertail numcompleted)
      else do
        release_reader latestwriter cur readertail
        w ← self
        r' ← load cur
        if cur == w.tail
            then pure (numcompleted + 1)
            else split_loop fuel latestwriter r'.next cur (numcompleted + 1)

-- The first result is `released`, the second the number of requests to follow from there.
unfoldable pub complete_rdlock : ℕ → Cmd (Ptr × ℕ)
complete_rdlock fuel = do
  w ← self
  r ← load w.head
  modify (λ w. record w { head = r.next })
  (readertail, numcompleted) ← prefix_loop fuel w.head 1
  modify (λ w. record w { reader_count = u16 (w.reader_count + numcompleted) })
  modify (λ w. if w.head == null then record w { tail = null } else w)
  v ← self
  if v.head == null then pure (w.head, numcompleted) else do
    first ← load v.head
    n ← split_loop fuel v.head first.next readertail numcompleted
    pure (w.head, n)

-- What `wrunlock` and `rdunlock` do when the lock has become free. `check` looks at what
-- `complete_rdlock` released.
unfoldable pub hand_over : (Ptr → ℕ → Cmd (Unit {0})) → ℕ → Cmd (Ptr × ℕ)
hand_over check fuel = do
  w ← self
  if w.head == null then pure (null, 0) else do
    r ← load w.head
    if r.lockclass == request_read
        then (do (released, ret) ← complete_rdlock fuel; check released ret; pure (released, ret))
        else do modify (λ w. record w { writer = true }); complete_wrlock; pure (w.head, 1)

-- `if (ret == 2) assert(released->next != NULL)`
unfoldable pub check_second : Ptr → ℕ → Cmd (Unit {0})
check_second released ret =
    if ret == 2
    then (do r ← load released; if r.next == null then (λ _. aborted) else pure tt)
    else pure tt

unfoldable pub wrunlock : ℕ → Cmd (Ptr × ℕ)
wrunlock fuel = do
  lock
  modify (λ w. record w { writer = false })
  out ← hand_over check_second fuel
  unlock
  pure out

unfoldable pub rdunlock : ℕ → Cmd (Ptr × ℕ)
rdunlock fuel = do
  lock
  modify (λ w. record w { reader_count = u16 (w.reader_count + 65535) })
  w ← self
  if w.reader_count == 0
      then (do out ← hand_over (λ _ _. pure tt) fuel; unlock; pure out)
      else do unlock; pure (null, 0)

-- The two methods that ask for the read lock differ in where they queue.
unfoldable pub readlock_with : (Ptr → Cmd (Unit {0})) → ℕ → Ptr → Cmd (Ptr × ℕ)
readlock_with insert fuel i = do
  set_next i null
  set_lockclass i request_read
  lock
  w ← self
  if (w.head == null) && not w.writer
      then (do
        modify (λ w. record w { reader_count = u16 (w.reader_count + 1) })
        unlock
        pure (i, 1))
      else do
        insert i
        v ← self
        r ← load v.head
        if (r.lockclass == request_read) && not v.writer
            then (do out ← complete_rdlock fuel; unlock; pure out)
            else do unlock; pure (null, 0)

unfoldable pub readlock : ℕ → Ptr → Cmd (Ptr × ℕ)
unfolding readlock_with
readlock fuel i = readlock_with insert_queue fuel i

unfoldable pub readlock_priority : ℕ → Ptr → Cmd (Ptr × ℕ)
unfolding readlock_with
readlock_priority fuel i = readlock_with insert_queue_head fuel i
