-- ===== src/Examples/QueuedRwLocks.antt =====
-- delete-me/queued_rw_lock.hpp: runs.
use akl.Base.{ℕ, ◌≡◌, ◌≢◌, ◌⊎◌, some, refl, arith, false, List, [], ◌∷◌, ◌++◌, zero, suc}
use akl.QueuedRwLock.{
  Action, calls_writelock, calls_readlock, goes, run, step, act, put, arrive, construct, aborted,
  reading, faulted, w_class,
}
use akl.QueuedRwLock.Invariant.{past}
use akl.QueuedRwLock.Order.{follows, run_in_line, run_never_faulted}

abbrev moves : ℕ → ℕ → List Action
moves zero i = []
moves (suc n) i = goes i ∷ moves n i

-- A thread writes; one that arrived later waits to read.
abbrev writes_first : List Action
writes_first = calls_writelock ∷ moves 6 0 ++ calls_readlock ∷ moves 4 1

run_in_line_example : past ((run 0 writes_first construct).requests 1).place ≡ false
unfolding run step act put arrive
run_in_line_example = run_in_line 0 writes_first 0 1 refl (omega arith) (omega arith) refl refl

-- The writer is about to read the class of the request behind it.
abbrev hands_over : List Action
hands_over = writes_first ++ moves 3 0

run_never_faulted_example :
    (((run 0 hands_over construct).requests 0).place ≢ faulted)
    × ((follows ((run 0 hands_over construct).requests 0).place ≡ false)
        ⊎ (((run 0 hands_over construct).requests 0).next ≡ some 1))
run_never_faulted_example = run_never_faulted 0 hands_over 0 refl

is_followed :
    (((run 0 hands_over construct).requests 0).place ≡ w_class)
    × (((run 0 hands_over construct).requests 0).next ≡ some 1)
unfolding run step act put arrive
is_followed = (refl, refl)

-- Readers 0, 1 and 2, then writer 3. Reader 0 stops between `reader_count.dec()` and the exchange of
-- `next_writer`, while 1 comes to read.
abbrev wakes_too_early : List Action
wakes_too_early =
    calls_readlock ∷ moves 7 0
    ++ calls_readlock ∷ moves 3 1
    ++ calls_readlock ∷ moves 6 2
    ++ calls_writelock ∷ moves 2 3
    ++ moves 6 2
    ++ moves 2 0
    ++ moves 2 3

still_reads : ((run 0 wakes_too_early construct).requests 1).place ≡ reading
unfolding run step act put arrive
still_reads = refl

is_woken : ((run 0 wakes_too_early construct).requests 3).place ≡ aborted
unfolding run step act put arrive
is_woken = refl
