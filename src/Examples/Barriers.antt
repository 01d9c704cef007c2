-- ===== src/Examples/Barriers.antt =====
-- The barrier for two threads: both have come, and the first one is still to leave.
use akl.Base.{◌+◌, ◌≡◌, not, arith}
use akl.CancellableBarrier.{Barrier, construct, wait, resume, again}
use akl.CancellableBarrier.Rounds.{Run, start, enters, Round, Run-Round, again_lem}

abbrev both : Barrier
both = wait (wait (construct 2))

both-Run : Run 2 2 both
unfolding wait resume
both-Run = enters (enters start (omega arith)) (omega arith)

Run-Round_example : Round 2 2 both
Run-Round_example = Run-Round 2 2 both (omega arith) (omega arith) both-Run

again_lem_example :
    (again (not both.barrier_sense) both).waiting (not both.barrier_sense) + 1
    ≡ both.waiting (not both.barrier_sense)
unfolding wait resume
again_lem_example = again_lem 2 2 both (omega arith) (omega arith) both-Run (omega arith)
