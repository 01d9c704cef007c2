-- ===== src/Examples/Semaphores.antt =====
-- The semaphore: a thread waits, another one posts, and the first one goes on.
use akl.Base.{arith}
use akl.Semaphore.{Semaphore, construct, post, wait, wake, resume}
use akl.Semaphore.Tokens.{Run, start, waits_one, posts_one, wakes_one, Balanced, Run-Balanced}

abbrev served : Semaphore
served = wake (post (wait construct))

served-Run : Run 1 1 served
unfolding post wait resume
served-Run = wakes_one (posts_one (waits_one start)) (omega arith)

Run-Balanced_example : Balanced 1 1 served
Run-Balanced_example = Run-Balanced 1 1 served served-Run (omega arith) (omega arith)
