-- ===== src/Examples/Mutexes.antt =====
-- The mutex over concrete functions of the kernel and of pthread.
use akl.Base.{ℕ, ◌≡◌, ◌≢◌, ◌⊎◌, inl, inr, refl, arith, ◌==◌, if◌then◌else◌, ==_of_ne}
use akl.Machine.External.{user_space}
use akl.Pthread.{Memory, Operation, StaysIn, MutexFunctions, Mutexes}
use akl.Pthread.Mutex.{construct, destruct, lock, unlock, try_lock}
use akl.Pthread.Untouched.{left, mutex-Untouched}

-- A mutex is locked when its first byte is 1. The result is the byte before.
abbrev put : ℕ → Operation
put v a m = (m a, λ x. if x == a then v else m x)

put-StaysIn : (v : ℕ) → StaysIn 40 (put v)
put-StaysIn v a m x h =
    let n : x ≢ a = elim h [ inl lt ↦ omega arith | inr le ↦ omega arith ] in
    rw (==_of_ne x a n) refl

abbrev functions : MutexFunctions
functions = record {
  size = 40;
  init = put 0;
  destroy = put 0;
  lock = put 1;
  unlock = put 0;
  trylock = put 1;
  init-StaysIn = put-StaysIn 0;
  destroy-StaysIn = put-StaysIn 0;
  lock-StaysIn = put-StaysIn 1;
  unlock-StaysIn = put-StaysIn 0;
  trylock-StaysIn = put-StaysIn 1;
}

abbrev mutexes : Mutexes
mutexes = record { build = user_space; kernel = functions; pthread = functions }

abbrev zeros : Memory
zeros _ = 0

-- The mutex is at 5000, the parameter at 1000.
mutex-Untouched_example :
    (left (lock mutexes 1000 5000 zeros) 5000 ≡ zeros 5000)
    × (left (unlock mutexes 1000 5000 zeros) 5000 ≡ zeros 5000)
    × (left (try_lock mutexes 1000 5000 zeros) 5000 ≡ zeros 5000)
    × (left (destruct mutexes 1000 5000 zeros) 5000 ≡ zeros 5000)
    × ((user_space ≡ user_space) ⊎ (left (construct mutexes 1000 5000 zeros) 5000 ≡ zeros 5000))
mutex-Untouched_example =
    mutex-Untouched mutexes 1000 5000 5000 zeros (inr (omega arith, omega arith))
      (inr (omega arith, omega arith))
