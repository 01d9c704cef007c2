-- ===== src/Examples/PoolSizes.antt =====
-- delete-me/thread_pool.hpp: a pool that is resized, gets its affinity and is destroyed.
use akl.Base.{
  ℕ, ◌+◌, ◌≡◌, refl, ap, suc, Option, none, some, List, [], ◌∷◌, Bool, true, false, length, arith,
}
use akl.ThreadGroup.{Entry}
use akl.ThreadGroup.Retries.{messages, threads_of}
use akl.ThreadPool.Control.{Control, Blocking, initial, destroy_all_threads}
use akl.ThreadPool.Ends.{ended}
use akl.ThreadPool.Restarting.{Staffed, refilled}
use akl.ThreadPool.Resizing.{Ends, Request, resizes, sets_affinity}
use akl.ThreadPool.Destroying.{destroyed, destroy_all_threads_lem}

-- Whether the queue blocks.
abbrev stop : Bool → Bool
stop _ = false

abbrev start : Bool → Bool
start _ = true

abbrev blocking : Blocking Bool
blocking = record {
  stop_blocking = stop;
  start_blocking = start;
  is_alive = λ q. q;
  is_alive-stop_blocking = λ _. refl;
  is_alive-start_blocking = λ _. refl;
}

-- Every thread throws.
abbrev throws : List (ℕ × Option ℕ) → List Entry
throws [] = []
throws ((id, _) ∷ workers) = record { thread = id + 50; message = some id } ∷ throws workers

length-throws : (ws : List (ℕ × Option ℕ)) → length (throws ws) ≡ length ws
length-throws [] = refl
length-throws (w ∷ ws) = ap suc (length-throws ws)

abbrev all_throw : Ends
all_throw = record { entries = throws; all = length-throws }

abbrev requests : List Request
requests = resizes 3 all_throw ∷ sets_affinity true all_throw ∷ resizes 3 all_throw ∷ []

abbrev ncpus : ℕ
ncpus = 2

abbrev Ready : Control Bool → Type 0
Ready d = Staffed 2 d × (d.pool_size ≡ 3) × (d.cpu_affinity ≡ true) × (d.spawn_queue ≡ true)

-- Two threads, the second of which ends first.
abbrev pool : Control Bool
pool = refilled 2 (initial 2 true true)

abbrev entries : List Entry
entries = record { thread = 51; message = none } ∷ record { thread = 50; message = none } ∷ []

pool-Staffed : Staffed 2 pool
pool-Staffed = record { few = omega arith; group = refl; workers = refl }

destroy_all_threads_lem_example :
    destroy_all_threads 2 stop start 3 entries pool
    ≡ destroyed
        (messages entries)
        (ended (threads_of entries) (record pool { spawn_queue = false }))
destroy_all_threads_lem_example =
    destroy_all_threads_lem 2 stop start 3 entries pool pool-Staffed refl (omega arith)
