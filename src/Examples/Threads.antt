-- ===== src/Examples/Threads.antt =====
-- A pthread library that counts its threads, and three threads, the second of which throws its id.
use akl.Base.{
  ℕ, ◌+◌, ◌≡◌, ◌≢◌, refl, true, Option, none, some, List, [], ◌∷◌, ◌==◌, if◌then◌else◌, ltb, arith,
}
use akl.Thread.{thread_id, get_local, contains, cpu_count, Pthreads, get_tls_data, ended, raised}
use akl.Thread.Local.{Command, sets_thread_id, sets, erases, run, local_lem}
use akl.Thread.Joining.{Job, Works, launch_and_join, launch_and_join_lem}

-- The next thread, and the return values.
record Table : Type 0 where
  next : ℕ
  values : ℕ → Option (Option ℕ)

abbrev value_of : ℕ → Table → Option (Option ℕ)
value_of q w = if ltb q w.next then w.values q else none

abbrev created : Option ℕ → Table → Table
created retval w = record {
  next = w.next + 1;
  values = λ q. if q == w.next then some retval else w.values q;
}

abbrev fetched : ℕ → Option (Option ℕ) → Table → ℕ × Option ℕ × Table
fetched p none w = (3, none, w)
fetched p (some retval) w =
    (0, retval, record w { values = λ q. if q == p then none else w.values q })

created-value_of :
    (retval : Option ℕ) (w : Table)
    → (value_of w.next w ≡ none) × (value_of w.next (created retval w) ≡ some retval)
created-value_of retval w = ground arith

created_others :
    (retval : Option ℕ) (w : Table) (q : ℕ)
    → q ≢ w.next
    → value_of q (created retval w) ≡ value_of q w
created_others retval w q ne = ground arith

fetched-value_of :
    (p : ℕ) (w : Table) (retval : Option ℕ)
    → value_of p w ≡ some retval
    → ((fetched p (value_of p w) w).0 ≡ 0) × ((fetched p (value_of p w) w).1 ≡ retval)
fetched-value_of p w retval e = rw e (refl, refl)

fetched_others :
    (p q : ℕ) (w : Table) (v : Option (Option ℕ))
    → q ≢ p
    → value_of q (fetched p v w).2 ≡ value_of q w
fetched_others p q w none ne = refl
fetched_others p q w (some retval) ne = ground arith

abbrev counting : Pthreads Table
counting = record {
  attr_init = λ _. 0;
  attr_setstacksize = λ _ _. 0;
  attr_setdetachstate = λ _. 0;
  attr_destroy = λ _. 0;
  create = λ cpu retval w. (0, w.next, created retval w);
  join = λ p w. fetched p (value_of p w) w;
  result = value_of;
  create-result = λ cpu retval w _. created-value_of retval w;
  create-others = λ cpu retval w q ne. created_others retval w q ne;
  join-result = fetched-value_of;
  join-others = λ p q w ne. fetched_others p q w (value_of p w) ne;
}

abbrev no_thread : Table
no_thread = record { next = 1; values = λ _. none }

counting-Works : Works counting
counting-Works = record {
  init = λ _. refl;
  stack = λ _ _. refl;
  detach = λ _. refl;
  destroy = λ _. refl;
  create = λ _ _ _. refl;
}

-- The second one on a cpu.
abbrev three_threads : List (Job ℕ)
three_threads =
    record { id = 0; cpu_id = none; spawn_routine = λ _. ended }
    ∷ record { id = 1; cpu_id = some 9; spawn_routine = λ tsd. raised (thread_id tsd).0 }
    ∷ record { id = 2; cpu_id = none; spawn_routine = λ _. ended }
    ∷ []

launch_and_join_lem_example :
    launch_and_join counting 8 1024 three_threads no_thread [] ≡ some (none ∷ some 1 ∷ none ∷ [])
unfolding thread_id get_tls_data
launch_and_join_lem_example =
    launch_and_join_lem counting 8 1024 three_threads no_thread counting-Works

abbrev commands : List (Command ℕ)
commands = erases 4 ∷ sets 4 70 ∷ sets 3 60 ∷ sets_thread_id 5 ∷ []

local_lem_example :
    ((thread_id (run 9 commands)).0 ≡ 5)
    × ((contains 3 (run 9 commands)).0 ≡ true)
    × ((get_local 9 3 (run 9 commands)).0 ≡ 60)
local_lem_example = local_lem 9 3 commands

-- A negative number of threads in the environment counts as two.
cpu_count_negative : cpu_count (some 4294967295) 8 ≡ 2
unfolding cpu_count
cpu_count_negative = refl
