-- ===== src/Thread.antt =====
-- delete-me/thread.hpp: a thread object, which launches a thread of the system and joins it, and the data
-- that belongs to the calling thread. The functions of pthread are parameters; a thread of theirs has
-- a return value, which is a message, or none for NULL. A routine is how it ends, given its thread's
-- data: a new thread has none, so `create_tls_data` finds none. The output
-- before `exit`, the callback of `thread_destroy_callback` and `delete` are not modelled.
pub mod Local
pub mod Joining
use akl.Base.{
  ℕ, ◌+◌, ◌-◌, ◌*◌, ◌%◌, ◌^◌, ◌≤◌, ◌<◌, ◌≡◌, ◌≢◌, Bool, true, false, not, ◌&&◌, ◌||◌, Option, none,
  some, List, [], ◌∷◌, ◌==◌, if◌then◌else◌, ltb, leb,
}

-- `thread::tls_data`; `A` is the class `any`.
pub record TlsData (A : Type 0) : Type 0 where
  pub thread_id_ : ℕ  -- size_t
  pub local_data : ℕ → Option A

module _ {A : Type 0} where
  -- The constructor, as `create_tls_data` calls it.
  abbrev pub create_tls_data : ℕ → TlsData A
  create_tls_data id = record { thread_id_ = id; local_data = λ _. none }

  -- The data of the calling thread, which is created when there is none.
  unfoldable pub get_tls_data : Option (TlsData A) → TlsData A
  get_tls_data none = create_tls_data 0
  get_tls_data (some tsd) = tsd

  -- `thread::thread_id()` and `thread::set_thread_id(t)`
  unfoldable pub thread_id : Option (TlsData A) → ℕ × Option (TlsData A)
  thread_id tsd = let d = get_tls_data tsd in (d.thread_id_, some d)

  unfoldable pub set_thread_id : ℕ → Option (TlsData A) → Option (TlsData A)
  set_thread_id t tsd = some (record (get_tls_data tsd) { thread_id_ = t })

  abbrev pub put : ℕ → Option A → TlsData A → TlsData A
  put id v d = record d { local_data = λ i. if i == id then v else d.local_data i }

  -- `thread::get_local(id)`: an entry with a new `any` is made when there is none.
  unfoldable pub get_local : A → ℕ → Option (TlsData A) → A × Option (TlsData A)
  get_local new_any id tsd =
      let d = get_tls_data tsd in
      elim (d.local_data id) [
        | none ↦ (new_any, some (put id (some new_any) d))
        | some v ↦ (v, some d)
      ]

  -- `thread::get_local(id) = v`
  unfoldable pub set_local : ℕ → A → Option (TlsData A) → Option (TlsData A)
  set_local id v tsd = some (put id (some v) (get_tls_data tsd))

  unfoldable pub contains : ℕ → Option (TlsData A) → Bool × Option (TlsData A)
  contains id tsd =
      let d = get_tls_data tsd in (elim (d.local_data id) [ none ↦ false | some _ ↦ true ], some d)

  -- With the number of elements erased.
  unfoldable pub erase : ℕ → Option (TlsData A) → ℕ × Option (TlsData A)
  erase id tsd =
      let d = get_tls_data tsd in
      (elim (d.local_data id) [ none ↦ 0 | some _ ↦ 1 ], some (put id none d))

-- `thread::cpu_count()` on Linux, with the number that the environment has, an `int`, and the number
-- that `sysconf` returns.
unfoldable pub cpu_count : Option ℕ → ℕ → ℕ
cpu_count none configured = configured
cpu_count (some jobs) configured = if ltb jobs 2 || leb (2 ^ 31) jobs then 2 else jobs

-- The functions of pthread, on a state `W`: `result` is the return value of a thread that has not been
-- joined. `create` is given the cpu, if one is set, and the return value of the new thread.
pub record Pthreads (W : Type 0) : Type 0 where
  pub attr_init : W → ℕ
  pub attr_setstacksize : ℕ → W → ℕ
  pub attr_setdetachstate : W → ℕ
  pub attr_destroy : W → ℕ
  pub create : Option ℕ → Option ℕ → W → ℕ × ℕ × W
  pub join : ℕ → W → ℕ × Option ℕ × W
  pub result : ℕ → W → Option (Option ℕ)
  pub create-result :
      (cpu retval : Option ℕ) (w : W)
      → (create cpu retval w).0 ≡ 0
      → (result (create cpu retval w).1 w ≡ none)
        × (result (create cpu retval w).1 (create cpu retval w).2 ≡ some retval)
  pub create-others :
      (cpu retval : Option ℕ) (w : W) (q : ℕ)
      → q ≢ (create cpu retval w).1
      → result q (create cpu retval w).2 ≡ result q w
  pub join-result :
      (p : ℕ) (w : W) (retval : Option ℕ)
      → result p w ≡ some retval
      → ((join p w).0 ≡ 0) × ((join p w).1 ≡ retval)
  pub join-others : (p q : ℕ) (w : W) → q ≢ p → result q (join p w).2 ≡ result q w

pub record Thread : Type 0 where
  pub m_stack_size : ℕ
  pub m_p_thread : ℕ
  pub m_thread_id : ℕ
  pub thread_started : Bool

-- The constructor.
abbrev pub construct : ℕ → Thread
construct id = record {
  m_stack_size = 8 * 1048576;
  m_p_thread = 0;
  m_thread_id = id;
  thread_started = false;
}

-- How a call ends: `aborts` is an assertion that fails, `exits` is `exit(EXIT_FAILURE)`.
pub data Result (X W : Type 0) : Type 0 where
  returns : X → W → Result X W
  throws : ℕ → W → Result X W
  aborts exits : Result X W

-- How a routine ends: normally, or with a message that it throws.
pub data Ran : Type 0 where
  ended : Ran
  raised : ℕ → Ran

-- A routine, given the data of the thread that runs it.
abbrev pub Routine : Type 0 → Type 0
Routine A = Option (TlsData A) → Ran

-- The return value of `invoke`, in a thread that has no data: it creates the data and runs the
-- routine, and catches the message.
unfoldable pub invoke : {A : Type 0} → ℕ → Routine A → Option ℕ
invoke id spawn_routine = elim (spawn_routine (some (create_tls_data id))) [
  | ended ↦ none
  | raised msg ↦ some msg
]

module _ {W : Type 0} (pthreads : Pthreads W) where
  -- The attributes can be set.
  abbrev pub attributes : ℕ → W → Bool
  attributes size w =
      pthreads.attr_init w == 0
      && pthreads.attr_setstacksize size w == 0
      && pthreads.attr_setdetachstate w == 0

module _ {A W : Type 0} (pthreads : Pthreads W) where
  -- The end of both `launch`es, from the initialization of the attributes on.
  unfoldable pub create_thread : Option ℕ → Routine A → Thread → W → Result Thread W
  create_thread cpu spawn_routine t w =
      if attributes pthreads t.m_stack_size w
      then (let (error, p, w') = pthreads.create cpu (invoke t.m_thread_id spawn_routine) w in
          if error == 0
          then (if pthreads.attr_destroy w' == 0
              then returns (record t { m_p_thread = p; thread_started = true }) w'
              else aborts)
          else exits)
      else aborts

  unfoldable pub launch : Routine A → Thread → W → Result Thread W
  launch spawn_routine t w =
      if t.thread_started then aborts else create_thread none spawn_routine t w

  -- `launch(spawn_routine, cpu_id)` on Linux, where the build can set the affinity of a thread, with
  -- the value of `cpu_count()` and the constant `CPU_SETSIZE`.
  unfoldable pub launch_on : (count cpu_setsize : ℕ) → Routine A → ℕ → Thread → W → Result Thread W
  launch_on count cpu_setsize spawn_routine cpu_id t w =
      if t.thread_started
      then aborts
      else if cpu_id == 2 ^ 64 - 1
      then launch spawn_routine t w
      else if ltb 0 count
      then create_thread (some (cpu_id % count % cpu_setsize)) spawn_routine t w
      else launch spawn_routine t w

module _ {W : Type 0} (pthreads : Pthreads W) where
  unfoldable pub join : Thread → W → Result Unit W
  join other w =
      if other.thread_started
      then (let (error, status, w') = pthreads.join other.m_p_thread w in
          elim status [
            | some strstatus ↦ throws strstatus w'
            | none ↦ if error == 0 then returns tt w' else exits
          ])
      else returns tt w
