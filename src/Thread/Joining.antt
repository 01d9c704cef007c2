-- ===== src/Thread/Joining.antt =====
-- delete-me/thread.hpp: what `join` gives back of the threads that were launched.
use mathlib.Core.Option.{none-ne-some}
use akl.Base.{
  ltb, ◌-◌, ◌^◌, ◌==◌, ◌%◌, Bool-cases, inl, inr, ℕ, ◌*◌, ◌≡◌, ◌≢◌, ◌∙◌, sym, ap, refl, true,
  Option, none, some, List, [], ◌∷◌,
}
use akl.Machine.Crew.{All}
use akl.Thread.{
  Pthreads, Thread, construct, Result, returns, throws, aborts, exits, Ran, ended, raised, Routine,
  invoke, create_thread, launch, launch_on, join,
}

module _ {W : Type 0} (pthreads : Pthreads W) where
  -- No function of pthread fails.
  pub record Works : Type 0 where
    pub init : (w : W) → pthreads.attr_init w ≡ 0
    pub stack : (n : ℕ) (w : W) → pthreads.attr_setstacksize n w ≡ 0
    pub detach : (w : W) → pthreads.attr_setdetachstate w ≡ 0
    pub destroy : (w : W) → pthreads.attr_destroy w ≡ 0
    pub create : (cpu retval : Option ℕ) (w : W) → (pthreads.create cpu retval w).0 ≡ 0

  -- What each thread threw, if anything. It is none if a call does not end.
  abbrev pub note : Option ℕ → Option (List (Option ℕ)) → Option (List (Option ℕ))
  note m none = none
  note m (some ms) = some (m ∷ ms)

  abbrev pub joined : Result Unit W → (W → Option (List (Option ℕ))) → Option (List (Option ℕ))
  joined (returns _ w) next = note none (next w)
  joined (throws m w) next = note (some m) (next w)
  joined aborts next = none
  joined exits next = none

  abbrev pub join_all : List Thread → W → Option (List (Option ℕ))
  join_all [] w = some []
  join_all (t ∷ ts) w = joined (join pthreads t w) (join_all ts)

  abbrev pub launched :
      Result Thread W
      → (W → List Thread → Option (List (Option ℕ)))
      → List Thread
      → Option (List (Option ℕ))
  launched (returns t w) next ts = next w (t ∷ ts)
  launched (throws _ _) next ts = none
  launched aborts next ts = none
  launched exits next ts = none

  -- The threads were launched and not joined, and these are their return values.
  abbrev pub Wait : List (Option ℕ) → List Thread → W → Type 0
  Wait [] [] w = Unit
  Wait (m ∷ ms) (t ∷ ts) w =
      (t.thread_started ≡ true)
      × (pthreads.result t.m_p_thread w ≡ some m)
      × All (λ (u : Thread). u.m_p_thread ≢ t.m_p_thread) ts
      × Wait ms ts w
  Wait _ _ w = ⊥

  Wait-apart :
      (p : ℕ) (ms : List (Option ℕ)) (ts : List Thread) (w : W)
      → pthreads.result p w ≡ none
      → Wait ms ts w
      → All (λ (u : Thread). u.m_p_thread ≢ p) ts
  Wait-apart p [] [] w e h = tt
  Wait-apart p (m ∷ ms) (t ∷ ts) w e (st, r, apart, h) = (
    λ same. none-ne-some m (sym e ∙ (ap (λ q. pthreads.result q w) (sym same) ∙ r)),
    Wait-apart p ms ts w e h,
  )
  Wait-apart p [] (t ∷ ts) w e h = absurd h
  Wait-apart p (m ∷ ms) [] w e h = absurd h

  Wait-others :
      (p : ℕ) (ms : List (Option ℕ)) (ts : List Thread) (w w' : W)
      → ((q : ℕ) → q ≢ p → pthreads.result q w' ≡ pthreads.result q w)
      → All (λ (u : Thread). u.m_p_thread ≢ p) ts
      → Wait ms ts w
      → Wait ms ts w'
  Wait-others p [] [] w w' keep a h = tt
  Wait-others p (m ∷ ms) (t ∷ ts) w w' keep a (st, r, apart, h) =
      (st, keep t.m_p_thread a.0 ∙ r, apart, Wait-others p ms ts w w' keep a.1 h)
  Wait-others p [] (t ∷ ts) w w' keep a h = absurd h
  Wait-others p (m ∷ ms) [] w w' keep a h = absurd h

  join-Wait :
      (m : Option ℕ) (t : Thread) (w : W) (next : W → Option (List (Option ℕ)))
      → t.thread_started ≡ true
      → pthreads.result t.m_p_thread w ≡ some m
      → joined (join pthreads t w) next ≡ note m (next (pthreads.join t.m_p_thread w).2)
  unfolding join
  join-Wait none t w next st r =
      let (e, v) = pthreads.join-result t.m_p_thread w none r in rw (st) (rw (v) (rw (e) refl))
  join-Wait (some x) t w next st r =
      let (e, v) = pthreads.join-result t.m_p_thread w (some x) r in rw (st) (rw (v) refl)

  join_all-Wait :
      (ms : List (Option ℕ)) (ts : List Thread) (w : W) → Wait ms ts w → join_all ts w ≡ some ms
  join_all-Wait [] [] w h = refl
  join_all-Wait (m ∷ ms) (t ∷ ts) w (st, r, apart, h) =
      let w' = (pthreads.join t.m_p_thread w).2 in
      let rest =
        Wait-others t.m_p_thread ms ts w w' (λ q ne. pthreads.join-others t.m_p_thread q w ne) apart
          h in
      join-Wait m t w (join_all ts) st r ∙ ap (note m) (join_all-Wait ms ts w' rest)
  join_all-Wait [] (t ∷ ts) w h = absurd h
  join_all-Wait (m ∷ ms) [] w h = absurd h

-- A thread object's id, the cpu given to `launch` if one is, and the routine.
pub record Job (A : Type 0) : Type 0 where
  pub id : ℕ
  pub cpu_id : Option ℕ
  pub spawn_routine : Routine A

-- What `join` is to tell of a routine: nothing, or its message.
abbrev pub told : Ran → Option ℕ
told ended = none
told (raised msg) = some msg

module _ {A : Type 0} where
  -- The same of a job, whose routine finds the id of the object and no other data.
  abbrev pub value : Job A → Option ℕ
  value j = told (j.spawn_routine (some (record { thread_id_ = j.id; local_data = λ _. none })))

  told-invoke : (j : Job A) → invoke j.id j.spawn_routine ≡ value j
  unfolding invoke
  told-invoke j =
      by_end (j.spawn_routine (some (record { thread_id_ = j.id; local_data = λ _. none }))) refl
    where
      by_end :
          (r : Ran)
          → j.spawn_routine (some (record { thread_id_ = j.id; local_data = λ _. none })) ≡ r
          → invoke j.id j.spawn_routine ≡ value j
      by_end ended e = rw (invoke, e) refl
      by_end (raised msg) e = rw (invoke, e) refl

  -- What the routines throw, given data with their thread ids: the last one first.
  abbrev pub thrown : List (Job A) → List (Option ℕ) → List (Option ℕ)
  thrown [] ms = ms
  thrown (j ∷ js) ms = thrown js (value j ∷ ms)

module _ {A W : Type 0} (pthreads : Pthreads W) (count cpu_setsize : ℕ) where
  -- The `launch` that the job asks for.
  abbrev pub start : Option ℕ → Job A → W → Result Thread W
  start none j = launch pthreads j.spawn_routine (construct j.id)
  start (some cpu_id) j =
      launch_on pthreads count cpu_setsize j.spawn_routine cpu_id (construct j.id)

  -- Thread objects for these jobs are launched one after the other; then all are joined, the last one
  -- first.
  abbrev pub launch_and_join : List (Job A) → W → List Thread → Option (List (Option ℕ))
  launch_and_join [] w ts = join_all pthreads ts w
  launch_and_join (j ∷ js) w ts = launched pthreads (start j.cpu_id j w) (launch_and_join js) ts

  -- The thread has been created, on some cpu or on none.
  record Started (j : Job A) (w : W) (r : Result Thread W) : Type 0 where
    cpu : Option ℕ
    is :
        r
        ≡ returns
            (record (construct j.id) {
              m_p_thread = (pthreads.create cpu (value j) w).1;
              thread_started = true;
            })
            (pthreads.create cpu (value j) w).2

  create_thread-Started :
      (j : Job A) (cpu : Option ℕ) (w : W)
      → Works pthreads
      → Started j w (create_thread pthreads cpu j.spawn_routine (construct j.id) w)
  unfolding create_thread
  create_thread-Started j cpu w ok = record {
    cpu = cpu;
    is =
        rw
          (
            told-invoke j,
            ok.init w,
            ok.stack (8 * 1048576) w,
            ok.detach w,
            ok.create cpu (value j) w,
            ok.destroy (pthreads.create cpu (value j) w).2,
          )
          refl;
  }

  start-Started :
      (cpu_id : Option ℕ) (j : Job A) (w : W) → Works pthreads → Started j w (start cpu_id j w)
  unfolding launch launch_on
  start-Started none j w ok = create_thread-Started j none w ok
  start-Started (some cpu_id) j w ok = elim (Bool-cases (cpu_id == 2 ^ 64 - 1)) [
    | inl t ↦ rw t (create_thread-Started j none w ok)
    | inr f ↦ elim (Bool-cases (ltb 0 count)) [
      | inl g ↦ rw (f, g) (create_thread-Started j (some (cpu_id % count % cpu_setsize)) w ok)
      | inr h ↦ rw (f, h) (create_thread-Started j none w ok)
    ]
  ]

  launch_and_join-Wait :
      (js : List (Job A)) (w : W) (ts : List Thread) (ms : List (Option ℕ))
      → Works pthreads
      → Wait pthreads ms ts w
      → launch_and_join js w ts ≡ some (thrown js ms)
  launch_and_join-Wait [] w ts ms ok h = join_all-Wait pthreads ms ts w h
  launch_and_join-Wait (j ∷ js) w ts ms ok h =
      let s = start-Started j.cpu_id j w ok in
      let p = (pthreads.create s.cpu (value j) w).1 in
      let w' = (pthreads.create s.cpu (value j) w).2 in
      let (fresh, waits) = pthreads.create-result s.cpu (value j) w (ok.create s.cpu (value j) w) in
      let apart = Wait-apart pthreads p ms ts w fresh h in
      let old =
        Wait-others pthreads p ms ts w w' (λ q ne. pthreads.create-others s.cpu (value j) w q ne)
          apart h in
      ap (λ r. launched pthreads r (launch_and_join js) ts) s.is
      ∙ launch_and_join-Wait js w' _ (value j ∷ ms) ok (refl, waits, apart, old)

  -- Thread objects, each with an id and a routine, are launched one after the other, each with a cpu
  -- or without, while no function of pthread fails, and are joined then in the opposite order. Every
  -- call of `join` tells how the routine of its own thread ended: it throws the message that the
  -- routine threw, and returns if the routine ended normally. The routine is the given one, and has
  -- found data with the id of the object and with no entries.
  pub launch_and_join_lem :
      (js : List (Job A)) (w : W) → Works pthreads → launch_and_join js w [] ≡ some (thrown js [])
  launch_and_join_lem js w ok = launch_and_join-Wait js w [] [] ok tt
