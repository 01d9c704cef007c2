-- ===== src/ThreadGroup/NewThread.antt =====
-- delete-me/thread_group.hpp: `launch_in_new_thread`, over the thread objects of delete-me/thread.hpp, and
-- the destructor of a group.
use akl.Base.{
  ℕ, ◌-◌, ◌^◌, ◌∙◌, ap, ◌≡◌, refl, Bool-cases, inl, inr, some, List, [], ◌∷◌, ◌==◌, if◌then◌else◌,
}
use akl.Thread.{Routine, create_tls_data, Pthreads, Thread, Result, construct, launch, launch_on}
use akl.Thread.Joining.{Works, told, start, launched, join_all, launch_and_join_lem}
use akl.ThreadGroup.{Entry, Group, Outcome, join}

-- The destructor, which lets the exception of `join` out.
unfoldable pub destruct : ℕ → List Entry → Group → Outcome
destruct fuel arriving g = join fuel arriving g

module _ {A W : Type 0} (pthreads : Pthreads W) (count cpu_setsize : ℕ) where
  -- The object that is returned is a copy of `thr`.
  unfoldable pub launch_in_new_thread : Routine A → ℕ → W → Result Thread W
  launch_in_new_thread f cpuid w =
      if cpuid == 2 ^ 64 - 1
      then launch pthreads f (construct 0) w
      else launch_on pthreads count cpu_setsize f cpuid (construct 0) w

  -- It launches the thread as `launch` of an object with the id 0 does.
  launch_in_new_thread-start :
      (f : Routine A) (cpuid : ℕ) (w : W)
      → launch_in_new_thread f cpuid w
        ≡ start pthreads count cpu_setsize
            (some cpuid)
            (record { id = 0; cpu_id = some cpuid; spawn_routine = f })
            w
  unfolding launch_in_new_thread launch_on launch
  launch_in_new_thread-start f cpuid w = elim (Bool-cases (cpuid == 2 ^ 64 - 1)) [
    | inl t ↦ rw (launch_in_new_thread, t) refl
    | inr g ↦ rw (launch_in_new_thread, g) refl
  ]

  -- While no function of pthread fails: `join` of the object that `launch_in_new_thread` returns
  -- throws the message of the function, which has run with the data of a thread with the id 0, or
  -- returns if it threw none.
  launch_in_new_thread_lem :
      (f : Routine A) (cpuid : ℕ) (w : W)
      → Works pthreads
      → launched pthreads (launch_in_new_thread f cpuid w) (λ w' ts. join_all pthreads ts w') []
        ≡ some (told (f (some (create_tls_data 0))) ∷ [])
  launch_in_new_thread_lem f cpuid w ok =
      ap (λ r. launched pthreads r (λ w' ts. join_all pthreads ts w') [])
        (launch_in_new_thread-start f cpuid w)
      ∙ launch_and_join_lem pthreads count cpu_setsize
          (record { id = 0; cpu_id = some cpuid; spawn_routine = f } ∷ []) w ok
