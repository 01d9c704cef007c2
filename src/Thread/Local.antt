-- ===== src/Thread/Local.antt =====
-- delete-me/thread.hpp: the data of a thread as a map.
use akl.Base.{
  ℕ, ◌≡◌, refl, Bool, true, false, Option, none, some, List, [], ◌∷◌, ◌==◌, if◌then◌else◌, arith,
}
use akl.Thread.{
  TlsData, get_tls_data, thread_id, set_thread_id, get_local, set_local, contains, erase,
}

-- What a thread does with its data.
pub data Command (A : Type 0) : Type 0 where
  sets_thread_id : ℕ → Command A
  sets : ℕ → A → Command A
  gets erases : ℕ → Command A

module _ {A : Type 0} (new_any : A) where
  -- The last one first.
  abbrev pub run : List (Command A) → Option (TlsData A)
  run [] = none
  run (sets_thread_id t ∷ cs) = set_thread_id t (run cs)
  run (sets id v ∷ cs) = set_local id v (run cs)
  run (gets id ∷ cs) = (get_local new_any id (run cs)).1
  run (erases id ∷ cs) = (erase id (run cs)).1

  -- The last value of `id` since it was erased, and the last thread id.
  abbrev pub last_value : ℕ → List (Command A) → Option A
  last_value i [] = none
  last_value i (sets_thread_id t ∷ cs) = last_value i cs
  last_value i (sets id v ∷ cs) = let old = last_value i cs in if i == id then some v else old
  last_value i (gets id ∷ cs) =
      let old = last_value i cs in
      if i == id then elim old [ none ↦ some new_any | some v ↦ some v ] else old
  last_value i (erases id ∷ cs) = let old = last_value i cs in if i == id then none else old

  abbrev pub last_id : List (Command A) → ℕ
  last_id [] = 0
  last_id (sets_thread_id t ∷ cs) = t
  last_id (_ ∷ cs) = last_id cs

  abbrev pub or_new : Option A → A
  or_new none = new_any
  or_new (some v) = v

  abbrev pub is_some : Option A → Bool
  is_some none = false
  is_some (some _) = true

  local_data_lem :
      (i : ℕ) (cs : List (Command A))
      → ((get_tls_data (run cs)).local_data i ≡ last_value i cs)
        × ((get_tls_data (run cs)).thread_id_ ≡ last_id cs)
  unfolding get_tls_data set_thread_id set_local get_local erase
  local_data_lem i [] = (refl, refl)
  local_data_lem i (sets_thread_id t ∷ cs) = ((local_data_lem i cs).0, refl)
  local_data_lem i (sets id v ∷ cs) = ground (arith, local_data_lem i cs)
  local_data_lem i (erases id ∷ cs) = ground (arith, local_data_lem i cs)
  local_data_lem i (gets id ∷ cs) = ground (arith, local_data_lem i cs, local_data_lem id cs)

  -- A thread with no data that sets its id, and sets, gets and erases its local data in any order:
  -- then `thread_id` gives the last id set, or 0, `contains(i)` says whether `i` has been set or got
  -- since it was last erased, and `get_local(i)` gives its last value, or a new one.
  pub local_lem :
      (i : ℕ) (cs : List (Command A))
      → ((thread_id (run cs)).0 ≡ last_id cs)
        × ((contains i (run cs)).0 ≡ is_some (last_value i cs))
        × ((get_local new_any i (run cs)).0 ≡ or_new (last_value i cs))
  unfolding thread_id contains get_local
  local_lem i cs = ground (arith, local_data_lem i cs)
