-- ===== src/Atomic/IntImpl.antt =====
-- akl/atomic.hpp: `atomic_impl<int>`. An `int` is its bit pattern. The state of an object is its
-- shared cell; a method returns its result and the new state.
use akl.Base.{ℕ, List}
use akl.Machine.External.{Platform}
use akl.Machine.Shared.{Shared, access, read, at}
use akl.Sync.{
  akl_sync_add_and_fetch, akl_sync_fetch_and_add, akl_sync_sub_and_fetch, akl_sync_fetch_and_sub,
  akl_sync_lock_test_and_set,
}

module _ (p : Platform) where
  -- The constructor from a value. `others` is what the other threads will do to the object.
  unfoldable pub from_value : ℕ → List (ℕ → ℕ) → Shared
  from_value value others = at value others

  -- The constructor from a pointer, which is given the value pointed to.
  unfoldable pub from_pointer : ℕ → List (ℕ → ℕ) → Shared
  from_pointer value others = at value others

  unfoldable pub inc_one : Shared → ℕ × Shared
  inc_one self = access (akl_sync_add_and_fetch p 1) self

  unfoldable pub dec_one : Shared → ℕ × Shared
  dec_one self = access (akl_sync_sub_and_fetch p 1) self

  unfoldable pub load : Shared → ℕ × Shared
  load self = access read self

  unfoldable pub pre_increment : Shared → ℕ × Shared
  unfolding inc_one
  pre_increment self = inc_one self

  unfoldable pub pre_decrement : Shared → ℕ × Shared
  unfolding dec_one
  pre_decrement self = dec_one self

  unfoldable pub inc : ℕ → Shared → ℕ × Shared
  inc val self = access (akl_sync_add_and_fetch p val) self

  unfoldable pub dec : ℕ → Shared → ℕ × Shared
  dec val self = access (akl_sync_sub_and_fetch p val) self

  unfoldable pub add_assign : ℕ → Shared → ℕ × Shared
  unfolding inc
  add_assign val self = inc val self

  unfoldable pub sub_assign : ℕ → Shared → ℕ × Shared
  unfolding dec
  sub_assign val self = dec val self

  unfoldable pub inc_one_ret_last : Shared → ℕ × Shared
  inc_one_ret_last self = access (akl_sync_fetch_and_add p 1) self

  unfoldable pub dec_one_ret_last : Shared → ℕ × Shared
  dec_one_ret_last self = access (akl_sync_fetch_and_sub p 1) self

  unfoldable pub post_increment : Shared → ℕ × Shared
  unfolding inc_one_ret_last
  post_increment self = inc_one_ret_last self

  unfoldable pub post_decrement : Shared → ℕ × Shared
  unfolding dec_one_ret_last
  post_decrement self = dec_one_ret_last self

  unfoldable pub inc_ret_last : ℕ → Shared → ℕ × Shared
  inc_ret_last val self = access (akl_sync_fetch_and_add p val) self

  unfoldable pub dec_ret_last : ℕ → Shared → ℕ × Shared
  dec_ret_last val self = access (akl_sync_fetch_and_sub p val) self

  unfoldable pub exchange : ℕ → Shared → ℕ × Shared
  exchange val self = access (akl_sync_lock_test_and_set p val) self
