-- ===== src/Atomic/Generic.antt =====
-- akl/atomic.hpp: `atomic_impl<T>` for a type as wide as an `int`. The state of an object is its
-- shared cell, which holds the bit pattern of `value`; a method returns its result and the new
-- state. The casts `*(int*)&val` and `*(T*)&res` keep the bit pattern: `repr` gives it.
use akl.Base.{ℕ, List}
use akl.Machine.External.{Platform}
use akl.Machine.Shared.{Shared, access, read, at}
use akl.Sync.{
  akl_sync_add_and_fetch, akl_sync_fetch_and_add, akl_sync_sub_and_fetch, akl_sync_fetch_and_sub,
  akl_sync_lock_test_and_set,
}

-- The casts between a value of `T` and the bits of an `int`.
pub record Representation (T : Type 0) : Type 0 where
  pub bits : T → ℕ
  pub of_bits : ℕ → T

module _ {T : Type 0} (p : Platform) (repr : Representation T) where
  -- The constructor from a value. `others` is what the other threads will do to the object.
  unfoldable pub from_value : T → List (ℕ → ℕ) → Shared
  from_value value others = at (repr.bits value) others

  -- The constructor from a pointer, which is given the value pointed to.
  unfoldable pub from_pointer : T → List (ℕ → ℕ) → Shared
  from_pointer value others = at (repr.bits value) others

  unfoldable pub inc_one : Shared → T × Shared
  inc_one self =
      let (res, self') = access (akl_sync_add_and_fetch p 1) self in (repr.of_bits res, self')

  unfoldable pub dec_one : Shared → T × Shared
  dec_one self =
      let (res, self') = access (akl_sync_sub_and_fetch p 1) self in (repr.of_bits res, self')

  unfoldable pub load : Shared → T × Shared
  load self = let (bits, self') = access read self in (repr.of_bits bits, self')

  unfoldable pub pre_increment : Shared → T × Shared
  unfolding inc_one
  pre_increment self = inc_one self

  unfoldable pub pre_decrement : Shared → T × Shared
  unfolding dec_one
  pre_decrement self = dec_one self

  unfoldable pub inc : T → Shared → T × Shared
  inc val self =
      let (res, self') = access (akl_sync_add_and_fetch p (repr.bits val)) self in
      (repr.of_bits res, self')

  unfoldable pub dec : T → Shared → T × Shared
  dec val self =
      let (res, self') = access (akl_sync_sub_and_fetch p (repr.bits val)) self in
      (repr.of_bits res, self')

  unfoldable pub add_assign : T → Shared → T × Shared
  unfolding inc
  add_assign val self = inc val self

  unfoldable pub sub_assign : T → Shared → T × Shared
  unfolding dec
  sub_assign val self = dec val self

  unfoldable pub inc_one_ret_last : Shared → T × Shared
  inc_one_ret_last self =
      let (res, self') = access (akl_sync_fetch_and_add p 1) self in (repr.of_bits res, self')

  unfoldable pub dec_one_ret_last : Shared → T × Shared
  dec_one_ret_last self =
      let (res, self') = access (akl_sync_fetch_and_sub p 1) self in (repr.of_bits res, self')

  unfoldable pub post_increment : Shared → T × Shared
  unfolding inc_one_ret_last
  post_increment self = inc_one_ret_last self

  unfoldable pub post_decrement : Shared → T × Shared
  unfolding dec_one_ret_last
  post_decrement self = dec_one_ret_last self

  unfoldable pub inc_ret_last : T → Shared → T × Shared
  inc_ret_last val self =
      let (res, self') = access (akl_sync_fetch_and_add p (repr.bits val)) self in
      (repr.of_bits res, self')

  unfoldable pub dec_ret_last : T → Shared → T × Shared
  dec_ret_last val self =
      let (res, self') = access (akl_sync_fetch_and_sub p (repr.bits val)) self in
      (repr.of_bits res, self')

  unfoldable pub exchange : T → Shared → T × Shared
  exchange val self =
      let (res, self') = access (akl_sync_lock_test_and_set p (repr.bits val)) self in
      (repr.of_bits res, self')
