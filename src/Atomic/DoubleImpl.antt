-- ===== src/Atomic/DoubleImpl.antt =====
-- akl/atomic.hpp: `atomic_impl<akl_atomic_double_t>`. A value is its bit pattern. `fuel` bounds the
-- rounds of the compare-and-swap loops; a method that ran out of it returns `none`.
use akl.Base.{ℕ, zero, suc, List, Option, none, some, if◌then◌else◌}
use mathlib.Core.Option
use akl.Machine.External.{Platform}
use akl.Machine.Shared.{Shared, access, read, at}
use akl.Sync.{akl_atomic_compare_and_swap_double}
use akl.Sync.Exchange.{akl_sync_lock_test_and_set_double}
use akl.FloatBits.{akl_d64_add_bits, akl_d64_sub_bits}

-- The bit pattern of 1.
abbrev pub one : ℕ
one = 0x3ff0_0000_0000_0000

module _ (p : Platform) where
  -- `do { prev_value = value; new_value = f(prev_value); } while (!compare_and_swap(...))`, the
  -- loop of the methods that update. It returns both values.
  unfoldable pub update_loop : ℕ → (ℕ → ℕ) → Shared → Option ((ℕ × ℕ) × Shared)
  update_loop zero f self = none
  update_loop (suc fuel) f self =
      let (prev_value, self') = access read self in
      let new_value = f prev_value in
      let (swapped, self'') =
        access (akl_atomic_compare_and_swap_double p prev_value new_value) self' in
      let again = update_loop fuel f self'' in
      if swapped then some ((prev_value, new_value), self'') else again

-- What a method returns from its loop.
abbrev pub new_value : (ℕ × ℕ) × Shared → ℕ × Shared
new_value ((prev, new), self) = (new, self)

abbrev pub prev_value : (ℕ × ℕ) × Shared → ℕ × Shared
prev_value ((prev, new), self) = (prev, self)

module _ (p : Platform) (fuel : ℕ) where
  -- The constructor from a value. `others` is what the other threads will do to the object.
  unfoldable pub from_value : ℕ → List (ℕ → ℕ) → Shared
  from_value value others = at value others

  -- The constructor from a pointer, which is given the value pointed to.
  unfoldable pub from_pointer : ℕ → List (ℕ → ℕ) → Shared
  from_pointer value others = at value others

  unfoldable pub load : Shared → ℕ × Shared
  load self = access read self

  unfoldable pub inc : ℕ → Shared → Option (ℕ × Shared)
  inc val self = Option.map new_value (update_loop p fuel (λ prev. akl_d64_sub_bits prev val) self)

  unfoldable pub dec : ℕ → Shared → Option (ℕ × Shared)
  dec val self = Option.map new_value (update_loop p fuel (λ prev. akl_d64_sub_bits prev val) self)

  unfoldable pub inc_ret_last : ℕ → Shared → Option (ℕ × Shared)
  inc_ret_last val self =
      Option.map prev_value (update_loop p fuel (λ prev. akl_d64_add_bits prev val) self)

  unfoldable pub dec_ret_last : ℕ → Shared → Option (ℕ × Shared)
  dec_ret_last val self =
      Option.map prev_value (update_loop p fuel (λ prev. akl_d64_sub_bits prev val) self)

  unfoldable pub exchange : ℕ → Shared → Option (ℕ × Shared)
  exchange val self = akl_sync_lock_test_and_set_double p fuel val self

  unfoldable pub inc_one : Shared → Option (ℕ × Shared)
  unfolding inc
  inc_one self = inc one self

  unfoldable pub dec_one : Shared → Option (ℕ × Shared)
  unfolding dec
  dec_one self = dec one self

  unfoldable pub pre_increment : Shared → Option (ℕ × Shared)
  unfolding inc_one
  pre_increment self = inc_one self

  unfoldable pub pre_decrement : Shared → Option (ℕ × Shared)
  unfolding dec_one
  pre_decrement self = dec_one self

  unfoldable pub add_assign : ℕ → Shared → Option (ℕ × Shared)
  unfolding inc
  add_assign val self = inc val self

  unfoldable pub sub_assign : ℕ → Shared → Option (ℕ × Shared)
  unfolding dec
  sub_assign val self = dec val self

  unfoldable pub inc_one_ret_last : Shared → Option (ℕ × Shared)
  unfolding inc_ret_last
  inc_one_ret_last self = inc_ret_last one self

  unfoldable pub dec_one_ret_last : Shared → Option (ℕ × Shared)
  unfolding dec_ret_last
  dec_one_ret_last self = dec_ret_last one self

  unfoldable pub post_increment : Shared → Option (ℕ × Shared)
  unfolding inc_one_ret_last
  post_increment self = inc_one_ret_last self

  unfoldable pub post_decrement : Shared → Option (ℕ × Shared)
  unfolding dec_one_ret_last
  post_decrement self = dec_one_ret_last self
