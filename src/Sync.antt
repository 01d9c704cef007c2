-- ===== src/Sync.antt =====
-- sync.c: the library's atomic operations. Each has two bodies, chosen when the file is compiled:
-- for a kernel module over kern_lib.c, and for user space over the compiler's builtins. `p` is the
-- platform, with the build and the external functions. The C truth values 0 and 1 are `Bool`.
-- What takes one access to the cell is an `Access`. The two loops are in Sync/Exchange.antt, and
-- the proofs in the other children.
pub mod Exchange
pub mod Laws
pub mod Linear
pub mod Builds
use akl.Base.{ℕ, Bool, ◌==◌}
use akl.Machine.Words.{wadd, wsub, u32}
use akl.Machine.External.{Access, Platform, kernel_module, user_space}
use akl.KernLib.{
  akl_atomic_xchg, akl_atomic_cmpxchg, akl_atomic_add_return, akl_atomic_sub_return,
  akl_atomic_cmpxchg_float, akl_atomic_cmpxchg_double,
}

module _ (p : Platform) where
  unfoldable pub akl_sync_bool_compare_and_swap : ℕ → ℕ → Access Bool
  unfolding akl_atomic_cmpxchg
  akl_sync_bool_compare_and_swap expected desired t = elim p.build [
    | kernel_module ↦
        let (old, t') = akl_atomic_cmpxchg p.linux32 expected desired t in (old == expected, t')
    | user_space ↦ p.gcc32.bool_compare_and_swap expected desired t
  ]

  unfoldable pub akl_sync_add_and_fetch : ℕ → Access ℕ
  unfolding akl_atomic_add_return
  akl_sync_add_and_fetch val t = elim p.build [
    | kernel_module ↦ akl_atomic_add_return p.linux32 val t
    | user_space ↦ p.gcc32.add_and_fetch val t
  ]

  unfoldable pub akl_sync_fetch_and_add : ℕ → Access ℕ
  unfolding akl_atomic_add_return
  akl_sync_fetch_and_add val t = elim p.build [
    | kernel_module ↦ let (r, t') = akl_atomic_add_return p.linux32 val t in (wsub u32 r val, t')
    | user_space ↦ p.gcc32.fetch_and_add val t
  ]

  unfoldable pub akl_sync_sub_and_fetch : ℕ → Access ℕ
  unfolding akl_atomic_sub_return
  akl_sync_sub_and_fetch val t = elim p.build [
    | kernel_module ↦ akl_atomic_sub_return p.linux32 val t
    | user_space ↦ p.gcc32.sub_and_fetch val t
  ]

  unfoldable pub akl_sync_fetch_and_sub : ℕ → Access ℕ
  unfolding akl_atomic_sub_return
  akl_sync_fetch_and_sub val t = elim p.build [
    | kernel_module ↦ let (r, t') = akl_atomic_sub_return p.linux32 val t in (wadd u32 r val, t')
    | user_space ↦ p.gcc32.fetch_and_sub val t
  ]

  unfoldable pub akl_sync_lock_test_and_set : ℕ → Access ℕ
  unfolding akl_atomic_xchg
  akl_sync_lock_test_and_set val t = elim p.build [
    | kernel_module ↦ akl_atomic_xchg p.linux32 val t
    | user_space ↦ p.gcc32.lock_test_and_set val t
  ]

  unfoldable pub akl_atomic_compare_and_swap : ℕ → ℕ → Access Bool
  unfolding akl_sync_bool_compare_and_swap
  akl_atomic_compare_and_swap expected desired t = akl_sync_bool_compare_and_swap expected desired t

  unfoldable pub akl_atomic_compare_and_swap_float : ℕ → ℕ → Access Bool
  unfolding akl_atomic_cmpxchg_float
  akl_atomic_compare_and_swap_float expected desired t = elim p.build [
    | kernel_module ↦ akl_atomic_cmpxchg_float p.linux32 expected desired t
    | user_space ↦ p.gcc32.bool_compare_and_swap expected desired t
  ]

  unfoldable pub akl_atomic_compare_and_swap_double : ℕ → ℕ → Access Bool
  unfolding akl_atomic_cmpxchg_double
  akl_atomic_compare_and_swap_double expected desired t = elim p.build [
    | kernel_module ↦ akl_atomic_cmpxchg_double p.linux64 expected desired t
    | user_space ↦ p.gcc64.bool_compare_and_swap expected desired t
  ]

  -- `*b` is a variable of the caller: the second result is its new value.
  unfoldable pub akl_atomic_exchange : ℕ → Access ℕ
  unfolding akl_sync_lock_test_and_set
  akl_atomic_exchange b a = akl_sync_lock_test_and_set b a

  unfoldable pub akl_fetch_and_store : ℕ → Access ℕ
  unfolding akl_sync_lock_test_and_set
  akl_fetch_and_store newval a = akl_sync_lock_test_and_set newval a
