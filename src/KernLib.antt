-- ===== src/KernLib.antt =====
-- kern_lib.c, "atomic": the wrappers round the kernel's `atomic_t` and `atomic64_t` functions.
-- An `akl_atomic_float_t` or `akl_atomic_double_t` is a union with its bit pattern, and is that
-- pattern here.
pub mod Memory
use akl.Base.{ℕ, Bool, ◌==◌}
use akl.Machine.Words.{u32, u64}
use akl.Machine.External.{Access, LinuxAtomics}

module _ (linux : LinuxAtomics u32) where
  unfoldable pub akl_atomic_xchg : ℕ → Access ℕ
  akl_atomic_xchg new_val = linux.xchg new_val

  unfoldable pub akl_atomic_xchg_float : ℕ → Access ℕ
  akl_atomic_xchg_float new_val v = let (res, v') = linux.xchg new_val v in (res, v')

  unfoldable pub akl_atomic_cmpxchg : ℕ → ℕ → Access ℕ
  akl_atomic_cmpxchg old_val new_val = linux.cmpxchg old_val new_val

  unfoldable pub akl_atomic_add_return : ℕ → Access ℕ
  akl_atomic_add_return add_val = linux.add_return add_val

  unfoldable pub akl_atomic_sub_return : ℕ → Access ℕ
  akl_atomic_sub_return sub_val = linux.sub_return sub_val

  unfoldable pub akl_atomic_cmpxchg_float : ℕ → ℕ → Access Bool
  akl_atomic_cmpxchg_float oldv newv ptr =
      let (prev, ptr') = linux.cmpxchg oldv newv ptr in (prev == oldv, ptr')

module _ (linux : LinuxAtomics u64) where
  unfoldable pub akl_atomic_xchg_double : ℕ → Access ℕ
  akl_atomic_xchg_double new_val v = let (res, v') = linux.xchg new_val v in (res, v')

  unfoldable pub akl_atomic_cmpxchg_double : ℕ → ℕ → Access Bool
  akl_atomic_cmpxchg_double oldv newv ptr =
      let (prev, ptr') = linux.cmpxchg oldv newv ptr in (prev == oldv, ptr')
