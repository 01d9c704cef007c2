-- ===== src/Sync/Exchange.antt =====
-- sync.c: the exchanges of a float and of a double. In user space they are loops that compare and
-- swap; `fuel` bounds the rounds, and `none` means that it ran out.
use akl.Base.{ℕ, zero, suc, Option, none, some, ◌==◌, if◌then◌else◌}
use akl.Machine.External.{GccSync, Platform, kernel_module, user_space}
use akl.Machine.Shared.{Shared, access, read}
use akl.KernLib.{akl_atomic_xchg_float, akl_atomic_xchg_double}

-- The `do` loop, from `oldv`.
unfoldable pub exchange_loop : {m : ℕ} → ℕ → GccSync m → ℕ → ℕ → Shared → Option (ℕ × Shared)
exchange_loop zero gcc oldv newv t = none
exchange_loop (suc fuel) gcc prev newv t =
    let (oldv, t') = access (gcc.val_compare_and_swap prev newv) t in
    let again = exchange_loop fuel gcc oldv newv t' in
    if oldv == prev then some (prev, t') else again

module _ (p : Platform) (fuel : ℕ) where
  unfoldable pub akl_sync_lock_test_and_set_float : ℕ → Shared → Option (ℕ × Shared)
  unfolding akl_atomic_xchg_float
  akl_sync_lock_test_and_set_float val t = elim p.build [
    | kernel_module ↦ some (access (akl_atomic_xchg_float p.linux32 val) t)
    | user_space ↦ let (oldv, t') = access read t in exchange_loop fuel p.gcc32 oldv val t'
  ]

  unfoldable pub akl_sync_lock_test_and_set_double : ℕ → Shared → Option (ℕ × Shared)
  unfolding akl_atomic_xchg_double
  akl_sync_lock_test_and_set_double val t = elim p.build [
    | kernel_module ↦ some (access (akl_atomic_xchg_double p.linux64 val) t)
    | user_space ↦ let (oldv, t') = access read t in exchange_loop fuel p.gcc64 oldv val t'
  ]
