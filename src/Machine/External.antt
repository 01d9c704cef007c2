-- ===== src/Machine/External.antt =====
-- The atomic operations that the code calls and does not implement: Linux' `atomic_t` and
-- `atomic64_t` functions and GCC's `__sync` builtins. Each is one atomic access to a cell: from
-- the cell's value to the result and the cell's new value. The fields ending in `_lem`, `_hit` and
-- `_miss` are their documented behaviour.
use akl.Base.{ℕ, ◌<◌, ◌≡◌, refl, ◌≢◌, ◌⊎◌, inl, inr, Bool, true, false}
use akl.Machine.Words.{wadd, wsub, u32, u64}

abbrev pub Access : Type 0 → Type 0
Access A = ℕ → A × ℕ

-- The `atomic_*` functions of the kernel, on a word with the modulus `m`.
pub record LinuxAtomics (m : ℕ) : Type 0 where
  pub xchg : ℕ → Access ℕ
  pub cmpxchg : ℕ → ℕ → Access ℕ
  pub add_return : ℕ → Access ℕ
  pub sub_return : ℕ → Access ℕ
  pub xchg_lem : (v c : ℕ) → xchg v c ≡ (c, v)
  pub cmpxchg_hit : (n c : ℕ) → cmpxchg c n c ≡ (c, n)
  pub cmpxchg_miss : (o n c : ℕ) → c ≢ o → cmpxchg o n c ≡ (c, c)
  pub add_return_lem : (v c : ℕ) → v < m → c < m → add_return v c ≡ (wadd m c v, wadd m c v)
  pub sub_return_lem : (v c : ℕ) → v < m → c < m → sub_return v c ≡ (wsub m c v, wsub m c v)

-- The `__sync_*` builtins of the compiler, on a word with the modulus `m`.
pub record GccSync (m : ℕ) : Type 0 where
  pub bool_compare_and_swap : ℕ → ℕ → Access Bool
  pub val_compare_and_swap : ℕ → ℕ → Access ℕ
  pub add_and_fetch : ℕ → Access ℕ
  pub fetch_and_add : ℕ → Access ℕ
  pub sub_and_fetch : ℕ → Access ℕ
  pub fetch_and_sub : ℕ → Access ℕ
  pub lock_test_and_set : ℕ → Access ℕ
  pub bool_hit : (n c : ℕ) → bool_compare_and_swap c n c ≡ (true, n)
  pub bool_miss : (o n c : ℕ) → c ≢ o → bool_compare_and_swap o n c ≡ (false, c)
  pub val_hit : (n c : ℕ) → val_compare_and_swap c n c ≡ (c, n)
  pub val_miss : (o n c : ℕ) → c ≢ o → val_compare_and_swap o n c ≡ (c, c)
  pub add_and_fetch_lem : (v c : ℕ) → v < m → c < m → add_and_fetch v c ≡ (wadd m c v, wadd m c v)
  pub fetch_and_add_lem : (v c : ℕ) → v < m → c < m → fetch_and_add v c ≡ (c, wadd m c v)
  pub sub_and_fetch_lem : (v c : ℕ) → v < m → c < m → sub_and_fetch v c ≡ (wsub m c v, wsub m c v)
  pub fetch_and_sub_lem : (v c : ℕ) → v < m → c < m → fetch_and_sub v c ≡ (c, wsub m c v)
  pub lock_test_and_set_lem : (v c : ℕ) → lock_test_and_set v c ≡ (c, v)

-- `__KERNEL_MODULE__` is defined in the first build and not in the second.
pub data Build : Type 0 where
  kernel_module user_space : Build

pub Build-cases : (b : Build) → (b ≡ kernel_module) ⊎ (b ≡ user_space)
Build-cases kernel_module = inl refl
Build-cases user_space = inr refl

pub record Platform : Type 0 where
  pub build : Build
  pub linux32 : LinuxAtomics u32
  pub linux64 : LinuxAtomics u64
  pub gcc32 : GccSync u32
  pub gcc64 : GccSync u64
