-- ===== src/Sync/Laws.antt =====
-- What the single accesses of sync.c do to the cell, in both builds.
use akl.Base.{
  ℕ, ◌<◌, ◌≡◌, Bool, true, false, arith, ◌==◌, if◌then◌else◌, inl, inr, Bool-cases, ==_refl,
}
use akl.Machine.Words.{wadd, wsub, u32}
use akl.Machine.External.{Access, LinuxAtomics, GccSync, Platform, Build-cases}
use akl.Sync.{
  akl_sync_bool_compare_and_swap, akl_sync_add_and_fetch, akl_sync_fetch_and_add,
  akl_sync_sub_and_fetch, akl_sync_fetch_and_sub, akl_sync_lock_test_and_set,
  akl_atomic_compare_and_swap_float, akl_atomic_compare_and_swap_double,
}

-- The atomic operations on a word with the modulus `m`, independent of any build.
abbrev pub cas : ℕ → ℕ → Access Bool
cas e n c = if c == e then (true, n) else (false, c)

abbrev pub add : ℕ → ℕ → Access ℕ
add m v c = (wadd m c v, wadd m c v)

abbrev pub sub : ℕ → ℕ → Access ℕ
sub m v c = (wsub m c v, wsub m c v)

abbrev pub post_add : ℕ → ℕ → Access ℕ
post_add m v c = (c, wadd m c v)

abbrev pub post_sub : ℕ → ℕ → Access ℕ
post_sub m v c = (c, wsub m c v)

abbrev pub swap : ℕ → Access ℕ
swap v c = (c, v)

module _ {m : ℕ} (e n c : ℕ) where
  gcc-cas : (g : GccSync m) → g.bool_compare_and_swap e n c ≡ cas e n c
  gcc-cas g = elim (Bool-cases (c == e)) [
    | inl h ↦ let q : c ≡ e = ground arith in rw h (rw (← q) (g.bool_hit n c))
    | inr h ↦ rw h (g.bool_miss e n c (ground arith))
  ]

  -- A `cmpxchg` succeeded when it returns the expected value.
  abbrev returned : LinuxAtomics m → Bool × ℕ
  returned l = let (prev, c') = l.cmpxchg e n c in (prev == e, c')

  linux-cas : (l : LinuxAtomics m) → returned l ≡ cas e n c
  linux-cas l = elim (Bool-cases (c == e)) [
    | inl h ↦
        let q : c ≡ e = ground arith in rw h (rw (← q) (rw (l.cmpxchg_hit n c) (rw (==_refl c))))
    | inr h ↦ rw (h, l.cmpxchg_miss e n c (ground arith)) (rw h)
  ]

module _ (p : Platform) where
  pub bool_compare_and_swap_lem : (e n c : ℕ) → akl_sync_bool_compare_and_swap p e n c ≡ cas e n c
  unfolding akl_sync_bool_compare_and_swap
  bool_compare_and_swap_lem e n c = elim (Build-cases p.build) [
    | inl k ↦ rw k (linux-cas e n c p.linux32)
    | inr u ↦ rw u (gcc-cas e n c p.gcc32)
  ]

  pub compare_and_swap_float_lem :
      (e n c : ℕ) → akl_atomic_compare_and_swap_float p e n c ≡ cas e n c
  unfolding akl_atomic_compare_and_swap_float
  compare_and_swap_float_lem e n c = elim (Build-cases p.build) [
    | inl k ↦ rw k (linux-cas e n c p.linux32)
    | inr u ↦ rw u (gcc-cas e n c p.gcc32)
  ]

  pub compare_and_swap_double_lem :
      (e n c : ℕ) → akl_atomic_compare_and_swap_double p e n c ≡ cas e n c
  unfolding akl_atomic_compare_and_swap_double
  compare_and_swap_double_lem e n c = elim (Build-cases p.build) [
    | inl k ↦ rw k (linux-cas e n c p.linux64)
    | inr u ↦ rw u (gcc-cas e n c p.gcc64)
  ]

  pub lock_test_and_set_lem : (v c : ℕ) → akl_sync_lock_test_and_set p v c ≡ swap v c
  unfolding akl_sync_lock_test_and_set
  lock_test_and_set_lem v c = elim (Build-cases p.build) [
    | inl k ↦ rw k (p.linux32.xchg_lem v c)
    | inr u ↦ rw u (p.gcc32.lock_test_and_set_lem v c)
  ]

  module _ (v c : ℕ) (hv : v < u32) (hc : c < u32) where
    pub add_and_fetch_lem : akl_sync_add_and_fetch p v c ≡ add u32 v c
    unfolding akl_sync_add_and_fetch
    add_and_fetch_lem = elim (Build-cases p.build) [
      | inl k ↦ rw k (p.linux32.add_return_lem v c hv hc)
      | inr u ↦ rw u (p.gcc32.add_and_fetch_lem v c hv hc)
    ]

    pub sub_and_fetch_lem : akl_sync_sub_and_fetch p v c ≡ sub u32 v c
    unfolding akl_sync_sub_and_fetch
    sub_and_fetch_lem = elim (Build-cases p.build) [
      | inl k ↦ rw k (p.linux32.sub_return_lem v c hv hc)
      | inr u ↦ rw u (p.gcc32.sub_and_fetch_lem v c hv hc)
    ]

    -- The kernel has no operation that returns the old value: the code computes it back.
    pub fetch_and_add_lem : akl_sync_fetch_and_add p v c ≡ post_add u32 v c
    unfolding akl_sync_fetch_and_add
    fetch_and_add_lem = elim (Build-cases p.build) [
      | inl k ↦ rw (k, p.linux32.add_return_lem v c hv hc) (ground arith)
      | inr u ↦ rw u (p.gcc32.fetch_and_add_lem v c hv hc)
    ]

    pub fetch_and_sub_lem : akl_sync_fetch_and_sub p v c ≡ post_sub u32 v c
    unfolding akl_sync_fetch_and_sub
    fetch_and_sub_lem = elim (Build-cases p.build) [
      | inl k ↦ rw (k, p.linux32.sub_return_lem v c hv hc) (ground arith)
      | inr u ↦ rw u (p.gcc32.fetch_and_sub_lem v c hv hc)
    ]
