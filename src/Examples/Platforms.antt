-- ===== src/Examples/Platforms.antt =====
-- Concrete functions for the external ones, in both builds.
use akl.Base.{ℕ, ◌≡◌, ◌≢◌, refl, Bool, true, false, ◌==◌, if◌then◌else◌, ==_refl, ==_of_ne}
use akl.Machine.Words.{wadd, wsub, u32, u64}
use akl.Machine.External.{Access, LinuxAtomics, GccSync, Platform, kernel_module, user_space}

abbrev exchange_if : ℕ → ℕ → Access ℕ
exchange_if o n c = if c == o then (c, n) else (c, c)

abbrev swap_if : ℕ → ℕ → Access Bool
swap_if o n c = if c == o then (true, n) else (false, c)

pub exchange_if_hit : (n c : ℕ) → exchange_if c n c ≡ (c, n)
exchange_if_hit n c = rw (==_refl c)

pub exchange_if_miss : (o n c : ℕ) → c ≢ o → exchange_if o n c ≡ (c, c)
exchange_if_miss o n c h = rw (==_of_ne c o h)

pub swap_if_hit : (n c : ℕ) → swap_if c n c ≡ (true, n)
swap_if_hit n c = rw (==_refl c)

pub swap_if_miss : (o n c : ℕ) → c ≢ o → swap_if o n c ≡ (false, c)
swap_if_miss o n c h = rw (==_of_ne c o h)

abbrev pub linux : (m : ℕ) → LinuxAtomics m
linux m = record {
  xchg = λ v c. (c, v);
  cmpxchg = exchange_if;
  add_return = λ v c. (wadd m c v, wadd m c v);
  sub_return = λ v c. (wsub m c v, wsub m c v);
  xchg_lem = λ v c. refl;
  cmpxchg_hit = exchange_if_hit;
  cmpxchg_miss = exchange_if_miss;
  add_return_lem = λ v c hv hc. refl;
  sub_return_lem = λ v c hv hc. refl;
}

abbrev pub gcc : (m : ℕ) → GccSync m
gcc m = record {
  bool_compare_and_swap = swap_if;
  val_compare_and_swap = exchange_if;
  add_and_fetch = λ v c. (wadd m c v, wadd m c v);
  fetch_and_add = λ v c. (c, wadd m c v);
  sub_and_fetch = λ v c. (wsub m c v, wsub m c v);
  fetch_and_sub = λ v c. (c, wsub m c v);
  lock_test_and_set = λ v c. (c, v);
  bool_hit = swap_if_hit;
  bool_miss = swap_if_miss;
  val_hit = exchange_if_hit;
  val_miss = exchange_if_miss;
  add_and_fetch_lem = λ v c hv hc. refl;
  fetch_and_add_lem = λ v c hv hc. refl;
  sub_and_fetch_lem = λ v c hv hc. refl;
  fetch_and_sub_lem = λ v c hv hc. refl;
  lock_test_and_set_lem = λ v c. refl;
}

abbrev pub in_kernel : Platform
in_kernel = record {
  build = kernel_module;
  linux32 = linux u32;
  linux64 = linux u64;
  gcc32 = gcc u32;
  gcc64 = gcc u64;
}

abbrev pub in_user_space : Platform
in_user_space = record in_kernel { build = user_space }
