-- ===== src/Examples/Atomics.antt =====
-- The atomic operations and the atomic classes: runs, and the theorems at concrete cells.
use akl.Base.{ℕ, ◌+◌, ◌%◌, ◌≡◌, [], ◌∷◌, arith}
use akl.Machine.Words.{u32}
use akl.Machine.Shared.{Shared, at, Linearizes, HoldsWord, Finishes}
use akl.Sync.{
  akl_sync_bool_compare_and_swap, akl_sync_add_and_fetch, akl_sync_fetch_and_add,
  akl_sync_sub_and_fetch, akl_sync_fetch_and_sub, akl_sync_lock_test_and_set,
  akl_atomic_compare_and_swap, akl_atomic_compare_and_swap_float,
  akl_atomic_compare_and_swap_double, akl_atomic_exchange, akl_fetch_and_store,
}
use akl.Sync.Builds.{builds-agree}
use akl.Atomic.Method.{Method, corrected, decrementing}
use akl.Atomic.Words.{int_arithmetic, call, call-Linearizes}
use akl.Atomic.Loops.{
  float_arithmetic, double_arithmetic, float_call, double_call, float_call-Finishes,
  double_call-Finishes,
}
use akl.Examples.Platforms.{in_kernel, in_user_space}

-- Another thread adds 10 before the first access and 20 before the second.
abbrev plus : ℕ → ℕ → ℕ
plus n c = (c + n) % u32

abbrev busy : Shared
busy = at 5 (plus 10 ∷ plus 20 ∷ [])

busy-HoldsWord : HoldsWord u32 busy
busy-HoldsWord = record {
  cell_lt = omega arith;
  others_lt = (λ c h. omega arith, (λ c h. omega arith, tt));
}

builds-agree_example :
    (akl_sync_bool_compare_and_swap in_kernel 5 3 5
      ≡ akl_sync_bool_compare_and_swap in_user_space 5 3 5)
    × (akl_sync_add_and_fetch in_kernel 3 5 ≡ akl_sync_add_and_fetch in_user_space 3 5)
    × (akl_sync_fetch_and_add in_kernel 3 5 ≡ akl_sync_fetch_and_add in_user_space 3 5)
    × (akl_sync_sub_and_fetch in_kernel 3 5 ≡ akl_sync_sub_and_fetch in_user_space 3 5)
    × (akl_sync_fetch_and_sub in_kernel 3 5 ≡ akl_sync_fetch_and_sub in_user_space 3 5)
    × (akl_sync_lock_test_and_set in_kernel 3 5 ≡ akl_sync_lock_test_and_set in_user_space 3 5)
    × (akl_atomic_compare_and_swap in_kernel 5 3 5
        ≡ akl_atomic_compare_and_swap in_user_space 5 3 5)
    × (akl_atomic_compare_and_swap_float in_kernel 5 3 5
        ≡ akl_atomic_compare_and_swap_float in_user_space 5 3 5)
    × (akl_atomic_compare_and_swap_double in_kernel 5 3 5
        ≡ akl_atomic_compare_and_swap_double in_user_space 5 3 5)
    × (akl_atomic_exchange in_kernel 3 5 ≡ akl_atomic_exchange in_user_space 3 5)
    × (akl_fetch_and_store in_kernel 3 5 ≡ akl_fetch_and_store in_user_space 3 5)
builds-agree_example = builds-agree in_kernel in_user_space 5 3 5 (omega arith) (omega arith)

call-Linearizes_example :
    Linearizes
      (corrected int_arithmetic (Method.inc_ret_last 7))
      busy
      (call in_kernel (Method.inc_ret_last 7) busy).0
      (call in_kernel (Method.inc_ret_last 7) busy).1
call-Linearizes_example =
    call-Linearizes in_kernel (Method.inc_ret_last 7) busy (omega arith) busy-HoldsWord

float_call-Finishes_example :
    Finishes
      (corrected float_arithmetic (Method.inc 7))
      (at 5 (plus 10 ∷ plus 20 ∷ []))
      (float_call in_user_space 3 (Method.inc 7) (at 5 (plus 10 ∷ plus 20 ∷ [])))
float_call-Finishes_example =
    float_call-Finishes in_user_space 3 (Method.inc 7) 5 (plus 10 ∷ plus 20 ∷ []) (omega arith)

double_call-Finishes_example :
    Finishes
      (decrementing double_arithmetic (Method.inc 7))
      (at 5 (plus 10 ∷ plus 20 ∷ []))
      (double_call in_kernel 3 (Method.inc 7) (at 5 (plus 10 ∷ plus 20 ∷ [])))
double_call-Finishes_example =
    double_call-Finishes in_kernel 3 (Method.inc 7) 5 (plus 10 ∷ plus 20 ∷ []) (omega arith)
