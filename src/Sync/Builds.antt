-- ===== src/Sync/Builds.antt =====
-- sync.c: what a caller sees does not depend on the build.
use akl.Base.{ℕ, ◌<◌, ◌≡◌, sym, ◌∙◌}
use akl.Machine.Words.{u32}
use akl.Machine.External.{Platform}
use akl.Sync.{
  akl_sync_bool_compare_and_swap, akl_sync_add_and_fetch, akl_sync_fetch_and_add,
  akl_sync_sub_and_fetch, akl_sync_fetch_and_sub, akl_sync_lock_test_and_set,
  akl_atomic_compare_and_swap, akl_atomic_compare_and_swap_float,
  akl_atomic_compare_and_swap_double, akl_atomic_exchange, akl_fetch_and_store,
}
use akl.Sync.Laws.{
  bool_compare_and_swap_lem, compare_and_swap_float_lem, compare_and_swap_double_lem,
  add_and_fetch_lem, sub_and_fetch_lem, fetch_and_add_lem, fetch_and_sub_lem, lock_test_and_set_lem,
}

-- On 32-bit words, any two platforms, a kernel module and user space among them, agree on the result
-- of each operation of sync.c that is a single access, and on what it leaves in the cell.
pub builds-agree :
    (p q : Platform) (e v c : ℕ)
    → v < u32
    → c < u32
    → (akl_sync_bool_compare_and_swap p e v c ≡ akl_sync_bool_compare_and_swap q e v c)
      × (akl_sync_add_and_fetch p v c ≡ akl_sync_add_and_fetch q v c)
      × (akl_sync_fetch_and_add p v c ≡ akl_sync_fetch_and_add q v c)
      × (akl_sync_sub_and_fetch p v c ≡ akl_sync_sub_and_fetch q v c)
      × (akl_sync_fetch_and_sub p v c ≡ akl_sync_fetch_and_sub q v c)
      × (akl_sync_lock_test_and_set p v c ≡ akl_sync_lock_test_and_set q v c)
      × (akl_atomic_compare_and_swap p e v c ≡ akl_atomic_compare_and_swap q e v c)
      × (akl_atomic_compare_and_swap_float p e v c ≡ akl_atomic_compare_and_swap_float q e v c)
      × (akl_atomic_compare_and_swap_double p e v c ≡ akl_atomic_compare_and_swap_double q e v c)
      × (akl_atomic_exchange p v c ≡ akl_atomic_exchange q v c)
      × (akl_fetch_and_store p v c ≡ akl_fetch_and_store q v c)
unfolding akl_atomic_compare_and_swap akl_atomic_exchange akl_fetch_and_store
builds-agree p q e v c hv hc = (
  cas_agrees,
  add_and_fetch_lem p v c hv hc ∙ sym (add_and_fetch_lem q v c hv hc),
  fetch_and_add_lem p v c hv hc ∙ sym (fetch_and_add_lem q v c hv hc),
  sub_and_fetch_lem p v c hv hc ∙ sym (sub_and_fetch_lem q v c hv hc),
  fetch_and_sub_lem p v c hv hc ∙ sym (fetch_and_sub_lem q v c hv hc),
  swap_agrees,
  cas_agrees,
  compare_and_swap_float_lem p e v c ∙ sym (compare_and_swap_float_lem q e v c),
  compare_and_swap_double_lem p e v c ∙ sym (compare_and_swap_double_lem q e v c),
  swap_agrees,
  swap_agrees,
)
  where
    cas_agrees : akl_sync_bool_compare_and_swap p e v c ≡ akl_sync_bool_compare_and_swap q e v c
    cas_agrees = bool_compare_and_swap_lem p e v c ∙ sym (bool_compare_and_swap_lem q e v c)

    swap_agrees : akl_sync_lock_test_and_set p v c ≡ akl_sync_lock_test_and_set q v c
    swap_agrees = lock_test_and_set_lem p v c ∙ sym (lock_test_and_set_lem q v c)
