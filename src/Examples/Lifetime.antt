-- ===== src/Examples/Lifetime.antt =====
-- The table of destructors: three registrations and the theorems at them.
use mathlib.Core.List.{reverse}
use akl.Base.{ℕ, ◌+◌, ◌<◌, ◌≡◌, ◌⊎◌, refl, List, [], ◌∷◌, arith}
use akl.ObjectLifetime.{
  Entry, Registry, empty, failed, maximum_function_count, cxa_atexit, destruct_all, cxa_finalize,
  call_destructors,
}
use akl.ObjectLifetime.Laws.{registered, calls_where, live, runs, other}
use akl.ObjectLifetime.Order.{cxa_atexit_lem, register, call_destructors_lem, cxa_finalize_lem}

abbrev entry : ℕ → ℕ → Entry
entry d o = record { destructor = d; object_pointer = o; dso_handle = 0 }

abbrev objects : List Entry
objects = entry 7 100 ∷ entry 8 200 ∷ entry 7 300 ∷ []

abbrev table : Registry
table = register objects empty

call_destructors_run : (call_destructors table).0 ≡ (7, 300) ∷ (8, 200) ∷ (7, 100) ∷ []
unfolding call_destructors cxa_finalize cxa_atexit destruct_all
call_destructors_run = refl

cxa_atexit_lem_example :
    ((empty.count < maximum_function_count)
      × ((cxa_atexit 7 100 0 empty).0 ≡ 0)
      × (registered (cxa_atexit 7 100 0 empty).1 ≡ entry 7 100 ∷ registered empty)
      × ((cxa_atexit 7 100 0 empty).1.count ≡ empty.count + 1))
    ⊎ ((empty.count ≡ maximum_function_count) × (cxa_atexit 7 100 0 empty ≡ (failed, empty)))
cxa_atexit_lem_example = cxa_atexit_lem (entry 7 100) empty (omega arith)

call_destructors_lem_example :
    call_destructors (register objects empty)
    ≡ (calls_where live (reverse objects), register objects empty)
call_destructors_lem_example = call_destructors_lem objects (omega arith)

cxa_finalize_lem_example :
    ((cxa_finalize 7 table).0 ≡ calls_where (runs 7) (registered table))
    × ((cxa_finalize 7 (cxa_finalize 7 table).1).0 ≡ [])
    × ((call_destructors (cxa_finalize 7 table).1).0 ≡ calls_where (other 7) (registered table))
cxa_finalize_lem_example = cxa_finalize_lem 7 (λ e. absurd (omega (arith, e))) table
