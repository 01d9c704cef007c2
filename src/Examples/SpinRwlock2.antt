-- ===== src/Examples/SpinRwlock2.antt =====
-- The lock in one word: of two threads, one reads and the other one waits to write.
use akl.Base.{◌+◌, ◌*◌, ◌%◌, ◌≤◌, ◌≡◌, ◌⊎◌, refl, List, [], ◌∷◌, arith}
use akl.Machine.Crew.{total, crew, Reachable, start, step}
use akl.SpinRwlock2.{
  construct, Place, outside, Move, reading, calls_readlock, sees_no_writer, reads, calls_writelock,
  sees_some, announces, sets_wait, write_wait,
}
use akl.SpinRwlock2.Exclusion.{writes, holds_read, adds, exclusion}

abbrev ends : List Place
ends = reading ∷ write_wait ∷ []

run : Reachable Move construct (crew 2 outside) 5 ends
unfolding crew
run =
    step (reading ∷ []) []
      (step (reading ∷ []) []
        (step (reading ∷ []) []
          (step (reading ∷ []) []
            (step [] (outside ∷ [])
              (step [] (outside ∷ []) (step [] (outside ∷ []) start calls_readlock)
                (sees_no_writer refl))
              (reads refl))
            calls_writelock)
          (sees_some (omega arith)))
        (announces refl))
      sets_wait

exclusion_example :
    (total writes ends ≤ 1)
    × ((total writes ends ≡ 0) ⊎ (total holds_read ends ≡ 0))
    × (5 ≡ 5 % 2 + 2 * total writes ends + 4 * total adds ends)
exclusion_example = exclusion 2 5 ends (omega arith) run
