-- ===== src/Examples/SpinRwlock.antt =====
-- Two threads: one writes, and the other is to read.
use akl.Base.{true, false, ◌≡◌, [], ◌∷◌, arith}
use akl.Machine.Crew.{total, crew, Reachable, start, step}
use akl.SpinRwlock.{
  Lock, construct, take, outside, writing, read_wait, Move, calls_writelock, sees_turn, writes,
  calls_readlock,
}
use akl.SpinRwlock.Tickets.{has, is_reading}
use akl.SpinRwlock.Turns.{is_writing, in_turn}

abbrev two_tickets : Lock
two_tickets = take (record (take (construct false)) { writing = true })

two-Reachable :
    Reachable Move (construct false) (crew 2 outside) two_tickets (writing 0 ∷ read_wait 1 1 ∷ [])
unfolding crew
two-Reachable =
    step (writing 0 ∷ []) []
      (step [] (outside ∷ [])
        (step [] (outside ∷ []) (step [] (outside ∷ []) start calls_writelock) sees_turn) writes)
      calls_readlock

in_turn_example :
    (total is_writing (read_wait 1 1 ∷ []) ≡ 0)
    × (total is_reading (read_wait 1 1 ∷ []) ≡ 0)
    × (total (has 0) (read_wait 1 1 ∷ []) ≡ 0)
in_turn_example =
    in_turn 2 false two_tickets [] (read_wait 1 1 ∷ []) 0 0 (omega arith) two-Reachable
      (omega arith)
