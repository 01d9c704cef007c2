-- ===== src/SpinRwlock/Turns.antt =====
-- delete-me/spinrwlock.hpp: the threads have the lock in the order of their tickets.
use akl.Base.{Bool, ℕ, ◌+◌, ◌<◌, ◌≤◌, ◌≡◌, refl, ◌∙◌, List, [], ◌∷◌, ◌++◌, arith}
use akl.Machine.Crew.{
  total, total-move, total_mono, total_mono_All, total-without, All, All-at, All-move, All-total,
  All_both, crew, total-crew_zero, total-crew_one, All-crew, Reachable, Reachable-invariant,
}
use akl.SpinRwlock.{
  Lock, construct, Place, outside, write_mark, writing, write_leave, read_pass, Move, passes_on,
  reads, rdunlock,
}
use akl.SpinRwlock.Tickets.{
  has, is_active, is_reading, IsInTurn, Inv, entered_after, left_after, waiting, Move-counts,
  Move-tickets, moved,
}

-- When a thread passes its ticket on, no other has the same.
abbrev Others : {l l' : Lock} {p q : Place} → ℕ → Move l p l' q → Place → Type 0
Others entered passes_on x = has entered x ≡ 0
Others entered reads x = has entered x ≡ 0
Others entered _ x = Unit

All-Unit : (ps : List Place) → All (λ _. Unit {0}) ps
All-Unit [] = tt
All-Unit (p ∷ ps) = (tt, All-Unit ps)

others :
    {entered left : ℕ} {l l' : Lock} {p q : Place} (before behind : List Place) (mv : Move l p l' q)
    → IsInTurn entered left p
    → Inv entered left l (before ++ p ∷ behind)
    → All (Others entered mv) (before ++ outside ∷ behind)
others {entered} before behind (passes_on {w} {r} {t}) i inv =
    All-total (has entered) (before ++ outside ∷ behind) (
      ground (
        arith,
        total-move (has entered) before (write_leave w r t) outside behind,
        inv.tickets entered,
      ))
others {entered} before behind (reads {r} {t}) i inv =
    All-total (has entered) (before ++ outside ∷ behind) (
      ground (
        arith,
        total-move (has entered) before (read_pass r t) outside behind,
        inv.tickets entered,
      ))
others before behind mv i inv = All-Unit (before ++ outside ∷ behind)

keeps :
    (entered left : ℕ) {l l' : Lock} {p q : Place} (mv : Move l p l' q) (x : Place)
    → left + is_reading p ≤ entered
    → IsInTurn entered left x × Others entered mv x
    → IsInTurn (entered_after entered mv) (left_after left mv) x
keeps entered left passes_on x lt (i, o) = ground arith
keeps entered left reads x lt (i, o) = ground arith
keeps entered left rdunlock x lt (i, o) = ground arith
keeps entered left mv x lt (i, o) = ground arith

is_reading-le-is_active : (p : Place) → is_reading p ≤ is_active p
is_reading-le-is_active p = ground arith

-- The invariant, with the tickets that have been let in and those that are done with.
record InTurn (l : Lock) (ps : List Place) : Type 0 where
  entered : ℕ
  left : ℕ
  inv : Inv entered left l ps

Move-Inv :
    (l l' : Lock) (p q : Place) (before behind : List Place)
    → InTurn l (before ++ p ∷ behind)
    → Move l p l' q
    → InTurn l' (before ++ q ∷ behind)
Move-Inv l l' p q before behind s mv =
    let e = s.entered in
    let f = s.left in
    let m = moved before behind p q in
    let i = All-at (IsInTurn e f) before p behind s.inv.turns in
    let (write, read, users, active, readers, turn) =
      Move-counts mv m (waiting p q m s.inv) i s.inv in
    let stay =
      All-move (IsInTurn e f) (IsInTurn e f) before p outside behind (λ x h. h) tt s.inv.turns in
    record {
      entered = entered_after e mv;
      left = left_after f mv;
      inv = record {
        few = omega (arith, s.inv.few, m.all);
        low = (write, read, users);
        active = active;
        readers = readers;
        ordered = omega (
          arith,
          readers,
          active,
          total_mono is_reading is_active is_reading-le-is_active (before ++ q ∷ behind),
        );
        tickets = λ t. Move-tickets mv t m i s.inv;
        turns =
            All-move (λ x. IsInTurn e f x × Others e mv x)
              (IsInTurn (entered_after e mv) (left_after f mv)) before outside q behind
              (λ x. keeps e f mv x (omega (arith, m.some_reading, s.inv.readers))) turn
              (All_both (IsInTurn e f) (Others e mv) (before ++ outside ∷ behind) stay
                (others before behind mv i s.inv));
      };
    }

construct-InTurn : (n : ℕ) (b : Bool) → n < 256 → InTurn (construct b) (crew n outside)
construct-InTurn n b few = record {
  entered = 0;
  left = 0;
  inv = record {
    few = omega (arith, total-crew_one {Place = Place} n outside);
    low = (refl, refl, refl);
    active = omega (arith, total-crew_zero is_active n outside refl);
    readers = omega (arith, total-crew_zero is_reading n outside refl);
    ordered = omega arith;
    tickets = λ t. total-crew_zero (has t) n outside refl ∙ ground arith;
    turns = All-crew (IsInTurn 0 0) n outside tt;
  };
}

-- A thread has the lock for writing: it has passed the loop of `writelock`.
abbrev pub is_writing : Place → ℕ
is_writing (write_mark _) = 1
is_writing (writing _) = 1
is_writing (write_leave _ _ _) = 1
is_writing _ = 0

is_writing-has :
    (entered left : ℕ) (x : Place) → IsInTurn entered left x → is_writing x ≤ has entered x
is_writing-has entered left x i = ground arith

-- Fewer than 256 threads that lock and unlock in any order. While one of them has the lock for writing
-- with ticket `t`, none of the others has it for writing or reading, and none has a ticket up to `t`:
-- all that took theirs before have had the lock and are done with it.
pub in_turn :
    (n : ℕ) (b : Bool) (l : Lock) (before behind : List Place) (t u : ℕ)
    → n < 256
    → Reachable Move (construct b) (crew n outside) l (before ++ writing t ∷ behind)
    → u ≤ t
    → (total is_writing (before ++ behind) ≡ 0)
      × (total is_reading (before ++ behind) ≡ 0)
      × (total (has u) (before ++ behind) ≡ 0)
in_turn n b l before behind t u few r h =
    let s = Reachable-invariant InTurn (construct-InTurn n b few) Move-Inv r in
    let e = s.entered in
    let ps = before ++ writing t ∷ behind in
    let (mine, alone) = All-at (IsInTurn e s.left) before (writing t) behind s.inv.turns in
    let writers =
      total_mono_All (IsInTurn e s.left) is_writing (has e) (is_writing-has e s.left) ps
        s.inv.turns in
    (
      ground (arith, total-without is_writing before (writing t) behind, writers, s.inv.tickets e),
      omega (arith, total-without is_reading before (writing t) behind, s.inv.readers, alone),
      ground (arith, total-without (has u) before (writing t) behind, s.inv.tickets u, mine),
    )
