-- ===== src/SpinRwlock/Tickets.antt =====
-- delete-me/spinrwlock.hpp: the tickets that the threads have.
use akl.Base.{
  ℕ, ◌+◌, ◌%◌, ◌^◌, ◌<◌, ◌≤◌, ◌≡◌, List, ◌∷◌, ◌++◌, arith, ◌&&◌, if◌then◌else◌, ◌==◌, ltb, leb,
}
use akl.Machine.Crew.{total, total-move, total-at, total_mono, one, All}
use akl.SpinRwlock.{
  Lock, Place, outside, write_wait, write_mark, writing, write_leave, write_unmark, read_wait,
  read_enter, read_pass, reading, Move, calls_writelock, sees_turn, passes_on, reads, rdunlock,
}

-- Whether a thread has ticket `t` and has not passed it on.
abbrev pub has : ℕ → Place → ℕ
has t (write_wait _ u) = if u == t then 1 else 0
has t (write_mark u) = if u == t then 1 else 0
has t (writing u) = if u == t then 1 else 0
has t (write_leave _ _ u) = if u == t then 1 else 0
has t (read_wait _ u) = if u == t then 1 else 0
has t (read_enter u) = if u == t then 1 else 0
has t (read_pass _ u) = if u == t then 1 else 0
has t _ = 0

abbrev pub is_active : Place → ℕ
is_active outside = 0
is_active write_unmark = 0
is_active _ = 1

abbrev pub is_reading : Place → ℕ
is_reading reading = 1
is_reading _ = 0

-- The tickets that have been let in and those that are done with: a thread that is let in and has not
-- passed its ticket on has the first one that has not been let in, and a writer is alone.
abbrev pub IsInTurn : (entered left : ℕ) → Place → Type 0
IsInTurn entered left (write_wait v t) = v ≡ t % 256
IsInTurn entered left (write_mark t) = (t ≡ entered) × (entered ≡ left)
IsInTurn entered left (writing t) = (t ≡ entered) × (entered ≡ left)
IsInTurn entered left (write_leave w r t) =
    (t ≡ entered) × (entered ≡ left) × (w ≡ (entered + 1) % 256) × (r ≡ (entered + 1) % 256)
IsInTurn entered left (read_wait v t) = v ≡ t % 256
IsInTurn entered left (read_enter t) = t ≡ entered
IsInTurn entered left (read_pass r t) = (t ≡ entered) × (r ≡ (entered + 1) % 256)
IsInTurn entered left _ = Unit

pub record Inv (entered left : ℕ) (l : Lock) (ps : List Place) : Type 0 where
  pub few : total one ps < 256
  pub low : (l.write ≡ left % 256) × (l.read ≡ entered % 256) × (l.users ≡ l.taken % 2 ^ 16)
  pub active : l.taken ≡ left + total is_active ps
  pub readers : entered ≡ left + total is_reading ps
  pub ordered : entered ≤ l.taken
  pub tickets : (t : ℕ) → total (has t) ps ≡ (if leb entered t && ltb t l.taken then 1 else 0)
  pub turns : All (IsInTurn entered left) ps

-- The counters after a move.
abbrev pub entered_after : {l l' : Lock} {p q : Place} → ℕ → Move l p l' q → ℕ
entered_after entered passes_on = entered + 1
entered_after entered reads = entered + 1
entered_after entered _ = entered

abbrev pub left_after : {l l' : Lock} {p q : Place} → ℕ → Move l p l' q → ℕ
left_after left passes_on = left + 1
left_after left rdunlock = left + 1
left_after left _ = left

is_active-le-one : (p : Place) → is_active p ≤ 1
is_active-le-one p = ground arith

pub record Moved (ps qs : List Place) (p q : Place) : Type 0 where
  pub all : total one qs ≡ total one ps
  pub act : total is_active qs + is_active p ≡ total is_active ps + is_active q
  pub act_few : total is_active ps ≤ total one ps
  pub rd : total is_reading qs + is_reading p ≡ total is_reading ps + is_reading q
  pub some_reading : is_reading p ≤ total is_reading ps
  pub own : (t : ℕ) → has t p ≤ total (has t) ps
  pub tick : (t : ℕ) → total (has t) qs + has t p ≡ total (has t) ps + has t q

-- The ticket of the thread that moves is one of those that wait.
abbrev pub Waiting : Place → ℕ → ℕ → Type 0
Waiting (write_wait _ t) entered taken = (entered ≤ t) × (t < taken)
Waiting (read_wait _ t) entered taken = (entered ≤ t) × (t < taken)
Waiting _ entered taken = Unit

pub waiting :
    {entered left : ℕ} {l : Lock} {ps qs : List Place} (p q : Place)
    → Moved ps qs p q
    → Inv entered left l ps
    → Waiting p entered l.taken
waiting (write_wait v t) q m inv = ground (arith, m.own t, inv.tickets t)
waiting (read_wait v t) q m inv = ground (arith, m.own t, inv.tickets t)
waiting outside q m inv = tt
waiting (write_mark _) q m inv = tt
waiting write_unmark q m inv = tt
waiting (writing _) q m inv = tt
waiting (write_leave _ _ _) q m inv = tt
waiting (read_enter _) q m inv = tt
waiting (read_pass _ _) q m inv = tt
waiting reading q m inv = tt

pub Move-counts :
    {entered left : ℕ} {l l' : Lock} {p q : Place} {ps qs : List Place} (mv : Move l p l' q)
    → Moved ps qs p q
    → Waiting p entered l.taken
    → IsInTurn entered left p
    → Inv entered left l ps
    → (l'.write ≡ left_after left mv % 256)
      × (l'.read ≡ entered_after entered mv % 256)
      × (l'.users ≡ l'.taken % 2 ^ 16)
      × (l'.taken ≡ left_after left mv + total is_active qs)
      × (entered_after entered mv ≡ left_after left mv + total is_reading qs)
      × IsInTurn (entered_after entered mv) (left_after left mv) q
Move-counts sees_turn m w i inv = ground arith
Move-counts mv m w i inv = ground arith

-- The ticket of a thread that passes it on, or takes one.
pub Move-tickets :
    {entered left : ℕ} {l l' : Lock} {p q : Place} {ps qs : List Place} (mv : Move l p l' q) (t : ℕ)
    → Moved ps qs p q
    → IsInTurn entered left p
    → Inv entered left l ps
    → total (has t) qs ≡ (if leb (entered_after entered mv) t && ltb t l'.taken then 1 else 0)
Move-tickets calls_writelock t m i inv = ground (arith, m.tick t, inv.tickets t)
Move-tickets mv t m i inv = ground (arith, m.tick t, m.own t, inv.tickets t)

pub moved :
    (before behind : List Place) (p q : Place)
    → Moved (before ++ p ∷ behind) (before ++ q ∷ behind) p q
moved before behind p q = record {
  all = omega (arith, total-move one before p q behind);
  act = total-move is_active before p q behind;
  act_few = total_mono is_active one is_active-le-one (before ++ p ∷ behind);
  rd = total-move is_reading before p q behind;
  some_reading = total-at is_reading before p behind;
  own = λ t. total-at (has t) before p behind;
  tick = λ t. total-move (has t) before p q behind;
}
