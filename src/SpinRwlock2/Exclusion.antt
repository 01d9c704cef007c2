-- ===== src/SpinRwlock2/Exclusion.antt =====
-- delete-me/spinrwlock2.hpp: writers exclude each other and readers.
use akl.Base.{ℕ, ◌+◌, ◌*◌, ◌%◌, ◌^◌, ◌<◌, ◌≤◌, ◌≡◌, ◌≢◌, ◌⊎◌, inl, refl, List, ◌∷◌, ◌++◌, arith}
use akl.Machine.Crew.{
  total, total-move, total-at, total_mono, one, All, All-at, All-move, crew, total-crew_zero,
  total-crew_one, All-crew, Reachable, Reachable-invariant,
}
use akl.SpinRwlock2.{
  construct, Place, outside, exchange, writing, undo, reading, Move, exchanges, reads, too_late,
  sees_none,
}

abbrev pub writes : Place → ℕ
writes writing = 1
writes _ = 0

abbrev pub holds_read : Place → ℕ
holds_read reading = 1
holds_read _ = 0

-- A reader that has added to the word, for good or not.
abbrev pub adds : Place → ℕ
adds reading = 1
adds undo = 1
adds _ = 0

-- The word that a writer is to exchange has no readers and no writer.
abbrev pub IsFresh : Place → Type 0
IsFresh (exchange state) = state < 2
IsFresh _ = Unit

pub record Inv (l : ℕ) (ps : List Place) : Type 0 where
  pub few : total one ps < 2 ^ 29
  pub word : l ≡ l % 2 + 2 * total writes ps + 4 * total adds ps
  pub writer : total writes ps ≤ 1
  pub excl : (total writes ps ≡ 0) ⊎ (total holds_read ps ≡ 0)
  pub fresh : All IsFresh ps

-- What a move tells of the place left.
abbrev Guard : {l l' : ℕ} {p q : Place} → Move l p l' q → Type 0
Guard {l} (sees_none _) = l < 2
Guard {l} (reads _) = l % 4 ≡ 0
Guard {l} (too_late _) = l % 4 ≢ 0
Guard _ = Unit

guard : {l l' : ℕ} {p q : Place} (mv : Move l p l' q) → Guard mv
guard (sees_none h) = h
guard (reads h) = h
guard (too_late h) = h
guard _ = tt

-- The totals before and after a move.
record Moved (ps qs : List Place) (p q : Place) : Type 0 where
  all : total one qs ≡ total one ps
  written : total writes qs + writes p ≡ total writes ps + writes q
  read : total holds_read qs + holds_read p ≡ total holds_read ps + holds_read q
  added : total adds qs + adds p ≡ total adds ps + adds q
  few_added : total adds qs ≤ total one qs
  some_added : adds p ≤ total adds ps
  some_written : writes p ≤ total writes ps
  read_added : total holds_read ps ≤ total adds ps

holds_read-le-adds : (p : Place) → holds_read p ≤ adds p
holds_read-le-adds p = ground arith

adds-le-one : (p : Place) → adds p ≤ 1
adds-le-one p = ground arith

moved :
    (before behind : List Place) (p q : Place)
    → Moved (before ++ p ∷ behind) (before ++ q ∷ behind) p q
moved before behind p q = record {
  all = omega (arith, total-move one before p q behind);
  written = total-move writes before p q behind;
  read = total-move holds_read before p q behind;
  added = total-move adds before p q behind;
  few_added = total_mono adds one adds-le-one (before ++ q ∷ behind);
  some_added = total-at adds before p behind;
  some_written = total-at writes before p behind;
  read_added = total_mono holds_read adds holds_read-le-adds (before ++ p ∷ behind);
}

Move-counts :
    {l l' : ℕ} {p q : Place} {ps qs : List Place}
    → Move l p l' q
    → IsFresh p
    → Moved ps qs p q
    → Inv l ps
    → (l' ≡ l' % 2 + 2 * total writes qs + 4 * total adds qs)
      × (total writes qs ≤ 1)
      × ((total writes qs ≡ 0) ⊎ (total holds_read qs ≡ 0))
Move-counts exchanges f m inv = ground arith
Move-counts mv f m inv = ground (arith, guard mv)

Move-IsFresh : {l l' : ℕ} {p q : Place} → Move l p l' q → IsFresh q
Move-IsFresh exchanges = tt
Move-IsFresh mv = ground (arith, guard mv)

Move-Inv :
    (l l' : ℕ) (p q : Place) (before behind : List Place)
    → Inv l (before ++ p ∷ behind)
    → Move l p l' q
    → Inv l' (before ++ q ∷ behind)
Move-Inv l l' p q before behind inv mv =
    let m = moved before behind p q in
    let f = All-at IsFresh before p behind inv.fresh in
    let (word, writer, excl) = Move-counts mv f m inv in
    record {
      few = omega (arith, inv.few, m.all);
      word = word;
      writer = writer;
      excl = excl;
      fresh = All-move IsFresh IsFresh before p q behind (λ x h. h) (Move-IsFresh mv) inv.fresh;
    }

Inv-construct : (n : ℕ) → n < 2 ^ 29 → Inv construct (crew n outside)
Inv-construct n few = record {
  few = omega (arith, total-crew_one n outside);
  word = omega (arith, total-crew_zero writes n outside refl, total-crew_zero adds n outside refl);
  writer = omega (arith, total-crew_zero writes n outside refl);
  excl = inl (total-crew_zero writes n outside refl);
  fresh = All-crew IsFresh n outside tt;
}

-- Fewer than 2 ^ 29 threads that lock and unlock in any order: at most one has the lock for writing,
-- and while one has, none has it for reading. Apart from its lowest bit, the word is twice the number
-- of writers that have the lock plus four times the number of readers that have added to it.
pub exclusion :
    (n l : ℕ) (ps : List Place)
    → n < 2 ^ 29
    → Reachable Move construct (crew n outside) l ps
    → (total writes ps ≤ 1)
      × ((total writes ps ≡ 0) ⊎ (total holds_read ps ≡ 0))
      × (l ≡ l % 2 + 2 * total writes ps + 4 * total adds ps)
exclusion n l ps few r =
    let inv = Reachable-invariant Inv (Inv-construct n few) Move-Inv r in
    (inv.writer, inv.excl, inv.word)
