-- ===== src/LockfreePushBack/Exclusion.antt =====
-- delete-me/lockfree_push_back.hpp: the thread that resizes the container is alone with it.
use akl.Base.{
  ℕ, ◌+◌, ◌*◌, ◌/◌, ◌%◌, ◌<◌, ◌≤◌, ◌≡◌, ◌⊎◌, inl, refl, List, ◌∷◌, ◌++◌, arith, true, false,
  if◌then◌else◌,
}
use akl.Machine.Crew.{
  total, total-move, total-at, total_mono, one, All, All-at, All-move, crew, total-crew_zero,
  total-crew_one, All-crew, Reachable, Reachable-invariant,
}
use akl.LockfreePushBack.{
  Container, max_ref, is_open, Vector, construct, Place, outside, swap, test, store, grow, flag,
  drain, resize, fill, unlock, read, leave, Move, sees_count, swaps, drained, is_locked, locks,
}

module _ {T : Type 0} where
  -- A thread has a reference.
  abbrev pub refs : Place T → ℕ
  refs (test _) = 1
  refs (store _ _) = 1
  refs (grow _) = 1
  refs (read _) = 1
  refs leave = 1
  refs _ = 0

  -- It has set the flag.
  abbrev pub flags_set : Place T → ℕ
  flags_set (drain _) = 1
  flags_set (resize _) = 1
  flags_set (fill _ _) = 1
  flags_set _ = 0

  -- It resizes the container, or stores afterwards.
  abbrev pub resizing : Place T → ℕ
  resizing (resize _) = 1
  resizing (fill _ _) = 1
  resizing _ = 0

  -- It has the mutex.
  abbrev pub has_mutex : Place T → ℕ
  has_mutex (flag _) = 1
  has_mutex (drain _) = 1
  has_mutex (resize _) = 1
  has_mutex (fill _ _) = 1
  has_mutex unlock = 1
  has_mutex _ = 0

  -- The count that a thread is to exchange had no flag.
  abbrev pub IsOpen : Place T → Type 0
  IsOpen (swap _ curref) = curref / max_ref % 2 ≡ 0
  IsOpen _ = Unit

  flags_set-le-has_mutex : (p : Place T) → flags_set p ≤ has_mutex p
  flags_set-le-has_mutex p = ground arith

  refs-le-one : (p : Place T) → refs p ≤ 1
  refs-le-one p = ground arith

  resizing-le-flags_set : (p : Place T) → resizing p ≤ flags_set p
  resizing-le-flags_set p = ground arith

module _ {C T : Type 0} where
  pub record Inv (m : Vector C T) (ps : List (Place T)) : Type 0 where
    pub few : total one ps < max_ref
    pub count : m.reference_count ≡ total refs ps + max_ref * total flags_set ps
    pub mutex : total has_mutex ps ≡ (if m.mut then 1 else 0)
    pub excl : (total resizing ps ≡ 0) ⊎ (total refs ps ≡ 0)
    pub opened : All IsOpen ps

module _ {T : Type 0} where
  -- The totals before and after a move.
  record Moved (ps qs : List (Place T)) (p q : Place T) : Type 0 where
    all : total one qs ≡ total one ps
    ref : total refs qs + refs p ≡ total refs ps + refs q
    flagged : total flags_set qs + flags_set p ≡ total flags_set ps + flags_set q
    growing : total resizing qs + resizing p ≡ total resizing ps + resizing q
    locked : total has_mutex qs + has_mutex p ≡ total has_mutex ps + has_mutex q
    few_refs : total refs ps ≤ total one ps
    few_refs_after : total refs qs ≤ total one qs
    few_flags : total flags_set ps ≤ total has_mutex ps
    few_flags_after : total flags_set qs ≤ total has_mutex qs
    some_refs : refs p ≤ total refs ps
    some_flags : flags_set p ≤ total flags_set ps
    some_mutex : has_mutex p ≤ total has_mutex ps
    few_alone : total resizing ps ≤ total flags_set ps

  moved :
      (before behind : List (Place T)) (p q : Place T)
      → Moved (before ++ p ∷ behind) (before ++ q ∷ behind) p q
  moved before behind p q = record {
    all = omega (arith, total-move one before p q behind);
    ref = total-move refs before p q behind;
    flagged = total-move flags_set before p q behind;
    growing = total-move resizing before p q behind;
    locked = total-move has_mutex before p q behind;
    few_refs = total_mono refs one refs-le-one (before ++ p ∷ behind);
    few_refs_after = total_mono refs one refs-le-one (before ++ q ∷ behind);
    few_flags = total_mono flags_set has_mutex flags_set-le-has_mutex (before ++ p ∷ behind);
    few_flags_after = total_mono flags_set has_mutex flags_set-le-has_mutex (before ++ q ∷ behind);
    some_refs = total-at refs before p behind;
    some_flags = total-at flags_set before p behind;
    some_mutex = total-at has_mutex before p behind;
    few_alone = total_mono resizing flags_set resizing-le-flags_set (before ++ p ∷ behind);
  }

module _ {C T : Type 0} (vector : Container C T) (scaled : ℕ → ℕ) where
  -- What a move tells of the memory.
  abbrev Guard : {m n : Vector C T} {p q : Place T} → Move vector scaled m p n q → Type 0
  Guard {m} (sees_count _) = is_open m.reference_count ≡ true
  Guard {m} (drained _) = m.reference_count % max_ref ≡ 0
  Guard {m} (is_locked _) = m.mut ≡ true
  Guard {m} (locks _) = m.mut ≡ false
  Guard _ = Unit

  guard : {m n : Vector C T} {p q : Place T} (mv : Move vector scaled m p n q) → Guard mv
  guard (sees_count h) = h
  guard (drained h) = h
  guard (is_locked h) = h
  guard (locks h) = h
  guard _ = tt

  Move-counts :
      {m n : Vector C T} {p q : Place T} {ps qs : List (Place T)}
      → Move vector scaled m p n q
      → IsOpen p
      → Moved ps qs p q
      → Inv m ps
      → (n.reference_count ≡ total refs qs + max_ref * total flags_set qs)
        × (total has_mutex qs ≡ (if n.mut then 1 else 0))
        × ((total resizing qs ≡ 0) ⊎ (total refs qs ≡ 0))
  Move-counts swaps f m inv = ground arith
  Move-counts mv f m inv = ground (arith, guard mv)

  Move-IsOpen : {m n : Vector C T} {p q : Place T} → Move vector scaled m p n q → IsOpen q
  Move-IsOpen swaps = tt
  Move-IsOpen mv = ground (arith, guard mv)

  Move-Inv :
      (m n : Vector C T) (p q : Place T) (before behind : List (Place T))
      → Inv m (before ++ p ∷ behind)
      → Move vector scaled m p n q
      → Inv n (before ++ q ∷ behind)
  Move-Inv m n p q before behind inv mv =
      let totals = moved before behind p q in
      let o = All-at IsOpen before p behind inv.opened in
      let (count, mutex, excl) = Move-counts mv o totals inv in
      record {
        few = omega (arith, inv.few, totals.all);
        count = count;
        mutex = mutex;
        excl = excl;
        opened = All-move IsOpen IsOpen before p q behind (λ x h. h) (Move-IsOpen mv) inv.opened;
      }

  Inv-construct :
      (n : ℕ) (c : C) (startidx : ℕ) (old : List T)
      → n < max_ref
      → Inv (construct c startidx old) (crew n outside)
  Inv-construct n c startidx old few = record {
    few = omega (arith, total-crew_one {Place = Place T} n outside);
    count = omega (
      arith,
      total-crew_zero {Place = Place T} refs n outside refl,
      total-crew_zero {Place = Place T} flags_set n outside refl,
    );
    mutex = total-crew_zero has_mutex n outside refl;
    excl = inl (total-crew_zero resizing n outside refl);
    opened = All-crew IsOpen n outside tt;
  }

  -- Fewer than 65536 threads that push and query in any order: at most one resizes the container or
  -- stores after a resize, and while one does, no thread has a reference: none stores or reads an
  -- element of the container. The reference count is the number of the references, plus 65536 if
  -- the flag is set.
  pub alone :
      (n : ℕ) (c : C) (startidx : ℕ) (old : List T) (m : Vector C T) (ps : List (Place T))
      → n < max_ref
      → Reachable (Move vector scaled) (construct c startidx old) (crew n outside) m ps
      → (total resizing ps ≤ 1)
        × ((total resizing ps ≡ 0) ⊎ (total refs ps ≡ 0))
        × (total flags_set ps ≤ 1)
        × (m.reference_count ≡ total refs ps + max_ref * total flags_set ps)
  alone n c startidx old m ps few r =
      let inv = Reachable-invariant Inv (Inv-construct n c startidx old few) Move-Inv r in
      let flagged : total flags_set ps ≤ 1 =
        ground (arith, inv.mutex, total_mono flags_set has_mutex flags_set-le-has_mutex ps) in
      (
        omega (arith, flagged, total_mono resizing flags_set resizing-le-flags_set ps),
        inv.excl,
        flagged,
        inv.count,
      )
