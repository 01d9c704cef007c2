-- ===== src/DeferredRwlock/Spec.antt =====
-- What the queue of the lock holds, and what `complete_rdlock` is to make of it.
use akl.Base.{ℕ, ◌+◌, ◌≡◌, List, [], ◌∷◌, length}
use akl.DeferredRwlock.Memory.{Ptr, null, Lock}
use akl.DeferredRwlock.Queue.{Cell, Linked, Distinct, start, last, readers, writers, SameOutside}
use akl.DeferredRwlock.Ops.{u16}

abbrev pub IsTail : Ptr → List Cell → Type 0
IsTail t [] = t ≡ null
IsTail t (x ∷ xs) = t ≡ last x xs

-- The lock's queue holds the requests `xs`.
pub record IsQueue (w : Lock) (xs : List Cell) : Type 0 where
  pub head : w.head ≡ start xs null
  pub chain : Linked w.heap xs null
  pub distinct : Distinct xs
  pub tail : IsTail w.tail xs

-- `tail` is reset when no writer is left, and is not moved when some are.
abbrev pub kept_tail : List Cell → Ptr → Ptr
kept_tail [] t = null
kept_tail (_ ∷ _) t = t

-- The requests `rd` of the queue `xs` have been released, as a chain from the first result, as long
-- as the second says; the requests `wr` are the queue, but for `tail`.
pub record Released (w : Lock) (xs rd wr : List Cell) (out : Ptr × ℕ) (v : Lock) : Type 0 where
  pub stop : Ptr
  pub released : out.0 ≡ start rd stop
  pub count : out.1 ≡ length rd
  pub readers_chain : Linked v.heap rd stop
  pub head : v.head ≡ start wr null
  pub waiting : Linked v.heap wr null
  pub tail : v.tail ≡ kept_tail wr w.tail
  pub reader_count : v.reader_count ≡ u16 (w.reader_count + length rd)
  pub writer : v.writer ≡ w.writer
  pub spinner : v.spinner ≡ w.spinner
  pub same : SameOutside xs w.heap v.heap

-- All readers have, and the writers are.
abbrev pub Completed : Lock → List Cell → Ptr × ℕ → Lock → Type 0
Completed w xs = Released w xs (readers xs) (writers xs)
