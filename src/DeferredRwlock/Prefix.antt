-- ===== src/DeferredRwlock/Prefix.antt =====
-- The first loop of `complete_rdlock` goes over the readers at the head of the queue.
use akl.Base.{
  ℕ, zero, suc, ◌+◌, ◌<◌, ◌≡◌, true, false, List, [], ◌∷◌, ◌++◌, arith, ◌==◌, length, ap,
}
use mathlib.Core.List.{append-nil}
use mathlib.Core.Path.{subst, sym}
use akl.DeferredRwlock.Memory.{Ptr, null, request_read, Lock, ok}
use akl.DeferredRwlock.Queue.{Cell, Linked, Distinct, start, last, All, IsReader, IsWriter}
use akl.DeferredRwlock.Steps.{load_lem}
use akl.DeferredRwlock.Ops.{prefix_loop}

abbrev pub at_head : Lock → Ptr → Lock
at_head w p = record w { head = p }

-- A queue behind the readers at its head.
abbrev pub Stops : List Cell → Type 0
Stops [] = Unit
Stops (x ∷ xs) = IsWriter x

pub prefix_loop_lem :
    (k n : ℕ) (w : Lock) (r : Cell) (rs xs : List Cell)
    → Linked w.heap (rs ++ xs) null
    → Distinct (rs ++ xs)
    → All IsReader rs
    → Stops xs
    → length rs < k
    → prefix_loop k r.ptr n (at_head w (start (rs ++ xs) null))
      ≡ ok (last r rs, n + length rs) (at_head w (start xs null))
unfolding prefix_loop
prefix_loop_lem zero n w r rs xs l d a s h = absurd (omega arith)
prefix_loop_lem (suc k) n w r [] [] l d a s h =
    ap (λ m. ok (r.ptr, m) (at_head w null)) (omega arith)
prefix_loop_lem (suc k) n w r [] (x ∷ xs) l d a s h =
    let there : (x.ptr == null) ≡ false = ground arith in
    let stop : (x.class == request_read) ≡ false = ground arith in
    rw (there, load_lem (at_head w x.ptr) x (start xs null) d.0 l.0, stop)
      (ap (λ m. ok (r.ptr, m) (at_head w x.ptr)) (omega arith))
prefix_loop_lem (suc k) n w r (y ∷ ys) xs l d a s h =
    let there : (y.ptr == null) ≡ false = ground arith in
    let go : (y.class == request_read) ≡ true = ground arith in
    rw
      (
        there,
        load_lem (at_head w y.ptr) y (start (ys ++ xs) null) d.0 l.0,
        go,
        prefix_loop_lem k (n + 1) w y ys xs l.1 d.2 a.1 s (omega arith),
      )
      (ap (λ m. ok (last y ys, m) (at_head w (start xs null))) (omega arith))

-- The same, where no writer waits.
pub prefix_loop-All :
    (k n : ℕ) (w : Lock) (r : Cell) (rs : List Cell)
    → Linked w.heap rs null
    → Distinct rs
    → All IsReader rs
    → length rs < k
    → prefix_loop k r.ptr n (at_head w (start rs null))
      ≡ ok (last r rs, n + length rs) (at_head w null)
prefix_loop-All k n w r rs l d a h =
    let e = append-nil rs in
    subst
      (λ xs.
        prefix_loop k r.ptr n (at_head w (start xs null))
        ≡ ok (last r rs, n + length rs) (at_head w null))
      e
      (prefix_loop_lem k n w r rs [] (subst (λ xs. Linked w.heap xs null) (sym e) l)
        (subst (λ xs. Distinct xs) (sym e) d) a tt h)
