-- ===== src/DeferredRwlock/SplitLoop.antt =====
-- The second loop of `complete_rdlock` ends within a round for each cell, and parts them.
use akl.Base.{
  ◌∙◌, ℕ, zero, suc, ◌+◌, ◌<◌, ◌≡◌, sym, true, List, [], ◌∷◌, arith, ◌==◌, inl, inr, Bool-cases,
  length, ==_refl,
}
use akl.DeferredRwlock.Memory.{Ptr, null, request, Lock, ok, load}
use akl.DeferredRwlock.Queue.{Cell, Holds, is_write, has-cons, write-write_ne}
use akl.DeferredRwlock.Steps.{Ends, ends, Ends-mono, load_lem, moved, release_reader_lem}
use akl.DeferredRwlock.Ops.{split_loop, release_reader}
use akl.DeferredRwlock.Split.{
  Ready, Parted, goes_on, Ready-pass, Ready-moved, Parted-pass, Parted-moved, Parted-last_writer,
  Parted-last_reader,
}

-- The step for a reader, as far as the test for the last cell.
module _ {w : Lock} {lw rt x : Cell} {ys : List Cell} {old : Ptr} (r : Ready w lw rt x ys old)
    (q : Ptr) (hx : Holds w.heap x q) where
  release : release_reader lw.ptr x.ptr rt.ptr w ≡ ok tt (moved w lw rt x q)
  release =
      release_reader_lem w lw rt x x.ptr old q r.reader_there r.writer_there r.distinct.0 r.apart
        (has-cons rt.ptr x ys r.reader_out).0 r.writer_holds r.reader_holds hx

  reload : load x.ptr (moved w lw rt x q) ≡ ok (request x.class x.id q) (moved w lw rt x q)
  reload = load_lem (moved w lw rt x q) x q r.distinct.0 (
      write-write_ne w.heap x.ptr rt.ptr lw.ptr (request rt.class rt.id x.ptr)
        (request lw.class lw.id q) (λ e. (has-cons rt.ptr x ys r.reader_out).0 (sym e))
        (λ e. (has-cons lw.ptr x ys r.writer_out).0 (sym e))
      ∙ hx)

pub split_loop_lem :
    (k n : ℕ) (w : Lock) (lw rt x : Cell) (ys : List Cell) (old : Ptr)
    → Ready w lw rt x ys old
    → length ys < k
    → Ends (Parted w n lw rt (x ∷ ys)) (split_loop k lw.ptr x.ptr rt.ptr n w)
unfolding split_loop
split_loop_lem zero n w lw rt x ys old r h = absurd (omega arith)
split_loop_lem (suc k) n w lw rt x [] old r h =
    let stops : (x.ptr == w.tail) ≡ true = rw r.tail (==_refl x.ptr) in
    elim (Bool-cases (is_write x)) [
      | inl wr ↦
          rw (load_lem w x null r.distinct.0 r.chain.0, wr, stops)
            (ends (Parted-last_writer r n wr))
      | inr rd ↦
          rw
            (
              load_lem w x null r.distinct.0 r.chain.0,
              rd,
              release r null r.chain.0,
              reload r null r.chain.0,
              stops,
            )
            (ends (Parted-last_reader r n rd))
    ]
split_loop_lem (suc k) n w lw rt x (y ∷ ys) old r h = elim (Bool-cases (is_write x)) [
  | inl wr ↦
      rw (load_lem w x y.ptr r.distinct.0 r.chain.0, wr, goes_on r)
        (Ends-mono (split_loop_lem k n w x rt y ys old (Ready-pass r) (omega arith))
          (λ out v p. Parted-pass r wr p))
  | inr rd ↦
      rw
        (
          load_lem w x y.ptr r.distinct.0 r.chain.0,
          rd,
          release r y.ptr r.chain.0,
          reload r y.ptr r.chain.0,
          goes_on r,
        )
        (Ends-mono
          (split_loop_lem k (n + 1) (moved w lw rt x y.ptr) lw x y ys y.ptr (Ready-moved r)
            (omega arith))
          (λ out v p. Parted-moved r rd p))
]
