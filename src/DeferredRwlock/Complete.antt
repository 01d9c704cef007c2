-- ===== src/DeferredRwlock/Complete.antt =====
-- `complete_rdlock`: it releases every reader of the queue, in order, and leaves the writers.
use akl.Base.{
  ℕ, ◌+◌, ◌<◌, ◌≡◌, ◌≢◌, refl, ◌∙◌, ap, true, false, List, [], ◌∷◌, ◌++◌, arith, ◌==◌, length,
  length-append, ==_of_ne,
}
use akl.DeferredRwlock.Memory.{Ptr, null, Lock, and_then, ok}
use akl.DeferredRwlock.Queue.{
  Cell, Linked, Distinct, start, last, last_cell, All, IsReader, IsWriter, readers, writers, has,
  has-last, has-ne, has-cons, Linked-append, has-two_of, ne_of_test,
}
use akl.DeferredRwlock.Append.{
  has-or, Parts, Distinct-Parts, Linked-parts, relink, last-ne_null, Linked-last,
}
use akl.DeferredRwlock.Steps.{Ends, ends, load_lem}
use akl.DeferredRwlock.Spec.{Released}
use akl.DeferredRwlock.Ops.{u16, split_loop, complete_rdlock}
use akl.DeferredRwlock.Prefix.{at_head, prefix_loop_lem, prefix_loop-All}
use akl.DeferredRwlock.Split.{Ready, Parted}

module _ (k : ℕ) (w : Lock) (r : Cell) (rs : List Cell) (l : Linked w.heap (r ∷ rs) null)
    (d : Distinct (r ∷ rs)) (a : All IsReader (r ∷ rs)) (h : length rs < k) where
  pub complete-all :
      Ends (Released (at_head w r.ptr) (r ∷ rs) (r ∷ rs) []) (complete_rdlock k (at_head w r.ptr))
  unfolding complete_rdlock
  complete-all =
      rw
        (
          load_lem (at_head w r.ptr) r (start rs null) d.0 l.0,
          prefix_loop-All k 1 w r rs l.1 d.2 a.1 h,
        )
        (ends (record {
          stop = null;
          released = refl;
          count = omega arith;
          readers_chain = l;
          head = refl;
          waiting = tt;
          tail = refl;
          reader_count = ap (λ n. u16 (w.reader_count + n)) (omega arith);
          writer = refl;
          spinner = refl;
          same = λ _ _. refl;
        }))

-- After the first loop, `q` being the head and `n` the readers behind the first.
abbrev pub counted : Lock → Ptr → ℕ → Lock
counted w q n = record w { head = q; reader_count = u16 (w.reader_count + (1 + n)) }

-- The queue is `r ∷ rs`, all readers, in front of the writer `lw` and what stands behind it.
module _ (k : ℕ) (w : Lock) (r : Cell) (rs : List Cell) (lw : Cell) (ys : List Cell)
    (l : Linked w.heap ((r ∷ rs) ++ lw ∷ ys) null) (d : Distinct ((r ∷ rs) ++ lw ∷ ys))
    (a : All IsReader (r ∷ rs)) (wr : IsWriter lw) (h : length rs < k) where
  -- What the method does after the first loop.
  pub complete-from :
      complete_rdlock k (at_head w r.ptr)
      ≡ and_then
          (split_loop k lw.ptr
            (start ys null)
            (last r rs)
            (1 + length rs)
            (counted w lw.ptr (length rs)))
          (λ n v. ok (r.ptr, n) v)
  unfolding complete_rdlock
  complete-from =
      let back = (Distinct-Parts (r ∷ rs) (lw ∷ ys) d).back in
      let chain = (Linked-parts w.heap (r ∷ rs) (lw ∷ ys) null l).1 in
      let there : (lw.ptr == null) ≡ false = ==_of_ne lw.ptr null back.0 in
      rw (
        load_lem (at_head w r.ptr) r (start (rs ++ lw ∷ ys) null) d.0 l.0,
        prefix_loop_lem k 1 w r rs (lw ∷ ys) l.1 d.2 a.1 wr h,
        there,
        there,
        load_lem (counted w lw.ptr (length rs)) lw (start ys null) back.0 chain.0,
      )

module _ (w : Lock) (r : Cell) (rs : List Cell) (lw x : Cell) (ys : List Cell)
    (l : Linked w.heap ((r ∷ rs) ++ lw ∷ x ∷ ys) null)
    (d : Distinct ((r ∷ rs) ++ lw ∷ x ∷ ys)) where
  parts : Parts (r ∷ rs) (lw ∷ x ∷ ys)
  parts = Distinct-Parts (r ∷ rs) (lw ∷ x ∷ ys) d

  links : Linked w.heap (r ∷ rs) lw.ptr × Linked w.heap (lw ∷ x ∷ ys) null
  links = Linked-parts w.heap (r ∷ rs) (lw ∷ x ∷ ys) null l

  rt_out : (last r rs ≢ lw.ptr) × (has (last r rs) (x ∷ ys) ≡ false)
  rt_out = has-cons (last r rs) lw (x ∷ ys) (parts.apart (last r rs) (has-last r rs))

  pub complete-Ready :
      w.tail ≡ last x ys → Ready (counted w lw.ptr (length rs)) lw (last_cell r rs) x ys lw.ptr
  complete-Ready t = record {
    writer_there = parts.back.0;
    reader_there = last-ne_null r rs parts.front;
    apart = rt_out.0;
    writer_out = parts.back.1;
    reader_out = rt_out.1;
    distinct = parts.back.2;
    writer_holds = links.1.0;
    reader_holds = Linked-last w.heap r rs lw.ptr links.0;
    chain = links.1.1;
    tail = t;
    count_lt = omega arith;
  }

  module _ {n : ℕ} {v : Lock}
      (p : Parted
        (counted w lw.ptr (length rs))
        (1 + length rs)
        lw
        (last_cell r rs)
        (x ∷ ys)
        n
        v) where
    abbrev pub rd : List Cell
    rd = readers (x ∷ ys)

    front_same : (a : Ptr) → has a (r ∷ rs) ≡ true → a ≢ last r rs → v.heap a ≡ w.heap a
    front_same a i ne =
        let (al, a_out) = has-cons a lw (x ∷ ys) (parts.apart a i) in
        p.same a (has-two_of a lw (last_cell r rs) (x ∷ ys) al ne a_out)

    pub complete-Released :
        Released
          (at_head w r.ptr)
          ((r ∷ rs) ++ lw ∷ x ∷ ys)
          ((r ∷ rs) ++ rd)
          (lw ∷ writers (x ∷ ys))
          (r.ptr, n)
          v
    complete-Released = record {
      stop = p.stop;
      released = refl;
      count = omega (arith, p.count, length-append rs rd);
      readers_chain =
          Linked-append v.heap (r ∷ rs) rd p.stop
            (relink w.heap v.heap r rs lw.ptr (start rd p.stop) links.0 parts.front front_same
              p.reader_holds)
            p.released;
      head = p.head;
      waiting = (p.writer_holds, p.waiting);
      tail = p.tail;
      reader_count = p.reader_count ∙ omega (arith, length-append rs rd);
      writer = p.writer;
      spinner = p.spinner;
      same = λ a o.
          let (out_front, out_back) = has-or a (r ∷ rs) (lw ∷ x ∷ ys) o in
          let (al, a_out) = has-cons a lw (x ∷ ys) out_back in
          let ne =
            ne_of_test a (last r rs) (has-ne a (last r rs) (r ∷ rs) out_front (has-last r rs)) in
          p.same a (has-two_of a lw (last_cell r rs) (x ∷ ys) al ne a_out);
    }
