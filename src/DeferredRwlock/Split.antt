-- ===== src/DeferredRwlock/Split.antt =====
-- The second loop of `complete_rdlock` parts the cells behind a writer: the readers go behind
-- `readertail`, and the writers stay.
use akl.Base.{
  sym, ◌∙◌, ℕ, ◌+◌, ◌<◌, ◌≡◌, ◌≢◌, refl, true, false, List, [], ◌∷◌, arith, ◌==◌, length, ◌^◌,
}
use akl.DeferredRwlock.Memory.{Ptr, null, request, Lock, write}
use akl.DeferredRwlock.Queue.{
  has-cons, has-two_of, has-three, write-write_self, has-ne, write_self, write-write_ne,
  Linked-write_write, Cell, Holds, Linked, Distinct, has, start, last, is_write, readers, writers,
  has-last, SameOutside,
}
use akl.DeferredRwlock.Steps.{moved}
use akl.DeferredRwlock.Ops.{u16}

-- The loop is about to look at `x`, which stands in front of `ys`. `lw` is the latest writer and
-- `rt` the reader at the tail, which is linked to `old`.
pub record Ready (w : Lock) (lw rt x : Cell) (ys : List Cell) (old : Ptr) : Type 0 where
  pub writer_there : lw.ptr ≢ null
  pub reader_there : rt.ptr ≢ null
  pub apart : rt.ptr ≢ lw.ptr
  pub writer_out : has lw.ptr (x ∷ ys) ≡ false
  pub reader_out : has rt.ptr (x ∷ ys) ≡ false
  pub distinct : Distinct (x ∷ ys)
  pub writer_holds : Holds w.heap lw x.ptr
  pub reader_holds : Holds w.heap rt old
  pub chain : Linked w.heap (x ∷ ys) null
  pub tail : w.tail ≡ last x ys
  pub count_lt : w.reader_count < 2 ^ 16

-- What the loop leaves of the cells `xs`, started in `w` with `n` readers completed.
pub record Parted (w : Lock) (n : ℕ) (lw rt : Cell) (xs : List Cell) (out : ℕ) (v : Lock)
    : Type 0 where
  pub count : out ≡ n + length (readers xs)
  pub stop : Ptr
  pub reader_holds : Holds v.heap rt (start (readers xs) stop)
  pub released : Linked v.heap (readers xs) stop
  pub writer_holds : Holds v.heap lw (start (writers xs) null)
  pub waiting : Linked v.heap (writers xs) null
  pub same : SameOutside (lw ∷ rt ∷ xs) w.heap v.heap
  pub head : v.head ≡ w.head
  pub tail : v.tail ≡ w.tail
  pub writer : v.writer ≡ w.writer
  pub spinner : v.spinner ≡ w.spinner
  pub reader_count : v.reader_count ≡ u16 (w.reader_count + length (readers xs))

module _ {w : Lock} {lw rt x y : Cell} {ys : List Cell} {old : Ptr}
    (r : Ready w lw rt x (y ∷ ys) old) where
  open r use {
    writer_there, reader_there, apart, writer_out, reader_out, distinct, writer_holds, reader_holds,
    chain, tail, count_lt,
  }

  pub goes_on : (x.ptr == w.tail) ≡ false
  goes_on = rw tail (has-ne x.ptr (last y ys) (y ∷ ys) distinct.1 (has-last y ys))

  -- A writer is passed.
  pub Ready-pass : Ready w x rt y ys old
  Ready-pass =
      let out = has-cons rt.ptr x (y ∷ ys) reader_out in
      record {
        writer_there = distinct.0;
        reader_there = reader_there;
        apart = out.0;
        writer_out = distinct.1;
        reader_out = out.1;
        distinct = distinct.2;
        writer_holds = chain.0;
        reader_holds = reader_holds;
        chain = chain.1;
        tail = tail;
        count_lt = count_lt;
      }

  -- A reader is moved.
  pub Ready-moved : Ready (moved w lw rt x y.ptr) lw x y ys y.ptr
  Ready-moved =
      let (rx, r_out) = has-cons rt.ptr x (y ∷ ys) reader_out in
      let (lx, l_out) = has-cons lw.ptr x (y ∷ ys) writer_out in
      record {
        writer_there = writer_there;
        reader_there = distinct.0;
        apart = λ e. lx (sym e);
        writer_out = l_out;
        reader_out = distinct.1;
        distinct = distinct.2;
        writer_holds =
            write_self (write w.heap rt.ptr (request rt.class rt.id x.ptr)) lw.ptr
              (request lw.class lw.id y.ptr);
        reader_holds =
            write-write_ne w.heap x.ptr rt.ptr lw.ptr _ _ (λ e. rx (sym e)) (λ e. lx (sym e))
            ∙ chain.0;
        chain = Linked-write_write w.heap rt.ptr lw.ptr _ _ (y ∷ ys) null r_out l_out chain.1;
        tail = tail;
        count_lt = omega arith;
      }

  module _ {n out : ℕ} {v : Lock} where
    pub Parted-pass :
        is_write x ≡ true → Parted w n x rt (y ∷ ys) out v → Parted w n lw rt (x ∷ y ∷ ys) out v
    Parted-pass wr p =
        let (lx, l_out) = has-cons lw.ptr x (y ∷ ys) writer_out in
        record {
          count = rw wr p.count;
          stop = p.stop;
          reader_holds = rw wr p.reader_holds;
          released = rw wr p.released;
          writer_holds = rw wr (
              p.same lw.ptr (has-two_of lw.ptr x rt (y ∷ ys) lx (λ e. apart (sym e)) l_out)
              ∙ writer_holds);
          waiting = rw wr (p.writer_holds, p.waiting);
          same = λ a o.
              let (al, ar, ax, a_out) = has-three a lw rt x (y ∷ ys) o in
              p.same a (has-two_of a x rt (y ∷ ys) ax ar a_out);
          head = p.head;
          tail = p.tail;
          writer = p.writer;
          spinner = p.spinner;
          reader_count = rw wr p.reader_count;
        }

    pub Parted-moved :
        is_write x ≡ false
        → Parted (moved w lw rt x y.ptr) (n + 1) lw x (y ∷ ys) out v
        → Parted w n lw rt (x ∷ y ∷ ys) out v
    Parted-moved rd p =
        let (rx, r_out) = has-cons rt.ptr x (y ∷ ys) reader_out in
        record {
          count = rw rd (p.count ∙ omega arith);
          stop = p.stop;
          reader_holds = rw rd (
              p.same rt.ptr (has-two_of rt.ptr lw x (y ∷ ys) apart rx r_out)
              ∙ write-write_self w.heap rt.ptr lw.ptr (request rt.class rt.id x.ptr)
                  (request lw.class lw.id y.ptr) apart);
          released = rw rd (p.reader_holds, p.released);
          writer_holds = rw rd p.writer_holds;
          waiting = rw rd p.waiting;
          same = λ a o.
              let (al, ar, ax, a_out) = has-three a lw rt x (y ∷ ys) o in
              p.same a (has-two_of a lw x (y ∷ ys) al ax a_out)
              ∙ write-write_ne w.heap a rt.ptr lw.ptr (request rt.class rt.id x.ptr)
                  (request lw.class lw.id y.ptr) ar al;
          head = p.head;
          tail = p.tail;
          writer = p.writer;
          spinner = p.spinner;
          reader_count = rw rd (p.reader_count ∙ omega arith);
        }

-- At the last cell the loop ends.
module _ {w : Lock} {lw rt x : Cell} {old : Ptr} (r : Ready w lw rt x [] old) (n : ℕ) where
  pub Parted-last_writer : is_write x ≡ true → Parted w n lw rt (x ∷ []) n w
  Parted-last_writer wr = record {
    count = rw wr (omega arith);
    stop = old;
    reader_holds = rw wr r.reader_holds;
    released = rw wr tt;
    writer_holds = rw wr r.writer_holds;
    waiting = rw wr (r.chain.0, tt);
    same = λ a o. refl;
    head = refl;
    tail = refl;
    writer = refl;
    spinner = refl;
    reader_count = rw wr (omega (arith, r.count_lt));
  }

  pub Parted-last_reader :
      is_write x ≡ false → Parted w n lw rt (x ∷ []) (n + 1) (moved w lw rt x null)
  Parted-last_reader rd =
      let (rx, _) = has-cons rt.ptr x [] r.reader_out in
      let (lx, _) = has-cons lw.ptr x [] r.writer_out in
      let new_rt = request rt.class rt.id x.ptr in
      let new_lw = request lw.class lw.id null in
      record {
        count = rw rd refl;
        stop = null;
        reader_holds = rw rd (write-write_self w.heap rt.ptr lw.ptr new_rt new_lw r.apart);
        released = rw rd (
          write-write_ne w.heap x.ptr rt.ptr lw.ptr new_rt new_lw (λ e. rx (sym e))
                (λ e. lx (sym e))
              ∙ r.chain.0,
          tt,
        );
        writer_holds = rw rd (write_self (write w.heap rt.ptr new_rt) lw.ptr new_lw);
        waiting = rw rd tt;
        same = λ a o.
            let (al, ar, ax, _) = has-three a lw rt x [] o in
            write-write_ne w.heap a rt.ptr lw.ptr new_rt new_lw ar al;
        head = refl;
        tail = refl;
        writer = refl;
        spinner = refl;
        reader_count = rw rd refl;
      }
