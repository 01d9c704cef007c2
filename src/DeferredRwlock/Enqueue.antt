-- ===== src/DeferredRwlock/Enqueue.antt =====
-- `insert_queue` and `insert_queue_head` put a request at the end and at the head of the queue.
use mathlib.Core.Path.{subst}
use akl.Base.{◌≡◌, ◌≢◌, refl, sym, ◌∙◌, false, List, [], ◌∷◌, ◌++◌, arith, ◌==◌, ==_of_ne}
use akl.DeferredRwlock.Memory.{null, request, Lock, Heap, write, ok, set_next}
use akl.DeferredRwlock.Queue.{
  Cell, Holds, Distinct, last_cell, has, has-append, has-last, has-ne, Linked-append, Linked-write,
  write_self, write-ne, ne_of_test,
}
use akl.DeferredRwlock.Append.{relink, last-append, last-ne_null, Linked-last}
use akl.DeferredRwlock.Steps.{Ends, ends, set_next_lem}
use akl.DeferredRwlock.Spec.{IsQueue}
use akl.DeferredRwlock.Ops.{insert_queue, insert_queue_head}

-- The request `i` is not in the queue `xs`, and its `next` is `NULL`.
pub record IsNew (w : Lock) (xs : List Cell) (i : Cell) : Type 0 where
  pub there : i.ptr ≢ null
  pub out : has i.ptr xs ≡ false
  pub holds : Holds w.heap i null

-- The queue has become `xs`, and the other fields of the lock are as they were.
pub record Queued (w : Lock) (xs : List Cell) (v : Lock) : Type 0 where
  pub queue : IsQueue v xs
  pub reader_count : v.reader_count ≡ w.reader_count
  pub writer : v.writer ≡ w.writer
  pub spinner : v.spinner ≡ w.spinner

Distinct-snoc :
    (xs : List Cell) (i : Cell)
    → Distinct xs
    → i.ptr ≢ null
    → has i.ptr xs ≡ false
    → Distinct (xs ++ i ∷ [])
Distinct-snoc [] i d n o = (n, refl, tt)
Distinct-snoc (x ∷ xs) i d n o =
    (d.0, ground (arith, has-append x.ptr xs (i ∷ [])), Distinct-snoc xs i d.2 n (ground arith))

module _ (w : Lock) (i : Cell) where
  abbrev alone : Lock
  alone = record w { head = i.ptr; tail = i.ptr }

  alone-IsQueue : IsNew w [] i → IsQueue alone (i ∷ [])
  alone-IsQueue n = record {
    head = refl;
    chain = (n.holds, tt);
    distinct = (n.there, refl, tt);
    tail = refl;
  }

  module _ (x : Cell) (xs : List Cell) (q : IsQueue w (x ∷ xs)) (n : IsNew w (x ∷ xs) i) where
    there : (w.head == null) ≡ false
    there = rw q.head (==_of_ne x.ptr null q.distinct.0)

    abbrev tail_cell : Cell
    tail_cell = last_cell x xs

    abbrev linked : Heap
    linked = write w.heap tail_cell.ptr (request tail_cell.class tail_cell.id i.ptr)

    abbrev behind_tail : Lock
    behind_tail = record w { heap = linked; tail = i.ptr }

    tail-ne : i.ptr ≢ tail_cell.ptr
    tail-ne =
        ne_of_test i.ptr tail_cell.ptr (has-ne i.ptr tail_cell.ptr (x ∷ xs) n.out (has-last x xs))

    behind_tail-IsQueue : IsQueue behind_tail ((x ∷ xs) ++ i ∷ [])
    behind_tail-IsQueue = record {
      head = q.head;
      chain =
          Linked-append linked (x ∷ xs) (i ∷ []) null
            (relink w.heap linked x xs null i.ptr q.chain q.distinct
              (λ a h ne. write-ne w.heap a tail_cell.ptr _ ne)
              (write_self w.heap tail_cell.ptr (request tail_cell.class tail_cell.id i.ptr)))
            (
              write-ne w.heap i.ptr tail_cell.ptr (request tail_cell.class tail_cell.id i.ptr)
                    tail-ne
                  ∙ n.holds,
              tt,
            );
      distinct = Distinct-snoc (x ∷ xs) i q.distinct n.there n.out;
      tail = sym (last-append x i xs []);
    }

    set_tail : set_next w.tail i.ptr w ≡ ok tt (record w { heap = linked })
    set_tail =
        subst (λ p. set_next p i.ptr w ≡ ok tt (record w { heap = linked })) (sym q.tail)
          (set_next_lem w tail_cell null (last-ne_null x xs q.distinct)
            (Linked-last w.heap x xs null q.chain) i.ptr)

    set_front :
        set_next i.ptr w.head w
        ≡ ok tt (record w { heap = write w.heap i.ptr (request i.class i.id x.ptr) })
    set_front = set_next_lem w i null n.there n.holds w.head ∙ rw q.head

    abbrev at_front : Lock
    at_front = record w { heap = write w.heap i.ptr (request i.class i.id x.ptr); head = i.ptr }

    at_front-IsQueue : IsQueue at_front (i ∷ x ∷ xs)
    at_front-IsQueue = record {
      head = refl;
      chain = (
        write_self w.heap i.ptr (request i.class i.id x.ptr),
        Linked-write w.heap i.ptr (request i.class i.id x.ptr) (x ∷ xs) null n.out q.chain,
      );
      distinct = (n.there, n.out, q.distinct);
      tail = q.tail;
    }

pub insert_queue_lem :
    (w : Lock) (xs : List Cell) (i : Cell)
    → IsQueue w xs
    → IsNew w xs i
    → Ends (λ _. Queued w (xs ++ i ∷ [])) (insert_queue i.ptr w)
unfolding insert_queue
insert_queue_lem w [] i q n = rw q.head (
    ends
      (record { queue = alone-IsQueue w i n; reader_count = refl; writer = refl; spinner = refl }))
insert_queue_lem w (x ∷ xs) i q n = rw (there w i x xs q n) (
    rw (set_tail w i x xs q n) (
      ends (record {
        queue = behind_tail-IsQueue w i x xs q n;
        reader_count = refl;
        writer = refl;
        spinner = refl;
      })))

pub insert_queue_head_lem :
    (w : Lock) (xs : List Cell) (i : Cell)
    → IsQueue w xs
    → IsNew w xs i
    → Ends (λ _. Queued w (i ∷ xs)) (insert_queue_head i.ptr w)
unfolding insert_queue_head
insert_queue_head_lem w [] i q n = rw q.head (
    ends
      (record { queue = alone-IsQueue w i n; reader_count = refl; writer = refl; spinner = refl }))
insert_queue_head_lem w (x ∷ xs) i q n = rw (there w i x xs q n) (
    rw (set_front w i x xs q n) (
      ends (record {
        queue = at_front-IsQueue w i x xs q n;
        reader_count = refl;
        writer = refl;
        spinner = refl;
      })))
