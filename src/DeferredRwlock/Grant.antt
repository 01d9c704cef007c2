-- ===== src/DeferredRwlock/Grant.antt =====
-- `hand_over`, the common part of `wrunlock` and `rdunlock`: the lock is free, and goes to the
-- writer or to the readers that wait.
use mathlib.Core.Path.{subst}
use akl.Base.{ℕ, ◌≡◌, refl, sym, ap, Bool, true, false, List, [], ◌∷◌, ◌==◌, ==_of_ne}
use akl.DeferredRwlock.Memory.{Ptr, null, request, Lock, Cmd, ok, fault, load}
use akl.DeferredRwlock.Queue.{Cell, start, IsReader, IsWriter}
use akl.DeferredRwlock.Steps.{Ends, ends, Ends-bind, load_lem}
use akl.DeferredRwlock.Spec.{IsQueue}
use akl.DeferredRwlock.Ops.{complete_wrlock, complete_rdlock, hand_over}

-- The queue has become `xs`, a writer has the lock, and the other fields are as they were.
pub record Granted (w : Lock) (xs : List Cell) (v : Lock) : Type 0 where
  pub queue : IsQueue v xs
  pub writer : v.writer ≡ true
  pub reader_count : v.reader_count ≡ w.reader_count
  pub spinner : v.spinner ≡ w.spinner

module _ (w : Lock) (x : Cell) (xs : List Cell) (q : IsQueue w (x ∷ xs)) where
  pub load_head : load w.head w ≡ ok (request x.class x.id (start xs null)) w
  load_head =
      subst (λ p. load p w ≡ ok (request x.class x.id (start xs null)) w) (sym q.head)
        (load_lem w x (start xs null) q.distinct.0 q.chain.0)

  pub head_there : (w.head == null) ≡ false
  head_there = rw q.head (==_of_ne x.ptr null q.distinct.0)

complete_wrlock_lem :
    (w : Lock) (x : Cell) (xs : List Cell)
    → IsQueue w (x ∷ xs)
    → Ends (λ _. Granted w xs) (complete_wrlock w)
unfolding complete_wrlock
complete_wrlock_lem w x [] q = rw (load_head w x [] q) (
    ends (record {
      queue = record { head = refl; chain = tt; distinct = tt; tail = refl };
      writer = refl;
      reader_count = refl;
      spinner = refl;
    }))
complete_wrlock_lem w x (y ∷ ys) q =
    rw (load_head w x (y ∷ ys) q, ==_of_ne y.ptr null q.distinct.2.0)
      (ends (record {
        queue = record { head = refl; chain = q.chain.1; distinct = q.distinct.2; tail = q.tail };
        writer = refl;
        reader_count = refl;
        spinner = refl;
      }))

pub with_writer :
    (w : Lock) (xs : List Cell) (b : Bool) → IsQueue w xs → IsQueue (record w { writer = b }) xs
with_writer w xs b q = record {
  head = q.head;
  chain = q.chain;
  distinct = q.distinct;
  tail = q.tail;
}

as-Granted :
    (w : Lock) (xs : List Cell) (v : Lock)
    → Granted (record w { writer = true }) xs v
    → Granted w xs v
as-Granted w xs v g = record {
  queue = g.queue;
  writer = g.writer;
  reader_count = g.reader_count;
  spinner = g.spinner;
}

module _ (check : Ptr → ℕ → Cmd (Unit {0})) (k : ℕ) (w : Lock) where
  pub hand_over-nobody : IsQueue w [] → hand_over check k w ≡ ok (null, 0) w
  unfolding hand_over
  hand_over-nobody q = rw q.head

  pub hand_over-writer :
      (x : Cell) (xs : List Cell)
      → IsQueue w (x ∷ xs)
      → IsWriter x
      → Ends (λ out v. (out ≡ (x.ptr, 1)) × Granted w xs v) (hand_over check k w)
  unfolding hand_over
  hand_over-writer x xs q wr =
      rw (head_there w x xs q, load_head w x xs q, wr)
        (Ends-bind
          (complete_wrlock_lem (record w { writer = true }) x xs (with_writer w (x ∷ xs) true q))
          (λ _ v g. ends (ap (λ (p : ℕ). (p, 1)) q.head, as-Granted w xs v g)))

  pub hand_over-readers :
      {P : Ptr × ℕ → Lock → Type 0} (x : Cell) (xs : List Cell)
      → IsQueue w (x ∷ xs)
      → IsReader x
      → Ends P (complete_rdlock k w)
      → ((out : Ptr × ℕ) (v : Lock) → P out v → check out.0 out.1 v ≡ ok tt v)
      → Ends P (hand_over check k w)
  unfolding hand_over
  hand_over-readers x xs q rd e c =
      rw (head_there w x xs q, load_head w x xs q, rd)
        (Ends-bind e (λ out v h. rw (c out v h) (ends h)))

  pub hand_over-fault :
      (x : Cell) (xs : List Cell)
      → IsQueue w (x ∷ xs)
      → IsReader x
      → complete_rdlock k w ≡ fault
      → hand_over check k w ≡ fault
  unfolding hand_over
  hand_over-fault x xs q rd e = rw (head_there w x xs q, load_head w x xs q, rd, e)
