-- ===== src/DeferredRwlock/Tail.antt =====
-- `complete_rdlock` does not move `tail`. That is right if the last request of the queue is a
-- writer; if it is a reader, and writers wait, `tail` stays at a request that has been released.
use mathlib.Core.Path.{subst}
use akl.Base.{
  ℕ, ◌≡◌, ◌⊎◌, inl, inr, refl, sym, ◌∙◌, ap, true, false, List, [], ◌∷◌, arith, Bool-cases, ==_iff,
}
use akl.DeferredRwlock.Memory.{Ptr, Lock}
use akl.DeferredRwlock.Queue.{
  Cell, Distinct, All, IsWriter, is_write, readers, writers, has, last, last_cell, has-last, has-ne,
  has-writers,
}
use akl.DeferredRwlock.Spec.{IsTail, IsQueue, Completed, kept_tail}
use akl.DeferredRwlock.Prefix.{Stops}
use akl.DeferredRwlock.Completion.{IsRequest}

-- A list of cells that is not empty and ends with `z`.
pub record EndsWith (z : Cell) (xs : List Cell) : Type 0 where
  pub first : Cell
  pub rest : List Cell
  pub split : xs ≡ first ∷ rest
  pub end : last_cell first rest ≡ z

cons_end : {z : Cell} (x : Cell) {xs : List Cell} → EndsWith z xs → EndsWith z (x ∷ xs)
cons_end x e = record {
  first = x;
  rest = e.first ∷ e.rest;
  split = ap (λ xs. x ∷ xs) e.split;
  end = e.end;
}

writers-end :
    (x : Cell) (xs : List Cell)
    → is_write (last_cell x xs) ≡ true
    → EndsWith (last_cell x xs) (writers (x ∷ xs))
writers-end x [] h = rw h (record { first = x; rest = []; split = refl; end = refl })
writers-end x (y ∷ ys) h = elim (Bool-cases (is_write x)) [
  | inl wr ↦ rw wr (cons_end x (writers-end y ys h))
  | inr rd ↦ rw rd (writers-end y ys h)
]

pub readers-end :
    (x : Cell) (xs : List Cell)
    → is_write (last_cell x xs) ≡ false
    → EndsWith (last_cell x xs) (readers (x ∷ xs))
readers-end x [] h = rw h (record { first = x; rest = []; split = refl; end = refl })
readers-end x (y ∷ ys) h = elim (Bool-cases (is_write x)) [
  | inl wr ↦ rw wr (readers-end y ys h)
  | inr rd ↦ rw rd (cons_end x (readers-end y ys h))
]

pub last-out :
    (x : Cell) (xs : List Cell)
    → Distinct (x ∷ xs)
    → is_write (last_cell x xs) ≡ false
    → has (last x xs) (writers (x ∷ xs)) ≡ false
last-out x [] d h = rw h refl
last-out x (y ∷ ys) d h = elim (Bool-cases (is_write x)) [
  | inl wr ↦
      let ne = has-ne x.ptr (last y ys) (y ∷ ys) d.1 (has-last y ys) in
      rw wr (ground (arith, ne, last-out y ys d.2 h))
  | inr rd ↦ rw rd (last-out y ys d.2 h)
]

pub Distinct-writers : (xs : List Cell) → Distinct xs → Distinct (writers xs)
Distinct-writers [] d = tt
Distinct-writers (x ∷ xs) d = elim (Bool-cases (is_write x)) [
  | inl wr ↦ rw wr (d.0, has-writers x.ptr xs d.1, Distinct-writers xs d.2)
  | inr rd ↦ rw rd (Distinct-writers xs d.2)
]

pub writers-Stops : (xs : List Cell) → Stops (writers xs)
writers-Stops [] = tt
writers-Stops (x ∷ xs) = elim (Bool-cases (is_write x)) [
  | inl wr ↦ rw wr ((==_iff x.class 1).0 wr)
  | inr rd ↦ rw rd (writers-Stops xs)
]

pub writers-IsRequest : (xs : List Cell) → All IsRequest (writers xs)
writers-IsRequest [] = tt
writers-IsRequest (x ∷ xs) = elim (Bool-cases (is_write x)) [
  | inl wr ↦ rw wr (inr ((==_iff x.class 1).0 wr), writers-IsRequest xs)
  | inr rd ↦ rw rd (writers-IsRequest xs)
]

IsTail-of :
    (t : Ptr) (z : Cell) (wr : List Cell) → t ≡ z.ptr → EndsWith z wr → IsTail (kept_tail wr t) wr
IsTail-of t z wr e h =
    subst (λ ys. IsTail (kept_tail ys t) ys) (sym h.split)
      (e ∙ ap (λ (c : Cell). c.ptr) (sym h.end))

-- What is left is a well-formed queue if no writer waits or the last request is a writer.
pub Completed-IsQueue :
    (w : Lock) (x : Cell) (xs : List Cell) (out : Ptr × ℕ) (v : Lock)
    → IsQueue w (x ∷ xs)
    → Completed w (x ∷ xs) out v
    → (writers (x ∷ xs) ≡ []) ⊎ IsWriter (last_cell x xs)
    → IsQueue v (writers (x ∷ xs))
Completed-IsQueue w x xs out v q c h = record {
  head = c.head;
  chain = c.waiting;
  distinct = Distinct-writers (x ∷ xs) q.distinct;
  tail = rw c.tail (ends_there h);
}
  where
    ends_there :
        (writers (x ∷ xs) ≡ []) ⊎ IsWriter (last_cell x xs)
        → IsTail (kept_tail (writers (x ∷ xs)) w.tail) (writers (x ∷ xs))
    ends_there (inl e) = subst (λ ys. IsTail (kept_tail ys w.tail) ys) (sym e) refl
    ends_there (inr e) =
        IsTail-of w.tail (last_cell x xs) (writers (x ∷ xs)) q.tail
          (writers-end x xs ((==_iff (last_cell x xs).class 1).1 e))
