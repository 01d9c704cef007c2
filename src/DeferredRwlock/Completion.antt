-- ===== src/DeferredRwlock/Completion.antt =====
-- `complete_rdlock` on any queue with a reader at its head.
use mathlib.Core.Path.{subst, subst₂, ap₂}
use mathlib.Core.List.{append-nil}
use akl.Base.{
  ℕ, zero, suc, ◌+◌, ◌<◌, ◌≡◌, ◌≢◌, ◌⊎◌, refl, sym, ◌∙◌, ap, List, [], ◌∷◌, ◌++◌, arith, ◌==◌,
  if◌then◌else◌, length, length-append, on-equal,
}
use akl.DeferredRwlock.Memory.{Ptr, null, request_read, Lock, Run, and_then, ok, fault, load}
use akl.DeferredRwlock.Queue.{Cell, last, last_cell, All, IsReader, IsWriter, readers, writers}
use akl.DeferredRwlock.Append.{
  readers-append, writers-append, readers-All, writers_none, last-append,
}
use akl.DeferredRwlock.Steps.{Ends, ends, Ends-bind}
use akl.DeferredRwlock.Ops.{complete_rdlock, split_loop}
use akl.DeferredRwlock.Prefix.{at_head, Stops}
use akl.DeferredRwlock.SplitLoop.{split_loop_lem}
use akl.DeferredRwlock.Spec.{IsQueue, Released, Completed}
use akl.DeferredRwlock.Complete.{
  complete-all, complete-from, complete-Ready, complete-Released, counted,
}

abbrev pub IsRequest : Cell → Type 0
IsRequest x = IsReader x ⊎ IsWriter x

-- The readers at the head of a queue, and what stands behind them.
abbrev pub front : List Cell → List Cell
front [] = []
front (x ∷ xs) = if x.class == request_read then x ∷ front xs else []

abbrev pub behind : List Cell → List Cell
behind [] = []
behind (x ∷ xs) = if x.class == request_read then behind xs else x ∷ xs

front-append-behind : (xs : List Cell) → front xs ++ behind xs ≡ xs
front-append-behind [] = refl
front-append-behind (x ∷ xs) = ground (arith, front-append-behind xs)

front-IsReader : (xs : List Cell) → All IsReader (front xs)
front-IsReader [] = tt
front-IsReader (x ∷ xs) = ground (arith, front-IsReader xs)

behind-Stops : (xs : List Cell) → All IsRequest xs → Stops (behind xs)
behind-Stops [] a = tt
behind-Stops (x ∷ xs) a = ground (arith, behind-Stops xs)

as-Completed :
    (w : Lock) (xs : List Cell) {rd wr : List Cell} {m : Run (Ptr × ℕ)}
    → rd ≡ readers xs
    → wr ≡ writers xs
    → Ends (Released w xs rd wr) m
    → Ends (Completed w xs) m
as-Completed w xs {m} e f h = subst₂ (λ rd wr. Ends (Released w xs rd wr) m) e f h

-- The loop begins with an access to the request behind the writer: if there is none, it faults.
lone :
    {B : Type 0} (k : ℕ) (lw rt : Ptr) (n : ℕ) (w : Lock) (f : ℕ → Lock → Run B) {l : ℕ}
    → l < k
    → and_then (split_loop k lw null rt n w) f ≡ fault
unfolding split_loop load
lone zero lw rt n w f h = absurd (omega arith)
lone (suc k) lw rt n w f h = refl

module _ (k : ℕ) (w : Lock) (r : Cell) (rs : List Cell) (reads : All IsReader (r ∷ rs)) where
  module _ (lw x : Cell) (ys : List Cell) (s : IsWriter lw) where
    readers_parts : readers ((r ∷ rs) ++ lw ∷ x ∷ ys) ≡ (r ∷ rs) ++ readers (x ∷ ys)
    readers_parts =
        readers-append (r ∷ rs) (lw ∷ x ∷ ys) ∙ ap₂ ◌++◌ (readers-All (r ∷ rs) reads) (rw s refl)

    writers_parts : writers ((r ∷ rs) ++ lw ∷ x ∷ ys) ≡ lw ∷ writers (x ∷ ys)
    writers_parts =
        writers-append (r ∷ rs) (lw ∷ x ∷ ys) ∙ ap₂ ◌++◌ (writers_none (r ∷ rs) reads) (rw s refl)

  -- What the method does on the queue `r ∷ rs ++ ys`.
  abbrev Does : List Cell → Type 0
  Does [] = Ends (Completed w (r ∷ rs)) (complete_rdlock k w)
  Does (lw ∷ []) = complete_rdlock k w ≡ fault
  Does (lw ∷ x ∷ ys) = Ends (Completed w ((r ∷ rs) ++ lw ∷ x ∷ ys)) (complete_rdlock k w)

  does :
      (ys : List Cell)
      → Stops ys
      → IsQueue w ((r ∷ rs) ++ ys)
      → length rs < k
      → length ys < k
      → Does ys
  does [] s q h h' =
      let q' = subst (λ xs. IsQueue w xs) (append-nil (r ∷ rs)) q in
      subst (λ p. Ends (Completed (at_head w p) (r ∷ rs)) (complete_rdlock k (at_head w p)))
        (sym q'.head)
        (as-Completed (at_head w r.ptr) (r ∷ rs) (sym (readers-All (r ∷ rs) reads))
          (sym (writers_none (r ∷ rs) reads)) (complete-all k w r rs q'.chain q'.distinct reads h))
  does (lw ∷ []) s q h h' =
      subst (λ p. complete_rdlock k (at_head w p) ≡ fault) (sym q.head)
        (complete-from k w r rs lw [] q.chain q.distinct reads s h
          ∙ lone k lw.ptr (last r rs) (1 + length rs) (counted w lw.ptr (length rs))
              (λ n v. ok (r.ptr, n) v) h)
  does (lw ∷ x ∷ ys) s q h h' =
      let xs = (r ∷ rs) ++ lw ∷ x ∷ ys in
      subst (λ p. Ends (Completed (at_head w p) xs) (complete_rdlock k (at_head w p))) (sym q.head)
        (as-Completed (at_head w r.ptr) xs (sym (readers_parts lw x ys s))
          (sym (writers_parts lw x ys s))
          (rw (complete-from k w r rs lw (x ∷ ys) q.chain q.distinct reads s h) (
            Ends-bind
              (split_loop_lem k (1 + length rs) (counted w lw.ptr (length rs)) lw (last_cell r rs) x
                ys lw.ptr
                (complete-Ready w r rs lw x ys q.chain q.distinct
                  (q.tail ∙ last-append r lw rs (x ∷ ys)))
                (omega arith))
              (λ n v p. ends (complete-Released w r rs lw x ys q.chain q.distinct p)))))

-- The two cases, as implications.
pub complete_rdlock-cases :
    (k : ℕ) (w : Lock) (r : Cell) (xs : List Cell)
    → IsQueue w (r ∷ xs)
    → IsReader r
    → All IsRequest xs
    → length xs < k
    → ((length (behind xs) ≢ 1 → Ends (Completed w (r ∷ xs)) (complete_rdlock k w))
        × (length (behind xs) ≡ 1 → complete_rdlock k w ≡ fault))
complete_rdlock-cases k w r xs q hr a h =
    go (behind xs) (front-append-behind xs) (behind-Stops xs a)
  where
    fs : List Cell
    fs = front xs

    sizes : (ys : List Cell) → fs ++ ys ≡ xs → (length fs < k) × (length ys < k)
    sizes ys e = omega (arith, length-append fs ys, ap (λ (zs : List Cell). length zs) e)

    done : (ys : List Cell) → fs ++ ys ≡ xs → Stops ys → Does k w r fs (hr, front-IsReader xs) ys
    done ys e s =
        does k w r fs (hr, front-IsReader xs) ys s (subst (λ zs. IsQueue w (r ∷ zs)) (sym e) q)
          (sizes ys e).0 (sizes ys e).1

    go :
        (ys : List Cell)
        → fs ++ ys ≡ xs
        → Stops ys
        → (length ys ≢ 1 → Ends (Completed w (r ∷ xs)) (complete_rdlock k w))
          × (length ys ≡ 1 → complete_rdlock k w ≡ fault)
    go [] e s = (
      λ _.
          subst (λ zs. Ends (Completed w (r ∷ zs)) (complete_rdlock k w)) (sym (append-nil fs) ∙ e)
            (done [] e s),
      λ n. absurd (omega arith),
    )
    go (lw ∷ []) e s = (λ n. absurd (n refl), λ _. done (lw ∷ []) e s)
    go (lw ∷ x ∷ ys) e s = (
      λ _.
          subst (λ zs. Ends (Completed w (r ∷ zs)) (complete_rdlock k w)) e
            (done (lw ∷ x ∷ ys) e s),
      λ n. absurd (omega arith),
    )

-- `complete_rdlock` on a queue of requests with a reader at its head, with more fuel than requests
-- behind that reader. If exactly one request stands behind the readers at the head, it reads
-- through `NULL`. Otherwise it ends, and has released all readers of the queue, in order, counted
-- them, and left the writers in the queue, in order.
pub complete_rdlock_lem :
    (k : ℕ) (w : Lock) (r : Cell) (xs : List Cell)
    → IsQueue w (r ∷ xs)
    → IsReader r
    → All IsRequest xs
    → length xs < k
    → ((length (behind xs) ≢ 1) × Ends (Completed w (r ∷ xs)) (complete_rdlock k w))
      ⊎ ((length (behind xs) ≡ 1) × (complete_rdlock k w ≡ fault))
complete_rdlock_lem k w r xs q hr a h =
    on-equal (length (behind xs)) 1 (complete_rdlock-cases k w r xs q hr a h)
