-- ===== src/DeferredRwlock/Append.antt =====
-- Queues in two parts, and the readers and writers of a queue.
use akl.Base.{◌≡◌, ◌≢◌, refl, sym, ◌∙◌, true, false, List, [], ◌∷◌, ◌++◌, arith, ◌==◌}
use akl.DeferredRwlock.Memory.{Ptr, null, Heap}
use akl.DeferredRwlock.Queue.{
  Cell, Holds, Linked, Distinct, has, start, last_cell, last, readers, writers, has-append,
  start-append, has-last, has-ne, has-here, has-there, ne_of_test, All, IsReader,
}

abbrev pub Disjoint : List Cell → List Cell → Type 0
Disjoint xs ys = (a : Ptr) → has a xs ≡ true → has a ys ≡ false

-- The two parts of a queue.
pub record Parts (xs ys : List Cell) : Type 0 where
  pub front : Distinct xs
  pub back : Distinct ys
  pub apart : Disjoint xs ys

pub has-or :
    (a : Ptr) (xs ys : List Cell)
    → has a (xs ++ ys) ≡ false
    → (has a xs ≡ false) × (has a ys ≡ false)
has-or a xs ys h = let e = sym (has-append a xs ys) ∙ h in (ground arith, ground arith)

pub Distinct-Parts : (xs ys : List Cell) → Distinct (xs ++ ys) → Parts xs ys
Distinct-Parts [] ys d = record { front = tt; back = d; apart = λ a h. cc }
Distinct-Parts (x ∷ xs) ys d =
    let p = Distinct-Parts xs ys d.2 in
    let out = has-or x.ptr xs ys d.1 in
    record {
      front = (d.0, out.0, p.front);
      back = p.back;
      apart = λ a h. ground (arith, p.apart a);
    }

pub Linked-parts :
    (h : Heap) (xs ys : List Cell) (q : Ptr)
    → Linked h (xs ++ ys) q
    → Linked h xs (start ys q) × Linked h ys q
Linked-parts h [] ys q l = (tt, l)
Linked-parts h (x ∷ xs) ys q l =
    let (front, back) = Linked-parts h xs ys q l.1 in
    ((rw (← start-append xs ys q) l.0, front), back)

-- A list that is linked anew behind its last cell.
pub relink :
    (h g : Heap) (x : Cell) (xs : List Cell) (q p : Ptr)
    → Linked h (x ∷ xs) q
    → Distinct (x ∷ xs)
    → ((a : Ptr) → has a (x ∷ xs) ≡ true → a ≢ last x xs → g a ≡ h a)
    → Holds g (last_cell x xs) p
    → Linked g (x ∷ xs) p
relink h g x [] q p l d same new = (new, tt)
relink h g x (y ∷ ys) q p l d same new =
    let ne : (x.ptr == last y ys) ≡ false = has-ne x.ptr (last y ys) (y ∷ ys) d.1 (has-last y ys) in
    (
      same x.ptr (has-here x (y ∷ ys)) (ne_of_test x.ptr (last y ys) ne) ∙ l.0,
      relink h g y ys q p l.1 d.2 (λ a i n. same a (has-there a x (y ∷ ys) i) n) new,
    )

pub readers-append : (xs ys : List Cell) → readers (xs ++ ys) ≡ readers xs ++ readers ys
readers-append [] ys = refl
readers-append (x ∷ xs) ys = ground (arith, readers-append xs ys)

pub writers-append : (xs ys : List Cell) → writers (xs ++ ys) ≡ writers xs ++ writers ys
writers-append [] ys = refl
writers-append (x ∷ xs) ys = ground (arith, writers-append xs ys)

pub readers-All : (xs : List Cell) → All IsReader xs → readers xs ≡ xs
readers-All [] a = refl
readers-All (x ∷ xs) a = ground (arith, readers-All xs)

pub writers_none : (xs : List Cell) → All IsReader xs → writers xs ≡ []
writers_none [] a = refl
writers_none (x ∷ xs) a = ground (arith, writers_none xs)

pub last-append : (x y : Cell) (xs ys : List Cell) → last x (xs ++ y ∷ ys) ≡ last y ys
last-append x y [] ys = refl
last-append x y (z ∷ xs) ys = last-append z y xs ys

pub last-ne_null : (x : Cell) (xs : List Cell) → Distinct (x ∷ xs) → last x xs ≢ null
last-ne_null x [] d = d.0
last-ne_null x (y ∷ ys) d = last-ne_null y ys d.2

pub Linked-last :
    (h : Heap) (x : Cell) (xs : List Cell) (q : Ptr)
    → Linked h (x ∷ xs) q
    → Holds h (last_cell x xs) q
Linked-last h x [] q l = l.0
Linked-last h x (y ∷ ys) q l = Linked-last h y ys q l.1
