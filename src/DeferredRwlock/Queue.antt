-- ===== src/DeferredRwlock/Queue.antt =====
-- A linked list of requests in the store, as the list of its cells.
use akl.Base.{
  ap, inl, inr, Bool-cases, ℕ, ◌≡◌, ◌≢◌, refl, Bool, true, false, ◌||◌, some, List, [], ◌∷◌, ◌++◌,
  arith, ◌==◌, if◌then◌else◌,
}
use akl.DeferredRwlock.Memory.{
  Ptr, null, request_read, request_write, Request, request, Heap, write,
}

-- A request apart from its `next`: where it stands, its class and its id.
pub record Cell : Type 0 where
  pub ptr : Ptr
  pub class : ℕ
  pub id : ℕ

abbrev pub has : Ptr → List Cell → Bool
has a [] = false
has a (x ∷ xs) = (a == x.ptr) || has a xs

-- The address of the first cell, or `q` if there is none.
abbrev pub start : List Cell → Ptr → Ptr
start [] q = q
start (x ∷ xs) q = x.ptr

-- The last cell, `x` being the first, and its address.
abbrev pub last_cell : Cell → List Cell → Cell
last_cell x [] = x
last_cell x (y ∷ ys) = last_cell y ys

abbrev pub last : Cell → List Cell → Ptr
last x xs = (last_cell x xs).ptr

abbrev pub Holds : Heap → Cell → Ptr → Type 0
Holds h x q = h x.ptr ≡ some (request x.class x.id q)

-- The cells stand in `h`, each linked to the one behind it and the last to `q`.
abbrev pub Linked : Heap → List Cell → Ptr → Type 0
Linked h [] q = Unit
Linked h (x ∷ xs) q = Holds h x (start xs q) × Linked h xs q

-- No cell stands at `NULL`, and no two at one address.
abbrev pub Distinct : List Cell → Type 0
Distinct [] = Unit
Distinct (x ∷ xs) = (x.ptr ≢ null) × (has x.ptr xs ≡ false) × Distinct xs

abbrev pub IsReader : Cell → Type 0
IsReader x = x.class ≡ request_read

abbrev pub IsWriter : Cell → Type 0
IsWriter x = x.class ≡ request_write

abbrev pub All : (Cell → Type 0) → List Cell → Type 0
All P [] = Unit
All P (x ∷ xs) = P x × All P xs

abbrev pub is_write : Cell → Bool
is_write x = x.class == request_write

-- The readers and the writers of a queue, in order.
abbrev pub readers : List Cell → List Cell
readers [] = []
readers (x ∷ xs) = if is_write x then readers xs else x ∷ readers xs

abbrev pub writers : List Cell → List Cell
writers [] = []
writers (x ∷ xs) = if is_write x then x ∷ writers xs else writers xs

-- `h` and `g` agree at the addresses outside `xs`.
abbrev pub SameOutside : List Cell → Heap → Heap → Type 0
SameOutside xs h g = (a : Ptr) → has a xs ≡ false → g a ≡ h a

pub Linked-write :
    (h : Heap) (a : Ptr) (r : Request) (xs : List Cell) (q : Ptr)
    → has a xs ≡ false
    → Linked h xs q
    → Linked (write h a r) xs q
Linked-write h a r [] q out l = tt
Linked-write h a r (x ∷ xs) q out l = (ground arith, Linked-write h a r xs q (ground arith) l.1)

pub Linked-same :
    (h g : Heap) (xs : List Cell) (q : Ptr)
    → ((a : Ptr) → has a xs ≡ true → g a ≡ h a)
    → Linked h xs q
    → Linked g xs q
Linked-same h g [] q same l = tt
Linked-same h g (x ∷ xs) q same l =
    (ground (arith, same x.ptr), Linked-same h g xs q (λ a i. same a (ground arith)) l.1)

pub has-append : (a : Ptr) (xs ys : List Cell) → has a (xs ++ ys) ≡ (has a xs || has a ys)
has-append a [] ys = refl
has-append a (x ∷ xs) ys = ground (arith, has-append a xs ys)

pub start-append : (xs ys : List Cell) (q : Ptr) → start (xs ++ ys) q ≡ start xs (start ys q)
start-append [] ys q = refl
start-append (x ∷ xs) ys q = refl

pub Linked-append :
    (h : Heap) (xs ys : List Cell) (q : Ptr)
    → Linked h xs (start ys q)
    → Linked h ys q
    → Linked h (xs ++ ys) q
Linked-append h [] ys q l k = k
Linked-append h (x ∷ xs) ys q l k = (rw start-append l.0, Linked-append h xs ys q l.1 k)

pub has-last : (x : Cell) (xs : List Cell) → has (last x xs) (x ∷ xs) ≡ true
has-last x [] = ground arith
has-last x (y ∷ ys) = ground (arith, has-last y ys)

pub has-readers : (a : Ptr) (xs : List Cell) → has a xs ≡ false → has a (readers xs) ≡ false
has-readers a [] h = refl
has-readers a (x ∷ xs) h = ground (arith, has-readers a xs)

pub has-writers : (a : Ptr) (xs : List Cell) → has a xs ≡ false → has a (writers xs) ≡ false
has-writers a [] h = refl
has-writers a (x ∷ xs) h = ground (arith, has-writers a xs)

pub has-cons :
    (a : Ptr) (x : Cell) (xs : List Cell)
    → has a (x ∷ xs) ≡ false
    → (a ≢ x.ptr) × (has a xs ≡ false)
has-cons a x xs h = (ground arith, ground arith)

pub has-cons_of :
    (a : Ptr) (x : Cell) (xs : List Cell) → a ≢ x.ptr → has a xs ≡ false → has a (x ∷ xs) ≡ false
has-cons_of a x xs ne h = ground arith

pub has-ne : (a b : Ptr) (xs : List Cell) → has a xs ≡ false → has b xs ≡ true → (a == b) ≡ false
has-ne a b xs out inside = elim (Bool-cases (a == b)) [
  | inl e ↦ let same : a ≡ b = ground arith in absurd (cc (ap (λ c. has c xs) same))
  | inr e ↦ e
]

pub write-ne : (h : Heap) (a b : Ptr) (r : Request) → a ≢ b → write h b r a ≡ h a
write-ne h a b r ne = ground arith

pub write_self : (h : Heap) (a : Ptr) (r : Request) → write h a r a ≡ some r
write_self h a r = ground arith

-- Two writes elsewhere.
pub write-write_ne :
    (h : Heap) (a b c : Ptr) (r s : Request) → a ≢ b → a ≢ c → write (write h b r) c s a ≡ h a
write-write_ne h a b c r s ab ac = ground arith

pub Linked-write_write :
    (h : Heap) (a b : Ptr) (r s : Request) (xs : List Cell) (q : Ptr)
    → has a xs ≡ false
    → has b xs ≡ false
    → Linked h xs q
    → Linked (write (write h a r) b s) xs q
Linked-write_write h a b r s xs q out_a out_b l =
    Linked-write (write h a r) b s xs q out_b (Linked-write h a r xs q out_a l)

pub write-write_self :
    (h : Heap) (a b : Ptr) (r s : Request) → a ≢ b → write (write h a r) b s a ≡ some r
write-write_self h a b r s ne = ground arith

pub has-three :
    (a : Ptr) (x y z : Cell) (xs : List Cell)
    → has a (x ∷ y ∷ z ∷ xs) ≡ false
    → (a ≢ x.ptr) × (a ≢ y.ptr) × (a ≢ z.ptr) × (has a xs ≡ false)
has-three a x y z xs h =
    let (nx, h1) = has-cons a x (y ∷ z ∷ xs) h in
    let (ny, h2) = has-cons a y (z ∷ xs) h1 in let (nz, h3) = has-cons a z xs h2 in (nx, ny, nz, h3)

pub has-two_of :
    (a : Ptr) (x y : Cell) (xs : List Cell)
    → a ≢ x.ptr
    → a ≢ y.ptr
    → has a xs ≡ false
    → has a (x ∷ y ∷ xs) ≡ false
has-two_of a x y xs nx ny h = has-cons_of a x (y ∷ xs) nx (has-cons_of a y xs ny h)

pub has-here : (x : Cell) (xs : List Cell) → has x.ptr (x ∷ xs) ≡ true
has-here x xs = ground arith

pub has-there : (a : Ptr) (x : Cell) (xs : List Cell) → has a xs ≡ true → has a (x ∷ xs) ≡ true
has-there a x xs h = ground arith

pub ne_of_test : (a b : Ptr) → (a == b) ≡ false → a ≢ b
ne_of_test a b h = ground arith
