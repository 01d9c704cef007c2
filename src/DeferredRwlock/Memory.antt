-- ===== src/DeferredRwlock/Memory.antt =====
-- delete-me/deferred_rwlock.hpp: requests at addresses, the fields of the lock, and commands that
-- read and write them. A method holds `lock`, the spinlock, from its first access to a field to its
-- last, so it runs as one step.
use akl.Base.{ℕ, Bool, Option, none, some, ◌==◌, if◌then◌else◌}

abbrev pub Ptr : Type 0
Ptr = ℕ

abbrev pub null : Ptr
null = 0

abbrev pub request_read : ℕ
request_read = 0

abbrev pub request_write : ℕ
request_write = 1

-- `struct request`
pub record Request : Type 0 where
  pub lockclass : ℕ
  pub id : ℕ
  pub next : Ptr

abbrev pub request : ℕ → ℕ → Ptr → Request
request c i q = record { lockclass = c; id = i; next = q }

abbrev pub Heap : Type 0
Heap = Ptr → Option Request

abbrev pub write : Heap → Ptr → Request → Heap
write h p r a = if a == p then some r else h a

-- The lock and the requests of all callers. `spinner` is the field of `lock`.
pub record Lock : Type 0 where
  pub heap : Heap
  pub head : Ptr
  pub tail : Ptr
  pub reader_count : ℕ  -- uint16_t
  pub writer : Bool
  pub spinner : ℕ

-- The outcome of a call that runs alone. `fault` is an access through `NULL` or to an address that
-- holds no request, `spins` a wait that nobody ends, `aborted` an assertion that failed.
pub data Run (A : Type 0) : Type 0 where
  ok : A → Lock → Run A
  fault spins aborted out_of_fuel : Run A

abbrev pub Cmd : Type 0 → Type 0
Cmd A = Lock → Run A

abbrev pub pure : {A : Type 0} → A → Cmd A
pure = ok

module _ {A B : Type 0} where
  abbrev pub and_then : Run A → (A → Cmd B) → Run B
  and_then (ok a w) k = k a w
  and_then fault k = fault
  and_then spins k = spins
  and_then aborted k = aborted
  and_then out_of_fuel k = out_of_fuel

  infixl 5 ◌>>=◌ ◌>>◌
  abbrev pub ◌>>=◌ : Cmd A → (A → Cmd B) → Cmd B
  m >>= k = λ w. and_then (m w) k

  abbrev pub ◌>>◌ : Cmd A → Cmd B → Cmd B
  m >> n = m >>= λ _. n

abbrev pub self : Cmd Lock
self w = ok w w

abbrev pub modify : (Lock → Lock) → Cmd (Unit {0})
modify f w = ok tt (f w)

-- `*p`
unfoldable pub load : Ptr → Cmd Request
load p w = if p == null then fault else elim (w.heap p) [ none ↦ fault | some r ↦ ok r w ]

unfoldable pub set_next : Ptr → Ptr → Cmd (Unit {0})
set_next p q = do r ← load p; modify λ w. record w { heap = write w.heap p (record r { next = q }) }

unfoldable pub set_lockclass : Ptr → ℕ → Cmd (Unit {0})
set_lockclass p c = do
  r ← load p
  modify λ w. record w { heap = write w.heap p (record r { lockclass = c }) }

-- `simple_spinlock::lock` and `unlock`
unfoldable pub lock : Cmd (Unit {0})
lock w = if w.spinner == 0 then ok tt (record w { spinner = 1 }) else spins

unfoldable pub unlock : Cmd (Unit {0})
unlock w = ok tt (record w { spinner = 0 })
