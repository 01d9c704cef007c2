-- ===== src/QueuedRwLock/Invariant.antt =====
-- delete-me/queued_rw_lock.hpp: what holds of the requests between the moves.
use akl.Base.{ℕ, ◌+◌, ◌-◌, ◌<◌, ◌≤◌, ◌≡◌, ◌≢◌, ◌⊎◌, Bool, true, false, Option, none, some}
use akl.QueuedRwLock.{
  Place, outside, done, w_announce, w_check, w_take, w_unblock, w_mark, w_link, w_spin, w_assert,
  writing, w_leave, w_clear, w_next, w_class, w_count, w_pass, r_count, r_class, r_swap, r_link,
  r_spin, r_join, r_join_link, r_unblock, r_check, r_chain, r_chain_count, r_chain_pass, reading,
  r_leave, r_clear, r_next, r_hand, r_store, r_drop, r_take, r_wake, aborted, faulted, Request,
  Lock,
}

-- The thread has passed the loop in which it waits.
abbrev pub past : Place → Bool
past w_assert = true
past writing = true
past w_leave = true
past w_clear = true
past w_next = true
past w_class = true
past w_count = true
past w_pass = true
past r_check = true
past r_chain = true
past r_chain_count = true
past r_chain_pass = true
past reading = true
past r_leave = true
past r_clear = true
past r_next = true
past r_hand = true
past r_store = true
past r_drop = true
past r_take = true
past (r_wake _) = true
past done = true
past aborted = true
past _ = false

-- It has passed the lock on, as far as the queue is concerned.
abbrev pub passed : Place → Bool
passed r_drop = true
passed r_take = true
passed (r_wake _) = true
passed done = true
passed _ = false

abbrev pub is_done : Place → Bool
is_done done = true
is_done _ = false

-- It has not yet written to its predecessor.
abbrev pub is_new : Place → Bool
is_new (w_mark _) = true
is_new (r_class _) = true
is_new (r_swap _) = true
is_new _ = false

abbrev pub swaps : Place → Bool
swaps (r_swap _) = true
swaps _ = false

-- What a place tells of the thread's own request.
abbrev pub PlaceOk : ℕ → Request → Place → Type 0
PlaceOk t r outside = Unit
PlaceOk t r done = Unit
PlaceOk t r aborted = Unit
PlaceOk t r faulted = ⊥
PlaceOk t r w_announce = (r.lockclass ≡ 1) × (r.entitled ≡ true)
PlaceOk t r w_check = (r.lockclass ≡ 1) × (r.entitled ≡ true)
PlaceOk t r w_take = (r.lockclass ≡ 1) × (r.entitled ≡ true)
PlaceOk t r w_unblock = (r.lockclass ≡ 1) × (r.entitled ≡ true)
PlaceOk t r (w_mark p) = (r.lockclass ≡ 1) × (p + 1 ≡ t)
PlaceOk t r (w_link p) = (r.lockclass ≡ 1) × (p + 1 ≡ t)
PlaceOk t r w_spin = r.lockclass ≡ 1
PlaceOk t r w_assert = r.lockclass ≡ 1
PlaceOk t r writing = r.lockclass ≡ 1
PlaceOk t r w_leave = r.lockclass ≡ 1
PlaceOk t r w_clear = r.lockclass ≡ 1
PlaceOk t r w_next = r.lockclass ≡ 1
PlaceOk t r w_class = (r.lockclass ≡ 1) × (r.next ≢ none)
PlaceOk t r w_count = (r.lockclass ≡ 1) × (r.next ≢ none)
PlaceOk t r w_pass = (r.lockclass ≡ 1) × (r.next ≢ none)
PlaceOk t r r_count = (r.lockclass ≡ 0) × (r.entitled ≡ true)
PlaceOk t r (r_class p) = (r.lockclass ≡ 0) × (p + 1 ≡ t)
PlaceOk t r (r_swap p) = (r.lockclass ≡ 0) × (p + 1 ≡ t)
PlaceOk t r (r_link p) = (r.lockclass ≡ 0) × (p + 1 ≡ t)
PlaceOk t r r_spin = r.lockclass ≡ 0
PlaceOk t r (r_join p) = (r.lockclass ≡ 0) × (p + 1 ≡ t) × (r.entitled ≡ true)
PlaceOk t r (r_join_link p) = (r.lockclass ≡ 0) × (p + 1 ≡ t) × (r.entitled ≡ true)
PlaceOk t r r_unblock = (r.lockclass ≡ 0) × (r.entitled ≡ true)
PlaceOk t r r_check = r.lockclass ≡ 0
PlaceOk t r r_chain = (r.lockclass ≡ 0) × (r.successor_class ≡ 0)
PlaceOk t r r_chain_count = (r.lockclass ≡ 0) × (r.successor_class ≡ 0) × (r.next ≢ none)
PlaceOk t r r_chain_pass = (r.lockclass ≡ 0) × (r.successor_class ≡ 0) × (r.next ≢ none)
PlaceOk t r reading = r.lockclass ≡ 0
PlaceOk t r r_leave = r.lockclass ≡ 0
PlaceOk t r r_clear = r.lockclass ≡ 0
PlaceOk t r r_next = r.lockclass ≡ 0
PlaceOk t r r_hand = (r.lockclass ≡ 0) × (r.next ≢ none)
PlaceOk t r r_store = (r.lockclass ≡ 0) × (r.successor_class ≡ 1) × (r.next ≢ none)
PlaceOk t r r_drop = r.lockclass ≡ 0
PlaceOk t r r_take = r.lockclass ≡ 0
PlaceOk t r (r_wake w) = r.lockclass ≡ 0

-- `next` is the request that arrived next.
abbrev pub NextOk : (n t : ℕ) → Option ℕ → Type 0
NextOk n t none = Unit
NextOk n t (some x) = (x ≡ t + 1) × (t + 1 < n)

pub record Own (n t : ℕ) (r : Request) : Type 0 where
  pub unblocked : r.blocked ≡ false → r.entitled ≡ true
  pub let_in : past r.place ≡ true → r.entitled ≡ true
  pub next : NextOk n t r.next
  pub succ : (r.successor_class ≡ 2) ⊎ (t + 1 < n)
  pub kind : r.lockclass ≤ 1
  pub at : PlaceOk t r r.place

-- A request and the one that arrived next.
pub record Pair (r s : Request) : Type 0 where
  pub both : s.entitled ≡ true → r.entitled ≡ true
  pub behind_writer : s.entitled ≡ true → r.lockclass ≡ 1 → is_done r.place ≡ true
  pub writer : s.entitled ≡ true → s.lockclass ≡ 1 → passed r.place ≡ true
  pub reads : r.successor_class ≡ 0 → s.lockclass ≡ 0
  pub writes : r.successor_class ≡ 1 → s.lockclass ≡ 1
  pub new : is_new s.place ≡ true → r.successor_class ≡ 2
  pub behind_reader : swaps s.place ≡ true → r.lockclass ≡ 0

pub record Requests (n : ℕ) (q : ℕ → Request) : Type 0 where
  pub own : (t : ℕ) → t < n → Own n t (q t)
  pub pair : (t : ℕ) → t + 1 < n → Pair (q t) (q (t + 1))

-- A request that has the lock, or is to have it.
abbrev pub IsEntitled : Lock → ℕ → Type 0
IsEntitled m w = (w < m.arrived) × ((m.requests w).entitled ≡ true)

abbrev pub WakeOk : Lock → Place → Type 0
WakeOk m (r_wake w) = IsEntitled m w
WakeOk m _ = Unit

abbrev pub WriterOk : Lock → Option ℕ → Type 0
WriterOk m none = Unit
WriterOk m (some w) = IsEntitled m w

-- When nobody is in the queue, the last one that was has left it.
abbrev pub TailOk : Lock → Option ℕ → Type 0
TailOk m none = (m.arrived ≡ 0) ⊎ (passed (m.requests (m.arrived - 1)).place ≡ true)
TailOk m (some x) = x + 1 ≡ m.arrived

pub record Inv (m : Lock) : Type 0 where
  pub requests : Requests m.arrived m.requests
  pub later : (t : ℕ) → m.arrived ≤ t → (m.requests t).place ≡ outside
  pub next_writer : WriterOk m m.next_writer
  pub wakes : (t : ℕ) → WakeOk m (m.requests t).place
  pub tail : TailOk m m.tail
