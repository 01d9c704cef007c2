-- ===== src/QueuedRwLock.antt =====
-- delete-me/queued_rw_lock.hpp: a reader-writer lock whose threads wait in a queue of requests, each
-- at its own. A request is known by its number, in the order of the exchanges of `tail`; one that is
-- used again is a new one. A move is one access to the lock or to a request. A thread first writes
-- its own request, which no other sees before the exchange, so these writes and the exchange are
-- one move. `padding` is the byte of `tempold` that `readlock` leaves as it was; the same byte of a
-- request is 0. `entitled` is no field: it records that the lock has been passed to the request.
-- The assertion in `writelock` is compiled; where it fails, the thread is at `aborted`.
pub mod Invariant
pub mod Change
pub mod Writes
pub mod Moves
pub mod Acts
pub mod Arrival
pub mod Order
use akl.Base.{
  ℕ, ◌+◌, Bool, true, false, ◌&&◌, Option, none, some, List, [], ◌∷◌, ◌==◌, if◌then◌else◌,
}
use akl.Machine.Words.{wadd, wsub, u64}

abbrev pub request_read : ℕ
request_read = 0

abbrev pub request_write : ℕ
request_write = 1

abbrev pub request_none : ℕ
request_none = 2

-- Where a thread is; a number is its `predecessor`, or the request that it is to wake.
pub data Place : Type 0 where
  outside done : Place
  w_announce w_check w_take w_unblock : Place  -- `writelock`, with no predecessor
  w_mark w_link : ℕ → Place  -- before its writes to the predecessor
  w_spin w_assert : Place
  writing : Place
  w_leave w_clear w_next w_class w_count w_pass : Place  -- `wrunlock`
  r_count : Place  -- `readlock`, with no predecessor
  r_class r_swap r_link : ℕ → Place  -- before its accesses to the predecessor
  r_spin : Place
  r_join r_join_link : ℕ → Place  -- the predecessor reads, too
  r_unblock : Place
  r_check r_chain r_chain_count r_chain_pass : Place  -- from `successor_class == READ` on
  reading : Place
  r_leave r_clear r_next r_hand r_store r_drop r_take : Place  -- `rdunlock`
  r_wake : ℕ → Place  -- before `w->s.state.blocked = false`
  aborted faulted : Place

pub record Request : Type 0 where
  pub lockclass : ℕ
  pub next : Option ℕ
  pub successor_class : ℕ
  pub blocked : Bool
  pub place : Place
  pub entitled : Bool

pub record Lock : Type 0 where
  pub tail : Option ℕ
  pub reader_count : ℕ  -- size_t
  pub next_writer : Option ℕ
  pub requests : ℕ → Request
  pub arrived : ℕ

abbrev unused : Request
unused = record {
  lockclass = request_none;
  next = none;
  successor_class = request_none;
  blocked = false;
  place = outside;
  entitled = false;
}

-- The constructor.
abbrev pub construct : Lock
construct = record {
  tail = none;
  reader_count = 0;
  next_writer = none;
  requests = λ _. unused;
  arrived = 0;
}

unfoldable pub put : ℕ → (Request → Request) → (ℕ → Request) → ℕ → Request
put i f q j = if j == i then f (q j) else q j

abbrev pub update : ℕ → (Request → Request) → Lock → Lock
update i f m = record m { requests = put i f m.requests }

abbrev pub goto : Place → ℕ → Lock → Lock
goto p i m = update i (λ r. record r { place = p }) m

abbrev pub is : ℕ → Option ℕ → Bool
is i none = false
is i (some j) = j == i

-- The start of `writelock` or `readlock`, with the exchange of `tail`.
abbrev pub first_place : ℕ → Option ℕ → Place
first_place c none = if c == request_write then w_announce else r_count
first_place c (some p) = if c == request_write then w_mark p else r_class p

abbrev pub is_none : Option ℕ → Bool
is_none none = true
is_none (some _) = false

unfoldable pub arrive : ℕ → Lock → Lock
arrive c m =
    let r : Request = record {
      lockclass = c;
      next = none;
      successor_class = request_none;
      blocked = true;
      place = first_place c m.tail;
      entitled = is_none m.tail;
    } in
    record (update m.arrived (λ _. r) m) { tail = some m.arrived; arrived = m.arrived + 1 }

-- The accesses to `reader_count`.
abbrev pub inc_count : Lock → Lock
inc_count m = record m { reader_count = wadd u64 m.reader_count 1 }

abbrev pub dec_count : Lock → Lock
dec_count m = record m { reader_count = wsub u64 m.reader_count 1 }

-- `x->s.state.blocked = false`
abbrev pub unblock : ℕ → Lock → Lock
unblock x m = update x (λ r. record r { blocked = false }) m

-- The request has the lock from now on.
abbrev pub entitle : ℕ → Lock → Lock
entitle x m = update x (λ r. record r { entitled = true }) m

-- By `I->next`: NULL, or a request.
abbrev pub on_next : Option ℕ → Lock → (ℕ → Lock) → Lock
on_next none if_null if_some = if_null
on_next (some x) if_null if_some = if_some x

-- What happens next: a thread calls `writelock` or `readlock`, or the thread with a request moves.
pub data Action : Type 0 where
  calls_writelock calls_readlock : Action
  goes : ℕ → Action

module _ (padding : ℕ) where
  -- The next move of the thread with request `i`, from a place.
  unfoldable pub act : Place → ℕ → Lock → Lock
  act outside i m = m
  act done i m = m
  act w_announce i m = goto w_check i (record m { next_writer = some i })
  act w_check i m = goto (if m.reader_count == 0 then w_take else w_spin) i m
  act w_take i m =
      goto (if is i m.next_writer then w_unblock else w_spin) i (record m { next_writer = none })
  act w_unblock i m = unblock i (goto w_spin i m)
  act (w_mark p) i m =
      update p (λ r. record r { successor_class = request_write }) (goto (w_link p) i m)
  act (w_link p) i m = update p (λ r. record r { next = some i }) (goto w_spin i m)
  act w_spin i m = if (m.requests i).blocked then m else goto w_assert i m
  act w_assert i m = goto (if m.reader_count == 0 then writing else aborted) i m
  act writing i m = goto w_leave i m
  act w_leave i m = on_next (m.requests i).next (goto w_clear i m) (λ _. goto w_next i m)
  act w_clear i m = if is i m.tail then goto done i (record m { tail = none }) else goto w_next i m
  act w_next i m = on_next (m.requests i).next m (λ _. goto w_class i m)
  act w_class i m =
      on_next (m.requests i).next (goto faulted i m)
        (λ x. goto (if (m.requests x).lockclass == request_read then w_count else w_pass) i m)
  act w_count i m = goto w_pass i (inc_count m)
  act w_pass i m =
      on_next (m.requests i).next (goto faulted i m) (λ x. unblock x (entitle x (goto done i m)))
  act r_count i m = goto r_unblock i (inc_count m)
  act (r_class p) i m =
      goto (if (m.requests p).lockclass == request_write then r_link p else r_swap p) i m
  act (r_swap p) i m =
      if (m.requests p).blocked && (m.requests p).successor_class == request_none && padding == 0
      then update p (λ r. record r { successor_class = request_read }) (goto (r_link p) i m)
      else goto (r_join p) i (entitle i m)
  act (r_link p) i m = update p (λ r. record r { next = some i }) (goto r_spin i m)
  act r_spin i m = if (m.requests i).blocked then m else goto r_check i m
  act (r_join p) i m = goto (r_join_link p) i (inc_count m)
  act (r_join_link p) i m = update p (λ r. record r { next = some i }) (goto r_unblock i m)
  act r_unblock i m = unblock i (goto r_check i m)
  act r_check i m =
      goto (if (m.requests i).successor_class == request_read then r_chain else reading) i m
  act r_chain i m = on_next (m.requests i).next m (λ _. goto r_chain_count i m)
  act r_chain_count i m = goto r_chain_pass i (inc_count m)
  act r_chain_pass i m =
      on_next (m.requests i).next (goto faulted i m) (λ x. unblock x (entitle x (goto reading i m)))
  act reading i m = goto r_leave i m
  act r_leave i m = on_next (m.requests i).next (goto r_clear i m) (λ _. goto r_next i m)
  act r_clear i m =
      if is i m.tail then goto r_drop i (record m { tail = none }) else goto r_next i m
  act r_next i m = on_next (m.requests i).next m (λ _. goto r_hand i m)
  act r_hand i m =
      goto (if (m.requests i).successor_class == request_write then r_store else r_drop) i m
  act r_store i m =
      on_next (m.requests i).next (goto r_drop i (record m { next_writer = none }))
        (λ x. entitle x (goto r_drop i (record m { next_writer = some x })))
  act r_drop i m = goto (if (dec_count m).reader_count == 0 then r_take else done) i (dec_count m)
  act r_take i m =
      goto (elim m.next_writer [ none ↦ done | some w ↦ r_wake w ]) i
        (record m { next_writer = none })
  act (r_wake w) i m = unblock w (goto done i m)
  act aborted i m = m
  act faulted i m = m

  unfoldable pub step : Action → Lock → Lock
  step calls_writelock m = arrive request_write m
  step calls_readlock m = arrive request_read m
  step (goes i) m = act (m.requests i).place i m

  unfoldable pub run : List Action → Lock → Lock
  run [] m = m
  run (a ∷ actions) m = run actions (step a m)
