-- ===== src/SpinRwlock2.antt =====
-- delete-me/spinrwlock2.hpp: a reader-writer lock in one word `l`. A move is one access of a thread to
-- `l`. On the two lowest bits, `l & RW_WAIT` is `l % 2` and `l & (RW_WAIT | RW_WRITE)` is `l % 4`, and
-- `atomic_set_bit(&l, RW_WAIT_BIT)` makes the lowest bit 1. The macros `cmpxchg`, `atomic_xadd`,
-- `atomic_add` and `atomic_set_bit` of delete-me/macro.hpp are the compiler's builtins.
pub mod Exclusion
use akl.Base.{ℕ, ◌+◌, ◌-◌, ◌%◌, ◌<◌, ◌≤◌, ◌≡◌, ◌≢◌}
use akl.Machine.Words.{wadd, wsub, u32}

abbrev pub rw_wait : ℕ
rw_wait = 1

abbrev pub rw_write : ℕ
rw_write = 2

abbrev pub rw_read : ℕ
rw_read = 4

-- The constructor.
abbrev pub construct : ℕ
construct = 0

-- Where a thread is, with the value of `state`.
pub data Place : Type 0 where
  outside : Place
  write_loop : Place  -- at the head of the loop of `writelock`
  exchange : ℕ → Place  -- before the `cmpxchg`
  read_again : Place  -- before the second read of `l`
  announce : ℕ → Place  -- before the test of `rw_wait`
  set_wait : Place  -- before `atomic_set_bit`
  write_wait : Place  -- in the inner loop of `writelock`
  writing : Place  -- `writelock` has returned
  read_wait : Place  -- in the inner loop of `readlock`
  add_read : Place  -- before the `atomic_xadd`
  undo : Place  -- before the `atomic_add` of `readlock`
  reading : Place  -- `readlock` has returned

pub data Move (l : ℕ) : Place → ℕ → Place → Type 0 where
  calls_writelock : Move l outside l write_loop
  sees_none : l < rw_write → Move l write_loop l (exchange l)
  sees_some : rw_write ≤ l → Move l write_loop l (announce l)
  exchanges : Move l (exchange l) rw_write writing
  loses : {state : ℕ} → l ≢ state → Move l (exchange state) l read_again
  reads_again : Move l read_again l (announce l)
  is_announced : {state : ℕ} → state % 2 ≡ 1 → Move l (announce state) l write_wait
  announces : {state : ℕ} → state % 2 ≡ 0 → Move l (announce state) l set_wait
  sets_wait : Move l set_wait (l - l % 2 + 1) write_wait
  write_waits : rw_wait < l → Move l write_wait l write_wait
  tries_again : l ≤ rw_wait → Move l write_wait l write_loop
  wrunlock : Move l writing (wsub u32 l rw_write) outside
  calls_readlock : Move l outside l read_wait
  read_waits : l % 4 ≢ 0 → Move l read_wait l read_wait
  sees_no_writer : l % 4 ≡ 0 → Move l read_wait l add_read
  reads : l % 4 ≡ 0 → Move l add_read (wadd u32 l rw_read) reading
  too_late : l % 4 ≢ 0 → Move l add_read (wadd u32 l rw_read) undo
  undoes : Move l undo (wsub u32 l rw_read) read_wait
  rdunlock : Move l reading (wsub u32 l rw_read) outside
