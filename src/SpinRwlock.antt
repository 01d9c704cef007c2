-- ===== src/SpinRwlock.antt =====
-- delete-me/spinrwlock.hpp: a reader-writer lock with tickets. A move is one access of a thread to
-- `l`, whose bytes are `write` and `read`; `users` is the upper half of the word, of which a ticket
-- is the lowest byte. `l.s.read++` is a read and a write, and `wrunlock` reads all and writes the
-- lower half. `taken` is no field of the class: it counts the tickets, and a thread carries the number
-- of its own beside its byte. `unlock`, which reads the field `writing`, is not modelled.
pub mod Tickets
pub mod Turns
use akl.Base.{Bool, true, false, ℕ, ◌+◌, ◌%◌, ◌^◌, ◌≢◌}
use akl.Machine.Words.{wadd}

pub record Lock : Type 0 where
  pub write : ℕ  -- unsigned char
  pub read : ℕ  -- unsigned char
  pub users : ℕ  -- two bytes
  pub writing : Bool
  pub taken : ℕ

-- The constructor, which leaves `writing` as it is.
abbrev pub construct : Bool → Lock
construct b = record { write = 0; read = 0; users = 0; writing = b; taken = 0 }

-- `atomic_xadd(&l.u, 1 << 16)`
abbrev pub take : Lock → Lock
take l = record l { users = wadd (2 ^ 16) l.users 1; taken = l.taken + 1 }

-- `(unsigned char) (me >> 16)`
abbrev pub val : Lock → ℕ
val l = l.users % 256

-- Where a thread is, with `val` and the number of its ticket.
pub data Place : Type 0 where
  outside : Place
  write_wait : ℕ → ℕ → Place  -- in the loop of `writelock`
  write_mark : ℕ → Place  -- before `writing = true`
  writing : ℕ → Place  -- `writelock` has returned
  write_leave : ℕ → ℕ → ℕ → Place  -- in `wrunlock`, with the bytes that it is to write
  write_unmark : Place  -- before `writing = false`
  read_wait : ℕ → ℕ → Place  -- in the loop of `readlock`
  read_enter : ℕ → Place  -- before the read of `l.s.read++`
  read_pass : ℕ → ℕ → Place  -- before its write, with the value
  reading : Place  -- `readlock` has returned

pub data Move (l : Lock) : Place → Lock → Place → Type 0 where
  calls_writelock : Move l outside (take l) (write_wait (val l) l.taken)
  write_waits : {v t : ℕ} → v ≢ l.write → Move l (write_wait v t) l (write_wait v t)
  sees_turn : {t : ℕ} → Move l (write_wait l.write t) l (write_mark t)
  writes : {t : ℕ} → Move l (write_mark t) (record l { writing = true }) (writing t)
  calls_wrunlock :
      {t : ℕ} → Move l (writing t) l (write_leave (wadd 256 l.write 1) (wadd 256 l.read 1) t)
  passes_on :
      {w r t : ℕ} → Move l (write_leave w r t) (record l { write = w; read = r }) write_unmark
  unmarks : Move l write_unmark (record l { writing = false }) outside
  calls_readlock : Move l outside (take l) (read_wait (val l) l.taken)
  read_waits : {v t : ℕ} → v ≢ l.read → Move l (read_wait v t) l (read_wait v t)
  is_next : {t : ℕ} → Move l (read_wait l.read t) l (read_enter t)
  counts : {t : ℕ} → Move l (read_enter t) l (read_pass (wadd 256 l.read 1) t)
  reads : {r t : ℕ} → Move l (read_pass r t) (record l { read = r }) reading
  rdunlock : Move l reading (record l { write = wadd 256 l.write 1 }) outside
