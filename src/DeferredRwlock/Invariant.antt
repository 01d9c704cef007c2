-- ===== src/DeferredRwlock/Invariant.antt =====
-- What holds of the lock between the calls of its methods.
use mathlib.Core.Path.{subst}
use akl.Base.{
  some, ℕ, ◌<◌, ◌^◌, ◌≡◌, ◌≢◌, ◌⊎◌, refl, sym, Bool, true, false, not, ◌&&◌, List, [], arith, ◌==◌,
  if◌then◌else◌,
}
use akl.DeferredRwlock.Memory.{
  Ptr, null, request, Lock, write, ok, spins, lock, set_next, set_lockclass,
}
use akl.DeferredRwlock.Queue.{Cell, has, All, Linked-write_write, write_self}
use akl.DeferredRwlock.Steps.{set_next_lem, set_lockclass_lem}
use akl.DeferredRwlock.Spec.{IsQueue}
use akl.DeferredRwlock.Prefix.{Stops}
use akl.DeferredRwlock.Completion.{IsRequest}
use akl.DeferredRwlock.Enqueue.{IsNew}

-- The queue of the lock is `xs`. A writer excludes readers, only a lock that is taken has waiters,
-- and a reader is at the head of the queue only while a writer has the lock.
pub record Inv (w : Lock) (xs : List Cell) : Type 0 where
  pub queue : IsQueue w xs
  pub requests : All IsRequest xs
  pub excl : w.writer ≡ true → w.reader_count ≡ 0
  pub first : w.writer ≡ false → Stops xs
  pub busy : xs ≢ [] → (w.writer ≡ true) ⊎ (0 < w.reader_count)
  pub count_lt : w.reader_count < 2 ^ 16
  pub free : w.spinner ≡ 0

-- Nobody has the lock.
abbrev pub idle : Lock → Bool
idle w = (w.reader_count == 0) && not w.writer

pub idle-count : (w : Lock) → idle w ≡ true → w.reader_count ≡ 0
idle-count w e = ground arith

pub taken : (w : Lock) → idle w ≡ false → (w.writer ≡ true) ⊎ (0 < w.reader_count)
taken w e = ground arith

-- The caller's request: any request that is not queued. A method sets its class and its `next`.
pub record Offered (w : Lock) (xs : List Cell) (i : Cell) : Type 0 where
  pub there : i.ptr ≢ null
  pub out : has i.ptr xs ≡ false
  pub class : ℕ
  pub next : Ptr
  pub holds : w.heap i.ptr ≡ some (request class i.id next)

pub lock_lem : (w : Lock) → w.spinner ≡ 0 → lock w ≡ ok tt (record w { spinner = 1 })
unfolding lock
lock_lem w e =
    subst
      (λ n.
        (if n == 0 then ok tt (record w { spinner = 1 }) else spins)
        ≡ ok tt (record w { spinner = 1 }))
      (sym e) refl

module _ (w : Lock) (xs : List Cell) (i : Cell) (inv : Inv w xs) (o : Offered w xs i) where
  abbrev raw : Cell
  raw = record { ptr = i.ptr; class = o.class; id = i.id }

  abbrev pub cleared : Lock
  cleared = record w { heap = write w.heap i.ptr (request o.class i.id null) }

  -- After the request has been filled in, and the spinlock has been taken.
  abbrev pub prepared : Lock
  prepared = record w {
    heap = write (write w.heap i.ptr (request o.class i.id null)) i.ptr (request i.class i.id null);
    spinner = 1;
  }

  pub clear : set_next i.ptr null w ≡ ok tt cleared
  clear = set_next_lem w raw o.next o.there o.holds null

  pub classify :
      (c : ℕ)
      → i.class ≡ c
      → set_lockclass i.ptr c cleared ≡ ok tt (record prepared { spinner = w.spinner })
  classify c e =
      subst (λ d. set_lockclass i.ptr d cleared ≡ ok tt (record prepared { spinner = w.spinner })) e
        (set_lockclass_lem cleared raw null o.there
          (write_self w.heap i.ptr (request o.class i.id null)) i.class)

  pub take : lock (record prepared { spinner = w.spinner }) ≡ ok tt prepared
  take = lock_lem (record prepared { spinner = w.spinner }) inv.free

  pub prepared-IsQueue : IsQueue prepared xs
  prepared-IsQueue = record {
    head = inv.queue.head;
    chain =
        Linked-write_write w.heap i.ptr i.ptr (request o.class i.id null)
          (request i.class i.id null) xs null o.out o.out inv.queue.chain;
    distinct = inv.queue.distinct;
    tail = inv.queue.tail;
  }

  pub prepared-IsNew : IsNew prepared xs i
  prepared-IsNew = record {
    there = o.there;
    out = o.out;
    holds =
        write_self (write w.heap i.ptr (request o.class i.id null)) i.ptr
          (request i.class i.id null);
  }
