-- ===== src/DeferredRwlock/Steps.antt =====
-- The single reads and writes of the store, at a cell that is there.
use akl.Base.{ℕ, ◌+◌, ◌≡◌, ◌≢◌, arith}
use akl.DeferredRwlock.Memory.{
  Ptr, null, request, write, Lock, Run, Cmd, ok, and_then, fault, load, set_next, set_lockclass,
}
use akl.DeferredRwlock.Queue.{Cell, Holds}
use akl.DeferredRwlock.Ops.{u16, release_reader}

-- A call that ends, in a state and with a result of which `P` holds.
pub data Ends {A : Type 0} (P : A → Lock → Type 0) : Run A → Type 0 where
  ends : {a : A} {w : Lock} → P a w → Ends P (ok a w)

module _ (w : Lock) (x : Cell) (q : Ptr) (ne : x.ptr ≢ null) (h : Holds w.heap x q) where
  pub load_lem : load x.ptr w ≡ ok (request x.class x.id q) w
  unfolding load
  load_lem = ground arith

  pub set_next_lem :
      (p : Ptr)
      → set_next x.ptr p w ≡ ok tt (record w { heap = write w.heap x.ptr (request x.class x.id p) })
  unfolding set_next
  set_next_lem p = rw load_lem

  pub set_lockclass_lem :
      (c : ℕ)
      → set_lockclass x.ptr c w ≡ ok tt (record w { heap = write w.heap x.ptr (request c x.id q) })
  unfolding set_lockclass
  set_lockclass_lem c = rw load_lem

-- The state after a reader `x` in front of `q` has gone from behind the writer `lw` to behind the
-- reader `rt`.
abbrev pub moved : Lock → (lw rt x : Cell) → Ptr → Lock
moved w lw rt x q = record w {
  heap =
      write (write w.heap rt.ptr (request rt.class rt.id x.ptr)) lw.ptr (request lw.class lw.id q);
  reader_count = u16 (w.reader_count + 1);
}

pub release_reader_lem :
    (w : Lock) (lw rt x : Cell) (next old q : Ptr)
    → rt.ptr ≢ null
    → lw.ptr ≢ null
    → x.ptr ≢ null
    → rt.ptr ≢ lw.ptr
    → rt.ptr ≢ x.ptr
    → Holds w.heap lw next
    → Holds w.heap rt old
    → Holds w.heap x q
    → release_reader lw.ptr x.ptr rt.ptr w ≡ ok tt (moved w lw rt x q)
unfolding release_reader
release_reader_lem w lw rt x next old q nr nl nx rl rx hl hr hx =
    rw (set_next_lem w rt old nr hr x.ptr) (
      rw
        (load_lem
          (record w {
            heap = write w.heap rt.ptr (request rt.class rt.id x.ptr);
            reader_count = u16 (w.reader_count + 1);
          })
          x q nx (ground arith))
        (rw (
          set_next_lem
            (record w {
              heap = write w.heap rt.ptr (request rt.class rt.id x.ptr);
              reader_count = u16 (w.reader_count + 1);
            })
            lw next nl (ground arith) q)))

pub Ends-mono :
    {A : Type 0} {P Q : A → Lock → Type 0} {r : Run A}
    → Ends P r
    → ((a : A) (w : Lock) → P a w → Q a w)
    → Ends Q r
Ends-mono (ends p) weaken = ends (weaken _ _ p)

pub Ends-bind :
    {A B : Type 0} {P : A → Lock → Type 0} {Q : B → Lock → Type 0} {r : Run A} {k : A → Cmd B}
    → Ends P r
    → ((a : A) (w : Lock) → P a w → Ends Q (k a w))
    → Ends Q (and_then r k)
Ends-bind (ends p) next = next _ _ p

pub fault-bind :
    {A B : Type 0} {P : A → Lock → Type 0} {r : Run A} (k : A → Cmd B)
    → Ends P r
    → ((a : A) (w : Lock) → P a w → k a w ≡ fault)
    → and_then r k ≡ fault
fault-bind k (ends p) next = next _ _ p
