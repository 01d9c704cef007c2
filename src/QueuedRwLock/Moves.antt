-- ===== src/QueuedRwLock/Moves.antt =====
-- delete-me/queued_rw_lock.hpp: what a move of a thread keeps of the requests.
use mathlib.Core.Path.{subst}
use akl.Base.{
  ap, ℕ, ◌+◌, ◌<◌, ◌≡◌, refl, sym, ◌∙◌, Bool, true, false, Option, none, some, if◌then◌else◌, arith,
}
use akl.QueuedRwLock.{Place, r_class, r_swap, r_join, on_next, Request, put, Lock}
use akl.QueuedRwLock.Invariant.{passed, is_done, is_new, swaps, NextOk, Requests}
use akl.QueuedRwLock.Change.{
  put_here, put_there, put-Requests, ok_of, predecessor, Goes, goto-Requests,
}
use akl.QueuedRwLock.Writes.{mark-Requests, link-Requests, unblock-Requests, entitle-Requests}

module _ (n i : ℕ) (q : ℕ → Request) (from to : Place) (rs : Requests n q) (l : i < n)
    (e : (q i).place ≡ from) (g : Goes i (q i) from to) where
  pub gone : Requests n (put i (λ r. record r { place = to }) q)
  gone = goto-Requests n i q from to rs e g

  -- The thread then writes to its predecessor, or to its own request.
  pub then_mark :
      (p c : ℕ)
      → p + 1 ≡ i
      → is_new from ≡ true
      → is_new to ≡ false
      → c ≡ (q i).lockclass
      → Requests n
          (put p (λ r. record r { successor_class = c }) (put i (λ r. record r { place = to }) q))
  then_mark p c same new old is_class =
      let pair = predecessor n p i q rs same l in
      mark-Requests n p c (put i (λ r. record r { place = to }) q) gone (omega arith)
        (rw (put_there i p (λ r. record r { place = to }) q (omega arith))
          (pair.new (ap is_new e ∙ new)))
        (rw (same, put_here i (λ r. record r { place = to }) q) old)
        (rw (same, put_here i (λ r. record r { place = to }) q) is_class)

  pub then_link :
      (p : ℕ)
      → p + 1 ≡ i
      → Requests n
          (put p (λ r. record r { next = some i }) (put i (λ r. record r { place = to }) q))
  then_link p same =
      subst
        (λ j.
          Requests n
            (put p (λ r. record r { next = some j }) (put i (λ r. record r { place = to }) q)))
        same (link-Requests n p (put i (λ r. record r { place = to }) q) gone (omega arith))

  pub then_unblock :
      (q i).entitled ≡ true
      → Requests n
          (put i (λ r. record r { blocked = false }) (put i (λ r. record r { place = to }) q))
  then_unblock h =
      unblock-Requests n i (put i (λ r. record r { place = to }) q) gone
        (rw (put_here i (λ r. record r { place = to }) q) h)

  -- It passes the lock to its successor.
  pub then_entitle :
      (q i).entitled ≡ true
      → ((q i).lockclass ≡ 1 → is_done to ≡ true)
      → ((q (i + 1)).lockclass ≡ 1 → passed to ≡ true)
      → Requests n
          (put (i + 1) (λ r. record r { entitled = true }) (put i (λ r. record r { place = to }) q))
  then_entitle h w p =
      entitle-Requests n i (put i (λ r. record r { place = to }) q) gone
        (rw (put_here i (λ r. record r { place = to }) q) h)
        (rw (put_here i (λ r. record r { place = to }) q) w)
        (rw
          (
            put_here i (λ r. record r { place = to }) q,
            put_there i (i + 1) (λ r. record r { place = to }) q (omega arith),
          )
          p)

  pub then_pass :
      (q i).entitled ≡ true
      → ((q i).lockclass ≡ 1 → is_done to ≡ true)
      → ((q (i + 1)).lockclass ≡ 1 → passed to ≡ true)
      → Requests n (
          put
            (i + 1)
            (λ r. record r { blocked = false })
            (put
              (i + 1)
              (λ r. record r { entitled = true })
              (put i (λ r. record r { place = to }) q)))
  then_pass h w p =
      let r = then_entitle h w p in
      let q' = put i (λ r. record r { place = to }) q in
      unblock-Requests n (i + 1) (put (i + 1) (λ r. record r { entitled = true }) q') r
        (rw (put_here (i + 1) (λ r. record r { entitled = true }) q') refl)

module _ (n : ℕ) where
  pub either :
      (b : Bool) (x y : Lock)
      → (b ≡ true → Requests n x.requests)
      → (b ≡ false → Requests n y.requests)
      → Requests n (if b then x else y).requests
  either true x y h k = h refl
  either false x y h k = k refl

  pub by_next :
      (i : ℕ) (o : Option ℕ) (x : Lock) (f : ℕ → Lock)
      → NextOk n i o
      → (o ≡ none → Requests n x.requests)
      → (o ≡ some (i + 1) → i + 1 < n → Requests n (f (i + 1)).requests)
      → Requests n (on_next o x f).requests
  by_next i none x f ok h k = h refl
  by_next i (some y) x f (same, l) h k = rw same (k (ap some same) l)

pub goto-entitled :
    (i x : ℕ) (to : Place) (q : ℕ → Request)
    → (put i (λ r. record r { place = to }) q x).entitled ≡ (q x).entitled
unfolding put
goto-entitled i x to q = ground arith

-- The predecessor reads and does not wait: the reader has the lock, too.
pub joins :
    (n p i : ℕ) (q : ℕ → Request)
    → Requests n q
    → i < n
    → (q i).place ≡ r_swap p
    → (q p).entitled ≡ true
    → Requests n
        (put i (λ r. record r { place = r_join p }) (put i (λ r. record r { entitled = true }) q))
joins n p i q rs l e let_in =
    let ok = ok_of (r_swap p) n i q rs l e in
    let pair = predecessor n p i q rs ok.0.1 l in
    let reads = pair.behind_reader (ap swaps e) in
    let rs' : Requests n (put i (λ r. record r { entitled = true }) q) =
      subst (λ j. Requests n (put j (λ r. record r { entitled = true }) q)) ok.0.1
        (entitle-Requests n p q rs let_in (λ h. absurd (omega (arith, reads)))
          (λ h. absurd (ground (arith, ok.0)))) in
    goto-Requests n i (put i (λ r. record r { entitled = true }) q) (r_swap p) (r_join p) rs'
      (rw (put_here i (λ r. record r { entitled = true }) q) e)
      (rw (put_here i (λ r. record r { entitled = true }) q) (ground (arith, ok.0)))

-- A reader has seen that its predecessor reads.
pub gone_swap :
    (n p i : ℕ) (q : ℕ → Request)
    → Requests n q
    → i < n
    → (q i).place ≡ r_class p
    → (q p).lockclass ≡ 0
    → Requests n (put i (λ r. record r { place = r_swap p }) q)
gone_swap n p i q rs l e reads =
    let ok = ok_of (r_class p) n i q rs l e in
    put-Requests n i (λ r. record r { place = r_swap p }) q rs
      (λ _ own. record {
        unblocked = own.unblocked;
        let_in = λ h. absurd (ground arith);
        next = own.next;
        succ = own.succ;
        kind = own.kind;
        at = ok.0;
      })
      (λ t same _ pair. record {
        both = pair.both;
        behind_writer = pair.behind_writer;
        writer = pair.writer;
        reads = pair.reads;
        writes = pair.writes;
        new = λ _. pair.new (ap is_new e);
        behind_reader = λ _.
            let here : t ≡ p = omega arith in subst (λ j. (q j).lockclass ≡ 0) (sym here) reads;
      })
      (λ _ pair. record {
        both = pair.both;
        behind_writer = λ h c. ap is_done (sym e) ∙ pair.behind_writer h c ∙ absurd (ground arith);
        writer = λ h c. absurd (ground arith);
        reads = pair.reads;
        writes = pair.writes;
        new = pair.new;
        behind_reader = pair.behind_reader;
      })
