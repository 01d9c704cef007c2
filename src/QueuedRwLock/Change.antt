-- ===== src/QueuedRwLock/Change.antt =====
-- delete-me/queued_rw_lock.hpp: a request changes, and what is asked of it still holds.
use mathlib.Core.Path.{subst}
use akl.Base.{ap, Bool-cases, ℕ, ◌+◌, ◌<◌, ◌≡◌, ◌≢◌, inl, inr, sym, ◌∙◌, true, ◌==◌, arith}
use akl.QueuedRwLock.{Place, Request, put}
use akl.QueuedRwLock.Invariant.{past, passed, is_done, is_new, swaps, PlaceOk, Own, Pair, Requests}

pub put_here : (i : ℕ) (f : Request → Request) (q : ℕ → Request) → put i f q i ≡ f (q i)
unfolding put
put_here i f q = ground arith

pub put_there : (i j : ℕ) (f : Request → Request) (q : ℕ → Request) → j ≢ i → put i f q j ≡ q j
unfolding put
put_there i j f q ne = ground arith

-- A request changes: it keeps what is asked of it, of its predecessor and of its successor.
pub put-Requests :
    (n i : ℕ) (f : Request → Request) (q : ℕ → Request)
    → Requests n q
    → (i < n → Own n i (q i) → Own n i (f (q i)))
    → ((t : ℕ) → t + 1 ≡ i → i < n → Pair (q t) (q i) → Pair (q t) (f (q i)))
    → (i + 1 < n → Pair (q i) (q (i + 1)) → Pair (f (q i)) (q (i + 1)))
    → Requests n (put i f q)
put-Requests n i f q rs own left right = record { own = own'; pair = pair' }
  where
    own' : (t : ℕ) → t < n → Own n t (put i f q t)
    own' t l = elim (Bool-cases (t == i)) [
      | inl h ↦
          let e : t ≡ i = ground arith in
          rw (e, put_here i f q) (own (omega arith) (rw⁻¹ e (rs.own t l)))
      | inr h ↦ rw (put_there i t f q (ground arith)) (rs.own t l)
    ]

    pair' : (t : ℕ) → t + 1 < n → Pair (put i f q t) (put i f q (t + 1))
    pair' t l = elim (Bool-cases (t == i)) [
      | inl h ↦
          let e : t ≡ i = ground arith in
          rw (put_there i (t + 1) f q (omega arith))
            (rw (e, put_here i f q) (right (omega arith) (rw⁻¹ e (rs.pair t l))))
      | inr h ↦ elim (Bool-cases (t + 1 == i)) [
        | inl h' ↦
            let e : t + 1 ≡ i = ground arith in
            rw (put_there i t f q (omega arith))
              (rw (e, put_here i f q) (left t e (omega arith) (rw⁻¹ e (rs.pair t l))))
        | inr h' ↦
            rw (put_there i t f q (ground arith), put_there i (t + 1) f q (ground arith))
              (rs.pair t l)
      ]
    ]

pub passed-past : (p : Place) → passed p ≡ true → past p ≡ true
passed-past p h = ground arith

pub passed_writer :
    (t : ℕ) (r : Request) (p : Place)
    → passed p ≡ true
    → r.lockclass ≡ 1
    → PlaceOk t r p
    → is_done p ≡ true
passed_writer t r p h c ok = ground arith

pub ok_of :
    (p : Place) (n i : ℕ) (q : ℕ → Request)
    → Requests n q
    → i < n
    → (q i).place ≡ p
    → PlaceOk i (q i) p × (past p ≡ true → (q i).entitled ≡ true)
ok_of p n i q rs l e =
    let own = rs.own i l in
    (subst (λ x. PlaceOk i (q i) x) e own.at, λ h. own.let_in (ap past e ∙ h))

-- A request and its predecessor.
pub predecessor :
    (n p i : ℕ) (q : ℕ → Request) → Requests n q → p + 1 ≡ i → i < n → Pair (q p) (q i)
predecessor n p i q rs e l = subst (λ j. Pair (q p) (q j)) e (rs.pair p (omega arith))

-- A thread goes from a place to another one.
pub record Goes (i : ℕ) (r : Request) (from to : Place) : Type 0 where
  pub ok : PlaceOk i (record r { place = to }) to
  pub lets_in : past to ≡ true → r.entitled ≡ true
  pub passes : passed from ≡ true → passed to ≡ true
  pub ends : is_done from ≡ true → is_done to ≡ true
  pub renews : is_new to ≡ true → is_new from ≡ true
  pub stays : swaps to ≡ true → swaps from ≡ true

pub goto-Requests :
    (n i : ℕ) (q : ℕ → Request) (from to : Place)
    → Requests n q
    → (q i).place ≡ from
    → Goes i (q i) from to
    → Requests n (put i (λ r. record r { place = to }) q)
goto-Requests n i q from to rs e g =
    put-Requests n i (λ r. record r { place = to }) q rs
      (λ l own. record {
        unblocked = own.unblocked;
        let_in = g.lets_in;
        next = own.next;
        succ = own.succ;
        kind = own.kind;
        at = g.ok;
      })
      (λ t same l pair. record {
        both = pair.both;
        behind_writer = pair.behind_writer;
        writer = pair.writer;
        reads = pair.reads;
        writes = pair.writes;
        new = λ h. pair.new (ap is_new e ∙ g.renews h);
        behind_reader = λ h. pair.behind_reader (ap swaps e ∙ g.stays h);
      })
      (λ l pair. record {
        both = pair.both;
        behind_writer = λ h c. g.ends (ap is_done (sym e) ∙ pair.behind_writer h c);
        writer = λ h c. g.passes (ap passed (sym e) ∙ pair.writer h c);
        reads = pair.reads;
        writes = pair.writes;
        new = pair.new;
        behind_reader = pair.behind_reader;
      })
