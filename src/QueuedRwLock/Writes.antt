-- ===== src/QueuedRwLock/Writes.antt =====
-- delete-me/queued_rw_lock.hpp: what a write to another thread's request keeps.
use mathlib.Core.Path.{subst}
use akl.Base.{ap, ℕ, ◌+◌, ◌<◌, ◌≡◌, ◌≢◌, inr, refl, sym, ◌∙◌, true, false, none, some, arith}
use akl.QueuedRwLock.{Place, Request, put}
use akl.QueuedRwLock.Invariant.{passed, is_done, is_new, swaps, PlaceOk, Pair, Requests}
use akl.QueuedRwLock.Change.{put-Requests}

PlaceOk_keep :
    (t : ℕ) (r s : Request) (p : Place)
    → s.lockclass ≡ r.lockclass
    → s.successor_class ≡ r.successor_class
    → (r.next ≢ none → s.next ≢ none)
    → (r.entitled ≡ true → s.entitled ≡ true)
    → PlaceOk t r p
    → PlaceOk t s p
PlaceOk_keep t r s p c u n e ok = ground arith

PlaceOk_mark :
    (t c : ℕ) (r : Request) (p : Place)
    → r.successor_class ≡ 2
    → PlaceOk t r p
    → PlaceOk t (record r { successor_class = c }) p
PlaceOk_mark t c r p u ok = ground arith

Pair-same :
    (r r' s s' : Request)
    → (r'.lockclass ≡ r.lockclass)
      × (r'.successor_class ≡ r.successor_class)
      × (r'.place ≡ r.place)
      × (r'.entitled ≡ r.entitled)
    → (s'.lockclass ≡ s.lockclass) × (s'.place ≡ s.place) × (s'.entitled ≡ s.entitled)
    → Pair r s
    → Pair r' s'
Pair-same r r' s s' (c, u, p, e) (c', p', e') pair = record {
  both = λ h. e ∙ pair.both (sym e' ∙ h);
  behind_writer = λ h k. ap is_done p ∙ pair.behind_writer (sym e' ∙ h) (sym c ∙ k);
  writer = λ h k. ap passed p ∙ pair.writer (sym e' ∙ h) (sym c' ∙ k);
  reads = λ h. c' ∙ pair.reads (sym u ∙ h);
  writes = λ h. c' ∙ pair.writes (sym u ∙ h);
  new = λ h. u ∙ pair.new (ap is_new (sym p') ∙ h);
  behind_reader = λ h. c ∙ pair.behind_reader (ap swaps (sym p') ∙ h);
}

-- `predecessor->s.state.successor_class = c`
pub mark-Requests :
    (n p c : ℕ) (q : ℕ → Request)
    → Requests n q
    → p + 1 < n
    → (q p).successor_class ≡ 2
    → is_new (q (p + 1)).place ≡ false
    → c ≡ (q (p + 1)).lockclass
    → Requests n (put p (λ r. record r { successor_class = c }) q)
mark-Requests n p c q rs l two old is_class =
    put-Requests n p (λ r. record r { successor_class = c }) q rs
      (λ _ own. record {
        unblocked = own.unblocked;
        let_in = own.let_in;
        next = own.next;
        succ = inr l;
        kind = own.kind;
        at = PlaceOk_mark p c (q p) (q p).place two own.at;
      })
      (λ t same _.
        Pair-same (q t) (q t) (q p) (record (q p) { successor_class = c }) (refl, refl, refl, refl)
          (refl, refl, refl))
      (λ _ pair. record {
        both = pair.both;
        behind_writer = pair.behind_writer;
        writer = pair.writer;
        reads = λ h. omega arith;
        writes = λ h. omega arith;
        new = λ h. ground arith;
        behind_reader = pair.behind_reader;
      })

-- `predecessor->next = I`
pub link-Requests :
    (n p : ℕ) (q : ℕ → Request)
    → Requests n q
    → p + 1 < n
    → Requests n (put p (λ r. record r { next = some (p + 1) }) q)
link-Requests n p q rs l =
    put-Requests n p (λ r. record r { next = some (p + 1) }) q rs
      (λ _ own. record {
        unblocked = own.unblocked;
        let_in = own.let_in;
        next = (refl, l);
        succ = own.succ;
        kind = own.kind;
        at =
            PlaceOk_keep p (q p) (record (q p) { next = some (p + 1) }) (q p).place refl refl
              (λ _ h. cc) (λ h. h) own.at;
      })
      (λ t same _.
        Pair-same (q t) (q t) (q p) (record (q p) { next = some (p + 1) }) (refl, refl, refl, refl)
          (refl, refl, refl))
      (λ _.
        Pair-same (q p) (record (q p) { next = some (p + 1) }) (q (p + 1)) (q (p + 1))
          (refl, refl, refl, refl) (refl, refl, refl))

-- `x->s.state.blocked = false`
pub unblock-Requests :
    (n x : ℕ) (q : ℕ → Request)
    → Requests n q
    → (q x).entitled ≡ true
    → Requests n (put x (λ r. record r { blocked = false }) q)
unblock-Requests n x q rs h =
    put-Requests n x (λ r. record r { blocked = false }) q rs
      (λ _ own. record {
        unblocked = λ _. h;
        let_in = own.let_in;
        next = own.next;
        succ = own.succ;
        kind = own.kind;
        at =
            PlaceOk_keep x (q x) (record (q x) { blocked = false }) (q x).place refl refl (λ ne. ne)
              (λ e. e) own.at;
      })
      (λ t same _.
        Pair-same (q t) (q t) (q x) (record (q x) { blocked = false }) (refl, refl, refl, refl)
          (refl, refl, refl))
      (λ _.
        Pair-same (q x) (record (q x) { blocked = false }) (q (x + 1)) (q (x + 1))
          (refl, refl, refl, refl) (refl, refl, refl))

-- The lock is passed to `t + 1`.
pub entitle-Requests :
    (n t : ℕ) (q : ℕ → Request)
    → Requests n q
    → (q t).entitled ≡ true
    → ((q t).lockclass ≡ 1 → is_done (q t).place ≡ true)
    → ((q (t + 1)).lockclass ≡ 1 → passed (q t).place ≡ true)
    → Requests n (put (t + 1) (λ r. record r { entitled = true }) q)
entitle-Requests n t q rs h w p =
    put-Requests n (t + 1) (λ r. record r { entitled = true }) q rs
      (λ _ own. record {
        unblocked = λ _. refl;
        let_in = λ _. refl;
        next = own.next;
        succ = own.succ;
        kind = own.kind;
        at =
            PlaceOk_keep (t + 1) (q (t + 1)) (record (q (t + 1)) { entitled = true })
              (q (t + 1)).place refl refl (λ ne. ne) (λ e. refl) own.at;
      })
      (λ u same _ pair.
        let e : u ≡ t = omega arith in
        let old = subst (λ v. Pair (q v) (q (t + 1))) e pair in
        subst (λ v. Pair (q v) (record (q (t + 1)) { entitled = true })) (sym e)
          (record {
            both = λ _. h;
            behind_writer = λ _. w;
            writer = λ _. p;
            reads = old.reads;
            writes = old.writes;
            new = old.new;
            behind_reader = old.behind_reader;
          }))
      (λ _ pair. record {
        both = λ _. refl;
        behind_writer = pair.behind_writer;
        writer = pair.writer;
        reads = pair.reads;
        writes = pair.writes;
        new = pair.new;
        behind_reader = pair.behind_reader;
      })
