-- ===== src/QueuedRwLock/Arrival.antt =====
-- delete-me/queued_rw_lock.hpp: a thread calls `writelock` or `readlock`.
use mathlib.Core.Path.{subst}
use akl.Base.{
  Bool-cases, ℕ, ◌+◌, ◌-◌, ◌<◌, ◌≤◌, ◌≡◌, inl, inr, refl, true, Option, none, some, ◌==◌, arith,
}
use akl.QueuedRwLock.{request_none, Place, r_wake, first_place, is_none, Request, put, Lock, arrive}
use akl.QueuedRwLock.Invariant.{WriterOk, Inv, IsEntitled, WakeOk, passed, Own, Pair, Requests}
use akl.QueuedRwLock.Change.{put_here, put_there, passed-past, passed_writer}

-- A new request, behind all others.
module _ (c : ℕ) (m : Lock) (kind : c ≤ 1) (inv : Inv m) where
  abbrev new_request : Request
  new_request = record {
    lockclass = c;
    next = none;
    successor_class = request_none;
    blocked = true;
    place = first_place c m.tail;
    entitled = is_none m.tail;
  }

  new-Own : Own (m.arrived + 1) m.arrived new_request
  new-Own = record {
    unblocked = λ h. absurd (ground arith);
    let_in = λ h. ground arith;
    next = tt;
    succ = inl refl;
    kind = kind;
    at = ground (arith, inv.tail);
  }

  Own-grow : (t : ℕ) (r : Request) → Own m.arrived t r → Own (m.arrived + 1) t r
  Own-grow t r own = record {
    unblocked = own.unblocked;
    let_in = own.let_in;
    next = ground (arith, own.next);
    succ = ground (arith, own.succ);
    kind = own.kind;
    at = own.at;
  }

  new-Pair : (t : ℕ) → t + 1 ≡ m.arrived → Pair (m.requests t) new_request
  new-Pair t e =
      let own = inv.requests.own t (omega arith) in
      let last : m.arrived - 1 ≡ t = omega arith in
      let left : is_none m.tail ≡ true → passed (m.requests t).place ≡ true =
        subst (λ j. is_none m.tail ≡ true → passed (m.requests j).place ≡ true) last
          (λ h. ground (arith, inv.tail)) in
      record {
        both = λ h. own.let_in (passed-past (m.requests t).place (left h));
        behind_writer =
            λ h k. passed_writer t (m.requests t) (m.requests t).place (left h) k own.at;
        writer = λ h _. left h;
        reads = λ h. absurd (ground (arith, own.succ));
        writes = λ h. absurd (ground (arith, own.succ));
        new = λ _. ground (arith, own.succ);
        behind_reader = λ h. absurd (ground arith);
      }

  IsEntitled-grow : (w : ℕ) → IsEntitled m w → IsEntitled (arrive c m) w
  unfolding arrive
  IsEntitled-grow w (l, h) =
      (omega arith, rw (put_there m.arrived w (λ _. new_request) m.requests (omega arith)) h)

  WriterOk-grow : (o : Option ℕ) → WriterOk m o → WriterOk (arrive c m) o
  WriterOk-grow none h = tt
  WriterOk-grow (some w) h = IsEntitled-grow w h

  WakeOk-grow : (p : Place) → WakeOk m p → WakeOk (arrive c m) p
  WakeOk-grow (r_wake w) h = IsEntitled-grow w h
  WakeOk-grow p h = h

  new-WakeOk : WakeOk (arrive c m) new_request.place
  new-WakeOk = ground arith

  arrive-Requests : Requests (m.arrived + 1) (put m.arrived (λ _. new_request) m.requests)
  arrive-Requests = record { own = own'; pair = pair' }
    where
      own' :
          (t : ℕ)
          → t < m.arrived + 1
          → Own (m.arrived + 1) t (put m.arrived (λ _. new_request) m.requests t)
      own' t l = elim (Bool-cases (t == m.arrived)) [
        | inl b ↦
            let e : t ≡ m.arrived = ground arith in
            rw (e, put_here m.arrived (λ _. new_request) m.requests) new-Own
        | inr b ↦
            rw (put_there m.arrived t (λ _. new_request) m.requests (ground arith))
              (Own-grow t (m.requests t) (inv.requests.own t (ground arith)))
      ]

      pair' :
          (t : ℕ)
          → t + 1 < m.arrived + 1
          → Pair
              (put m.arrived (λ _. new_request) m.requests t)
              (put m.arrived (λ _. new_request) m.requests (t + 1))
      pair' t l =
          rw (put_there m.arrived t (λ _. new_request) m.requests (omega arith))
            (elim (Bool-cases (t + 1 == m.arrived)) [
              | inl b ↦
                  let e : t + 1 ≡ m.arrived = ground arith in
                  rw (e, put_here m.arrived (λ _. new_request) m.requests) (new-Pair t e)
              | inr b ↦
                  rw (put_there m.arrived (t + 1) (λ _. new_request) m.requests (ground arith))
                    (inv.requests.pair t (ground arith))
            ])

  pub arrive-Inv : Inv (arrive c m)
  unfolding arrive
  arrive-Inv = record {
    requests = arrive-Requests;
    later = λ t l.
        rw (put_there m.arrived t (λ _. new_request) m.requests (omega arith))
          (inv.later t (omega arith));
    next_writer = WriterOk-grow m.next_writer inv.next_writer;
    wakes = λ t. elim (Bool-cases (t == m.arrived)) [
      | inl b ↦
          let e : t ≡ m.arrived = ground arith in
          rw (e, put_here m.arrived (λ _. new_request) m.requests) new-WakeOk
      | inr b ↦
          rw (put_there m.arrived t (λ _. new_request) m.requests (ground arith))
            (WakeOk-grow (m.requests t).place (inv.wakes t))
    ];
    tail = refl;
  }
