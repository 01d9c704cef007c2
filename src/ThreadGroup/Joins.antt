-- ===== src/ThreadGroup/Joins.antt =====
-- delete-me/thread_group.hpp: what `join` does when all threads of the group end.
use akl.Base.{
  Bool-cases, ℕ, zero, suc, ◌<◌, ◌≡◌, inl, inr, refl, sym, ◌∙◌, Option, none, some, List, [], ◌∷◌,
  ◌++◌, ltb, length, arith,
}
use akl.Machine.Words.{u64}
use akl.ThreadGroup.{Entry, Group, Outcome, returned, threw, waits, joined, leaves, awaited, join}

-- The entries that are in the queue, or are to arrive.
abbrev pub pending : List Entry → Group → List Entry
pending arriving g = g.joinqueue ++ arriving

-- Every running thread has an entry there, and the ids start again at 0 when none runs.
pub record Ending (arriving : List Entry) (g : Group) : Type 0 where
  pub all : g.threads_running ≡ length (pending arriving g)
  pub few : g.threads_running < u64
  pub fresh : g.threads_running ≡ 0 → g.m_thread_counter ≡ 0

-- What `join` is to do with these entries: the threads it joins, and the message it throws and the
-- entries it leaves, if there is a message.
pub data Plan : Type 0 where
  clean : List ℕ → Plan
  fails : ℕ → List ℕ → List Entry → Plan

abbrev pub also : ℕ → Plan → Plan
also t (clean ts) = clean (t ∷ ts)
also t (fails ex ts rest) = fails ex (t ∷ ts) rest

abbrev pub plan : List Entry → Plan
plan [] = clean []
plan (e ∷ es) = elim e.message [
  | none ↦ also e.thread (plan es)
  | some ex ↦ fails ex (e.thread ∷ []) es
]

-- The outcome follows the plan, and leaves every running thread with an entry to come.
pub data Follows : Plan → Outcome → Type 0 where
  cleanly :
      {ts : List ℕ} {arriving : List Entry} {g : Group}
      → g.threads_running ≡ 0
      → g.m_thread_counter ≡ 0
      → pending arriving g ≡ []
      → Follows (clean ts) (returned ts arriving g)
  failing :
      {ex : ℕ} {ts : List ℕ} {rest arriving : List Entry} {g : Group}
      → pending arriving g ≡ rest
      → Ending arriving g
      → Follows (fails ex ts rest) (threw ex ts arriving g)

also-Follows : {p : Plan} {o : Outcome} (t : ℕ) → Follows p o → Follows (also t p) (joined t o)
also-Follows t (cleanly r c e) = cleanly r c e
also-Follows t (failing e en) = failing e en

-- The group after its first entry has been joined.
leaves-Ending :
    (e : Entry) (rest arriving : List Entry) (g : Group)
    → g.threads_running ≡ suc (length (rest ++ arriving))
    → g.threads_running < u64
    → Ending arriving (leaves g rest)
leaves-Ending e rest arriving g all few = record {
  all = omega arith;
  few = omega arith;
  fresh = λ z. rw (z) refl;
}

-- A round of the loop, for the entry `e`.
abbrev round : ℕ → Entry → List Entry → List Entry → Group → Outcome
round fuel e rest later g = elim e.message [
  | none ↦ joined e.thread (join fuel later (leaves g rest))
  | some ex ↦ threw ex (e.thread ∷ []) later (leaves g rest)
]

-- The round that pops from the queue.
abbrev first_round : ℕ → Group → List Entry × List Entry → Outcome
first_round fuel g (queue, later) = elim queue [ [] ↦ waits | e ∷ rest ↦ round fuel e rest later g ]

round-Follows :
    (fuel : ℕ) (e : Entry) (rest later : List Entry) (g : Group)
    → Ending later (leaves g rest)
    → Follows (plan (rest ++ later)) (join fuel later (leaves g rest))
    → Follows (plan (e ∷ (rest ++ later))) (round fuel e rest later g)
round-Follows fuel e rest later g en f = by_message e.message refl
  where
    by_message :
        (m : Option ℕ)
        → e.message ≡ m
        → Follows (plan (e ∷ (rest ++ later))) (round fuel e rest later g)
    by_message none q = rw q (also-Follows e.thread f)
    by_message (some ex) q = rw q (failing refl en)

none_pending : (es : List Entry) → 0 ≡ length es → es ≡ []
none_pending [] h = refl
none_pending (e ∷ es) h = absurd (omega arith)

module _ (fuel : ℕ) (arriving : List Entry) (g : Group) (en : Ending arriving g)
    (room : g.threads_running < suc fuel)
    (again : (later : List Entry) (h : Group)
      → Ending later h
      → h.threads_running < fuel
      → Follows (plan (pending later h)) (join fuel later h)) where
  popped :
      (e : Entry) (rest later : List Entry)
      → g.threads_running ≡ suc (length (rest ++ later))
      → Follows (plan (e ∷ (rest ++ later))) (round fuel e rest later g)
  popped e rest later all =
      let en' = leaves-Ending e rest later g all en.few in
      round-Follows fuel e rest later g en'
        (again later (leaves g rest) en' (omega (arith, en.few)))

  by_queue :
      (xs ys : List Entry)
      → g.threads_running ≡ length (xs ++ ys)
      → 0 < g.threads_running
      → Follows (plan (xs ++ ys)) (first_round fuel g (awaited xs ys))
  by_queue [] [] all pos = absurd (omega arith)
  by_queue [] (y ∷ ys) all pos = popped y [] ys all
  by_queue (x ∷ xs) ys all pos = popped x xs ys all

-- `join`, when every running thread has an entry that is in the queue or arrives, and with more fuel
-- than threads that run: it ends. It joins the threads in the order of their entries up to and with
-- the first one that threw, and throws its message; the entries behind it are left, one for each
-- thread that still runs. If none threw it joins all, returns, and the ids start again at 0.
pub join_lem :
    (fuel : ℕ) (arriving : List Entry) (g : Group)
    → Ending arriving g
    → g.threads_running < fuel
    → Follows (plan (pending arriving g)) (join fuel arriving g)
unfolding join
join_lem zero arriving g en h = absurd (omega arith)
join_lem (suc fuel) arriving g en h = elim (Bool-cases (ltb 0 g.threads_running)) [
  | inl t ↦
      rw (join, t)
        (by_queue fuel arriving g en h (λ later g' en' lt. join_lem fuel later g' en' lt)
          g.joinqueue arriving en.all (ground arith))
  | inr f ↦
      let none_run : g.threads_running ≡ 0 = ground arith in
      let e : pending arriving g ≡ [] = none_pending (pending arriving g) (sym none_run ∙ en.all) in
      rw (join, f) (rw e (cleanly none_run (en.fresh none_run) e))
]
