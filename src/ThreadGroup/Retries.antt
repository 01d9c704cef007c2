-- ===== src/ThreadGroup/Retries.antt =====
-- delete-me/thread_group.hpp: `join` called again after each exception, as the class advises.
use mathlib.Core.Path.{ap₂, subst}
use akl.Base.{
  ◌-◌, ◌^◌, ◌==◌, Bool-cases, inl, inr, ℕ, zero, suc, ◌+◌, ◌<◌, ◌≡◌, refl, sym, ap, ◌∙◌, Option,
  none, some, List, [], ◌∷◌, ◌++◌, length, arith,
}
use akl.Machine.Words.{u64}
use akl.ThreadGroup.{Entry, Group, construct, launch, launch_on, Outcome, returned, threw, join}
use akl.ThreadGroup.Joins.{
  pending, Ending, Plan, clean, fails, also, plan, Follows, cleanly, failing, join_lem,
}

-- The messages that at most `tries` calls throw, and the threads that they join.
abbrev pub collected : Outcome → (List Entry → Group → List ℕ × List ℕ) → List ℕ × List ℕ
collected (returned ts _ _) next = ([], ts)
collected (threw ex ts arriving g) next = let (exs, us) = next arriving g in (ex ∷ exs, ts ++ us)
collected _ next = ([], [])

unfoldable pub retry : (tries fuel : ℕ) → List Entry → Group → List ℕ × List ℕ
retry zero fuel arriving g = ([], [])
retry (suc tries) fuel arriving g = collected (join fuel arriving g) (retry tries fuel)

abbrev pub messages : List Entry → List ℕ
messages [] = []
messages (e ∷ es) = elim e.message [ none ↦ messages es | some ex ↦ ex ∷ messages es ]

abbrev pub threads_of : List Entry → List ℕ
threads_of [] = []
threads_of (e ∷ es) = e.thread ∷ threads_of es

-- What a plan makes of the entries.
abbrev pub Means : Plan → List Entry → Type 0
Means (clean ts) es = (messages es ≡ []) × (threads_of es ≡ ts)
Means (fails ex ts rest) es =
    (messages es ≡ ex ∷ messages rest)
    × (threads_of es ≡ ts ++ threads_of rest)
    × (length rest < length es)

also-Means :
    (e : Entry) (es : List Entry) (p : Plan)
    → e.message ≡ none
    → Means p es
    → Means (also e.thread p) (e ∷ es)
also-Means e es (clean ts) q (m, t) = (rw q m, ap (λ us. e.thread ∷ us) t)
also-Means e es (fails ex ts rest) q (m, t, l) = (rw q m, ap (λ us. e.thread ∷ us) t, omega arith)

pub plan-Means : (es : List Entry) → Means (plan es) es
plan-Means [] = (refl, refl)
plan-Means (e ∷ es) = by_message e.message refl (plan-Means es)
  where
    planned :
        (m : Option ℕ)
        → e.message ≡ m
        → plan (e ∷ es)
          ≡ elim m [ none ↦ also e.thread (plan es) | some ex ↦ fails ex (e.thread ∷ []) es ]
    planned m q = rw q refl

    by_message :
        (m : Option ℕ) → e.message ≡ m → Means (plan es) es → Means (plan (e ∷ es)) (e ∷ es)
    by_message none q h =
        subst (λ p. Means p (e ∷ es)) (sym (planned none q)) (also-Means e es (plan es) q h)
    by_message (some ex) q h =
        subst (λ p. Means p (e ∷ es)) (sym (planned (some ex) q)) (rw q refl, refl, omega arith)

module _ (tries fuel : ℕ)
    (again : (arriving : List Entry) (g : Group)
      → Ending arriving g
      → g.threads_running < fuel
      → g.threads_running < tries
      → retry tries fuel arriving g
        ≡ (messages (pending arriving g), threads_of (pending arriving g))) where
  collected_lem :
      (es : List Entry) (p : Plan) (o : Outcome)
      → Follows p o
      → Means p es
      → length es < fuel
      → length es < suc tries
      → collected o (retry tries fuel) ≡ (messages es, threads_of es)
  collected_lem es _ _ (cleanly r c e) (m, t) lf lt = ap₂ (λ a b. (a, b)) (sym m) (sym t)
  collected_lem es _ _ (failing {ex} {ts} {rest} {arriving} {g} e en) (m, t, shrinks) lf lt =
      let shorter : g.threads_running ≡ length rest =
        en.all ∙ ap (λ (zs : List Entry). length zs) e in
      let next = again arriving g en (omega arith) (omega arith) in
      ap (λ (r : List ℕ × List ℕ). (ex ∷ r.0, ts ++ r.1))
        (next ∙ ap (λ zs. (messages zs, threads_of zs)) e)
      ∙ ap₂ (λ a b. (a, b)) (sym m) (sym t)

retry-pending :
    (tries fuel : ℕ) (arriving : List Entry) (g : Group)
    → Ending arriving g
    → g.threads_running < fuel
    → g.threads_running < tries
    → retry tries fuel arriving g ≡ (messages (pending arriving g), threads_of (pending arriving g))
unfolding retry
retry-pending zero fuel arriving g en lf lt = absurd (omega arith)
retry-pending (suc tries) fuel arriving g en lf lt =
    collected_lem tries fuel (retry-pending tries fuel) (pending arriving g)
      (plan (pending arriving g)) (join fuel arriving g) (join_lem fuel arriving g en lf)
      (plan-Means (pending arriving g)) (omega (arith, en.all)) (omega (arith, en.all))

-- A group after `n` calls of `launch`.
unfoldable launch_times : ℕ → Group → Group
launch_times zero g = g
launch_times (suc n) g = launch_times n (launch g).1

launch_times-Ending :
    (n : ℕ) (es : List Entry) (g : Group)
    → g.joinqueue ≡ []
    → g.threads_running + n ≡ length es
    → g.threads_running + n < u64
    → (g.threads_running ≡ 0 → g.m_thread_counter ≡ 0)
    → Ending es (launch_times n g)
unfolding launch_times launch
launch_times-Ending zero es g q l few z = record {
  all = omega (arith, l, ap (λ (zs : List Entry). length (zs ++ es)) q);
  few = omega arith;
  fresh = z;
}
launch_times-Ending (suc n) es g q l few z =
    launch_times-Ending n es (launch g).1 q (omega arith) (omega arith) (λ e. absurd (omega arith))

launch_times-joinqueue : (n : ℕ) (g : Group) → (launch_times n g).joinqueue ≡ g.joinqueue
unfolding launch_times launch
launch_times-joinqueue zero g = refl
launch_times-joinqueue (suc n) g = launch_times-joinqueue n (launch g).1

launch_times-running :
    (n : ℕ) (g : Group)
    → g.threads_running + n < u64
    → (launch_times n g).threads_running ≡ g.threads_running + n
unfolding launch_times launch
launch_times-running zero g few = omega arith
launch_times-running (suc n) g few = launch_times-running n (launch g).1 (omega arith) ∙ omega arith

-- A call of one of the two `launch`es.
unfoldable pub launch_either : Option ℕ → Group → Group
launch_either none g = (launch g).1
launch_either (some cpu_id) g = (launch_on cpu_id g).1

launch_either-launch : (c : Option ℕ) (g : Group) → launch_either c g ≡ (launch g).1
unfolding launch_either launch launch_on
launch_either-launch none g = refl
launch_either-launch (some cpu_id) g = elim (Bool-cases (cpu_id == 2 ^ 64 - 1)) [
  | inl t ↦ rw (launch_either, launch_on, t) refl
  | inr f ↦ rw (launch_either, launch_on, f) refl
]

-- A group after calls of `launch`, each on the cpu of the list or, for `none`, without one.
unfoldable pub launches : List (Option ℕ) → Group → Group
launches [] g = g
launches (c ∷ cs) g = launches cs (launch_either c g)

launches-launch_times :
    (cs : List (Option ℕ)) (g : Group) → launches cs g ≡ launch_times (length cs) g
unfolding launches launch_times
launches-launch_times [] g = refl
launches-launch_times (c ∷ cs) g =
    launches-launch_times cs (launch_either c g)
    ∙ ap (launch_times (length cs)) (launch_either-launch c g)

-- A group from which threads are launched, fewer than 2 ^ 64, each on a cpu or without, and whose
-- threads end in the order of `es`, each with its message if it threw: if `join` is called again after
-- each exception, one call more than there are threads throws all messages in the order of `es`, and
-- joins each thread once, in that order.
pub retry_lem :
    (cs : List (Option ℕ)) (es : List Entry)
    → length es ≡ length cs
    → length cs < u64
    → retry (length cs + 1) (length cs + 1) es (launches cs construct)
      ≡ (messages es, threads_of es)
retry_lem cs es l few =
    let n = length cs in
    let running = launch_times-running n construct (omega arith) in
    let en = launch_times-Ending n es construct refl (omega arith) (omega arith) (λ _. refl) in
    rw (launches-launch_times cs construct) (
      retry-pending (n + 1) (n + 1) es (launch_times n construct) en (omega arith) (omega arith)
      ∙ ap (λ queue. (messages (queue ++ es), threads_of (queue ++ es)))
          (launch_times-joinqueue n construct))
