-- ===== src/ObjectLifetime/Order.antt =====
-- delete-me/stdlib/object-lifetime.cpp: which destructors run, in which order, and how often.
use mathlib.Core.List.{reverse, reverse_aux}
use akl.Base.{
  ℕ, zero, suc, ◌+◌, ◌<◌, ◌≤◌, ◌≡◌, ◌≢◌, ◌⊎◌, inl, inr, refl, ap, ◌∙◌, true, false, List, [], ◌∷◌,
  map, arith, ◌==◌, if◌then◌else◌, ltb, Bool-cases, ==_refl, ==_of_ne, length,
}
use akl.ObjectLifetime.{
  Entry, Registry, empty, store, failed, maximum_function_count, cxa_atexit, destruct_matching,
  cxa_finalize, call_destructors,
}
use akl.ObjectLifetime.Laws.{
  entries, registered, calls_where, live, runs, other, cleared, entries-store, destruct_all_lem,
  matching-calls, matching-table,
}

entries-last :
    (n : ℕ) (functions : ℕ → Entry) (e : Entry)
    → entries (n + 1) (store functions n e) ≡ e ∷ entries n functions
entries-last n functions e =
    let c : n + 1 ≡ suc n = omega arith in
    rw (c, ==_refl n, entries-store n n functions e (omega arith)) refl

-- `__cxa_atexit` on a table that is not over full: with room it returns 0 and the entry is
-- registered as the last one; on a full table it returns -1 and changes nothing.
pub cxa_atexit_lem :
    (e : Entry) (r : Registry)
    → r.count ≤ maximum_function_count
    → ((r.count < maximum_function_count)
        × ((cxa_atexit e.destructor e.object_pointer e.dso_handle r).0 ≡ 0)
        × (registered (cxa_atexit e.destructor e.object_pointer e.dso_handle r).1
            ≡ e ∷ registered r)
        × ((cxa_atexit e.destructor e.object_pointer e.dso_handle r).1.count ≡ r.count + 1))
      ⊎ ((r.count ≡ maximum_function_count)
          × (cxa_atexit e.destructor e.object_pointer e.dso_handle r ≡ (failed, r)))
unfolding cxa_atexit
cxa_atexit_lem e r h = elim (Bool-cases (ltb r.count maximum_function_count)) [
  | inl t ↦ rw t (inl (ground arith, refl, entries-last r.count r.functions e, refl))
  | inr f ↦ rw f (inr (ground arith, refl))
]

-- `register` calls `__cxa_atexit` for each entry.
abbrev pub register : List Entry → Registry → Registry
register [] r = r
register (e ∷ es) r = register es (cxa_atexit e.destructor e.object_pointer e.dso_handle r).1

registered-register :
    (es : List Entry) (r : Registry)
    → r.count + length es ≤ maximum_function_count
    → registered (register es r) ≡ reverse_aux es (registered r)
registered-register [] r h = refl
registered-register (e ∷ es) r h = elim (cxa_atexit_lem e r (omega arith)) [
  | inl (lt, ok, q, c) ↦
      registered-register es (cxa_atexit e.destructor e.object_pointer e.dso_handle r).1
        (omega (arith, c))
      ∙ ap (λ xs. reverse_aux es xs) q
  | inr (full, q) ↦ absurd (omega (arith, full))
]

call_destructors-all : (r : Registry) → call_destructors r ≡ (calls_where live (registered r), r)
unfolding call_destructors cxa_finalize
call_destructors-all r = ap (λ cs. (cs, r)) (destruct_all_lem r.count r.functions)

-- When up to 128 entries have been registered in an empty table, `call_destructors` runs each that
-- has a destructor once, the last one first, with its object. The table stays as it is.
pub call_destructors_lem :
    (es : List Entry)
    → length es ≤ maximum_function_count
    → call_destructors (register es empty) ≡ (calls_where live (reverse es), register es empty)
call_destructors_lem es h =
    call_destructors-all (register es empty)
    ∙ ap (λ xs. (calls_where live xs, register es empty))
        (registered-register es empty (omega arith))

entries-pointwise :
    (n : ℕ) (f g : ℕ → Entry) → ((j : ℕ) → j < n → f j ≡ g j) → entries n f ≡ entries n g
entries-pointwise zero f g h = refl
entries-pointwise (suc n) f g h =
    rw (h n (omega arith), entries-pointwise n f g (λ j lt. h j (omega arith))) refl

entries-map :
    (k : Entry → Entry) (n : ℕ) (f : ℕ → Entry) → entries n (λ j. k (f j)) ≡ map k (entries n f)
entries-map k zero f = refl
entries-map k (suc n) f = ap (λ es. k (f n) ∷ es) (entries-map k n f)

module _ (d : ℕ) (positive : d ≢ 0) where
  none-left : (es : List Entry) → calls_where (runs d) (map (cleared d) es) ≡ []
  none-left [] = refl
  none-left (e ∷ es) = elim (Bool-cases (e.destructor == d)) [
    | inl t ↦ let z : (0 == d) ≡ false = ground arith in rw (t, z, none-left es) refl
    | inr f ↦ rw (f, f, none-left es) refl
  ]

  others-left : (es : List Entry) → calls_where live (map (cleared d) es) ≡ calls_where (other d) es
  others-left [] = refl
  others-left (e ∷ es) = elim (Bool-cases (e.destructor == d)) [
    | inl t ↦ let z : (e.destructor == 0) ≡ false = ground arith in rw (t, z, others-left es) refl
    | inr f ↦ elim (Bool-cases (e.destructor == 0)) [
      | inl z ↦ rw (f, z, others-left es) refl
      | inr z ↦ rw (f, z, others-left es) refl
    ]
  ]

  not_null : (d == 0) ≡ false
  not_null = ==_of_ne d 0 positive

  finalized : Registry → Registry
  finalized r = record r { functions = (destruct_matching r.count d r.functions).1 }

  cxa_finalize-matching :
      (r : Registry) → cxa_finalize d r ≡ (calls_where (runs d) (registered r), finalized r)
  unfolding cxa_finalize finalized
  cxa_finalize-matching r = rw (not_null, ← matching-calls d r.count r.functions) refl

  finalized-registered : (r : Registry) → registered (finalized r) ≡ map (cleared d) (registered r)
  unfolding finalized
  finalized-registered r =
      entries-pointwise r.count (destruct_matching r.count d r.functions).1
        (λ j. cleared d (r.functions j))
        (λ j lt.
          let t : ltb j r.count ≡ true = ground arith in
          matching-table d r.count j r.functions
          ∙ ap (λ b. if b then cleared d (r.functions j) else r.functions j) t)
      ∙ entries-map (cleared d) r.count r.functions

  -- `__cxa_finalize` of a function that is not null runs the entries registered with that function,
  -- the last one first. A second call runs none of them, and `call_destructors` then runs exactly
  -- the other entries that have a destructor, the last one first.
  pub cxa_finalize_lem :
      (r : Registry)
      → ((cxa_finalize d r).0 ≡ calls_where (runs d) (registered r))
        × ((cxa_finalize d (cxa_finalize d r).1).0 ≡ [])
        × ((call_destructors (cxa_finalize d r).1).0 ≡ calls_where (other d) (registered r))
  cxa_finalize_lem r = rw (cxa_finalize-matching r) (
    refl,
    rw (cxa_finalize-matching (finalized r), finalized-registered r) (none-left (registered r)),
    rw (call_destructors-all (finalized r), finalized-registered r) (others-left (registered r)),
  )
