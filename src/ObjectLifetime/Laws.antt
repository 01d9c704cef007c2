-- ===== src/ObjectLifetime/Laws.antt =====
-- delete-me/stdlib/object-lifetime.cpp: the table as a list, the last registration first.
use akl.Base.{
  ℕ, zero, suc, ◌≤◌, ◌≡◌, ◌≢◌, inl, inr, refl, ap, ◌∙◌, Bool, true, false, not, ◌&&◌, List, [], ◌∷◌,
  arith, ◌==◌, if◌then◌else◌, ltb, Bool-cases, ==_refl, ==_of_ne,
}
use akl.ObjectLifetime.{Entry, Registry, Call, call_of, store, destruct_all, destruct_matching}

-- The first `n` entries, the last first.
abbrev pub entries : ℕ → (ℕ → Entry) → List Entry
entries zero functions = []
entries (suc i) functions = functions i ∷ entries i functions

abbrev pub registered : Registry → List Entry
registered r = entries r.count r.functions

-- The calls for the entries that a test selects.
abbrev pub calls_where : (Entry → Bool) → List Entry → List Call
calls_where p [] = []
calls_where p (e ∷ es) = if p e then call_of e ∷ calls_where p es else calls_where p es

abbrev pub live : Entry → Bool
live e = not (e.destructor == 0)

abbrev pub runs : ℕ → Entry → Bool
runs d e = e.destructor == d

abbrev pub other : ℕ → Entry → Bool
other d e = live e && not (runs d e)

abbrev pub cleared : ℕ → Entry → Entry
cleared d e = if e.destructor == d then record e { destructor = 0 } else e

-- Entries from `n` on do not matter.
pub entries-store :
    (n i : ℕ) (functions : ℕ → Entry) (e : Entry)
    → n ≤ i
    → entries n (store functions i e) ≡ entries n functions
entries-store zero i functions e h = refl
entries-store (suc n) i functions e h =
    rw (==_of_ne n i (omega arith), entries-store n i functions e (omega arith)) refl

pub destruct_all_lem :
    (n : ℕ) (functions : ℕ → Entry)
    → destruct_all n functions ≡ calls_where live (entries n functions)
unfolding destruct_all
destruct_all_lem zero functions = refl
destruct_all_lem (suc n) functions = elim (Bool-cases ((functions n).destructor == 0)) [
  | inl e ↦ rw (e, destruct_all_lem n functions) refl
  | inr e ↦ rw (e, destruct_all_lem n functions) refl
]

module _ (d : ℕ) where
  -- The table at the start of the rounds below `n`.
  abbrev next : ℕ → (ℕ → Entry) → ℕ → Entry
  next n functions =
      if (functions n).destructor == d
      then store functions n (record (functions n) { destructor = 0 })
      else functions

  next-entries :
      (n : ℕ) (functions : ℕ → Entry) → entries n (next n functions) ≡ entries n functions
  next-entries n functions = elim (Bool-cases ((functions n).destructor == d)) [
    | inl e ↦
        rw e (entries-store n n functions (record (functions n) { destructor = 0 }) (omega arith))
    | inr e ↦ rw e refl
  ]

  next-below : (n j : ℕ) (functions : ℕ → Entry) → j ≢ n → next n functions j ≡ functions j
  next-below n j functions h = elim (Bool-cases ((functions n).destructor == d)) [
    | inl e ↦ rw (e, ==_of_ne j n h) refl
    | inr e ↦ rw e refl
  ]

  next-at : (n : ℕ) (functions : ℕ → Entry) → next n functions n ≡ cleared d (functions n)
  next-at n functions = elim (Bool-cases ((functions n).destructor == d)) [
    | inl e ↦ rw (e, ==_refl n) refl
    | inr e ↦ rw e refl
  ]

  pub matching-calls :
      (n : ℕ) (functions : ℕ → Entry)
      → (destruct_matching n d functions).0 ≡ calls_where (runs d) (entries n functions)
  unfolding destruct_matching
  matching-calls zero functions = refl
  matching-calls (suc n) functions =
      ap (λ cs. if (functions n).destructor == d then call_of (functions n) ∷ cs else cs)
        (matching-calls n (next n functions)
          ∙ ap (λ es. calls_where (runs d) es) (next-entries n functions))

  pub matching-table :
      (n j : ℕ) (functions : ℕ → Entry)
      → (destruct_matching n d functions).1 j
        ≡ (if ltb j n then cleared d (functions j) else functions j)
  unfolding destruct_matching
  matching-table zero j functions = let e : ltb j 0 ≡ false = ground arith in rw e refl
  matching-table (suc n) j functions =
      matching-table n j (next n functions) ∙ elim (Bool-cases (j == n)) [
        | inl e ↦
            let q : j ≡ n = ground arith in
            let a : ltb n n ≡ false = ground arith in
            let b : ltb n (suc n) ≡ true = ground arith in rw q (rw (a, b) (next-at n functions))
        | inr e ↦
            let q : j ≢ n = ground arith in
            let a : ltb j n ≡ ltb j (suc n) = ground arith in
            rw (a, next-below n j functions q) refl
      ]
