-- ===== src/LockfreePushBack/Slices.antt =====
-- Items that stand next to each other in a list.
use mathlib.Core.Path.{subst}
use mathlib.Core.List.{append_assoc}
use akl.Base.{
  ℕ, zero, suc, ◌<◌, ◌≡◌, refl, ◌∙◌, some, List, [], ◌∷◌, ◌++◌, length, length-append, get_elem?,
  arith,
}

module _ {T : Type 0} where
  pub get_elem?-length : (xs : List T) (i : ℕ) (t : T) → get_elem? xs i ≡ some t → i < length xs
  get_elem?-length [] i t e = cc
  get_elem?-length (x ∷ xs) zero t e = omega arith
  get_elem?-length (x ∷ xs) (suc i) t e = omega (arith, get_elem?-length xs i t e)

  pub get_elem?-append :
      (xs ys : List T) (i : ℕ) → i < length xs → get_elem? (xs ++ ys) i ≡ get_elem? xs i
  get_elem?-append [] ys i l = absurd (omega arith)
  get_elem?-append (x ∷ xs) ys zero l = refl
  get_elem?-append (x ∷ xs) ys (suc i) l = get_elem?-append xs ys i (omega arith)

  pub get_elem?-behind :
      (xs : List T) (y : T) (ys : List T) → get_elem? (xs ++ y ∷ ys) (length xs) ≡ some y
  get_elem?-behind [] y ys = refl
  get_elem?-behind (x ∷ xs) y ys = get_elem?-behind xs y ys

  -- `ts` stands in `items` from `pos` on.
  abbrev pub Slice : List T → ℕ → List T → Type 0
  Slice items pos [] = Unit
  Slice items pos (t ∷ ts) = (get_elem? items pos ≡ some t) × Slice items (suc pos) ts

  pub Slice-append :
      (items more : List T) (pos : ℕ) (ts : List T)
      → Slice items pos ts
      → Slice (items ++ more) pos ts
  Slice-append items more pos [] s = tt
  Slice-append items more pos (t ∷ ts) (e, s) = (
    get_elem?-append items more pos (get_elem?-length items pos t e) ∙ e,
    Slice-append items more (suc pos) ts s,
  )

  pub Slice-behind : (items ts : List T) → Slice (items ++ ts) (length items) ts
  Slice-behind items [] = tt
  Slice-behind items (t ∷ ts) =
      let longer : length (items ++ t ∷ []) ≡ suc (length items) =
        omega (arith, length-append items (t ∷ [])) in
      (
        get_elem?-behind items t ts,
        subst (λ n. Slice (items ++ t ∷ ts) n ts) longer
            (subst (λ zs. Slice zs (length (items ++ t ∷ [])) ts) (append_assoc items (t ∷ []) ts)
              (Slice-behind (items ++ t ∷ []) ts)),
      )
