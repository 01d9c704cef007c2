-- ===== src/Machine/Shared.antt =====
-- A cell that other threads write between the accesses of the thread that is modelled.
use akl.Base.{ℕ, ◌<◌, ◌≡◌, refl, ap, Option, some, List, [], ◌∷◌, ◌++◌}
use mathlib.Core.Path.{fun_ext, sym, ◌∙◌}
use mathlib.Core.Option
use akl.Machine.External.{Access}

-- `others` holds what the other threads do to the cell before this thread's next access, before
-- the one after it, and so on. After its end nobody interferes.
pub record Shared : Type 0 where
  pub cell : ℕ
  pub others : List (ℕ → ℕ)

abbrev pub after : List (ℕ → ℕ) → ℕ → ℕ
after [] c = c
after (f ∷ fs) c = after fs (f c)

abbrev access_from : {A : Type 0} → Access A → List (ℕ → ℕ) → ℕ → A × Shared
access_from f [] c = let (a, c') = f c in (a, record { cell = c'; others = [] })
access_from f (g ∷ gs) c = let (a, c') = f (g c) in (a, record { cell = c'; others = gs })

-- One atomic access by this thread.
unfoldable pub access : {A : Type 0} → Access A → Shared → A × Shared
access f s = access_from f s.others s.cell

-- A plain read of the cell.
abbrev pub read : Access ℕ
read c = (c, c)

-- From `s` to `t` this thread made the atomic access `f` with the result `a`, after the
-- interference `early`; its other accesses changed nothing.
pub record Linearizes {A : Type 0} (f : Access A) (s : Shared) (a : A) (t : Shared) : Type 0 where
  pub early : List (ℕ → ℕ)
  pub split : s.others ≡ early ++ t.others
  pub effect : f (after early s.cell) ≡ (a, t.cell)

-- Every thread writes words below `m`.
abbrev pub Keeps : ℕ → List (ℕ → ℕ) → Type 0
Keeps m [] = Unit
Keeps m (f ∷ fs) = ((c : ℕ) → c < m → f c < m) × Keeps m fs

pub record HoldsWord (m : ℕ) (s : Shared) : Type 0 where
  pub cell_lt : s.cell < m
  pub others_lt : Keeps m s.others

after-lt : {m : ℕ} (fs gs : List (ℕ → ℕ)) (c : ℕ) → c < m → Keeps m (fs ++ gs) → after fs c < m
after-lt [] gs c h k = h
after-lt (f ∷ fs) gs c h k = after-lt fs gs (f c) (k.0 c h) k.1

access_from-Linearizes :
    {A : Type 0} (f : Access A) (fs : List (ℕ → ℕ)) (c : ℕ)
    → Linearizes f (record { cell = c; others = fs }) (access_from f fs c).0 (access_from f fs c).1
access_from-Linearizes f [] c = record { early = []; split = refl; effect = refl }
access_from-Linearizes f (g ∷ gs) c = record { early = g ∷ []; split = refl; effect = refl }

pub access-Linearizes :
    {A : Type 0} (f : Access A) (s : Shared) → Linearizes f s (access f s).0 (access f s).1
unfolding access
access-Linearizes f s = access_from-Linearizes f s.others s.cell

-- A run that ends, and has then made the access `f`: `none` does not fit.
pub data Finishes {A : Type 0} (f : Access A) (s : Shared) : Option (A × Shared) → Type 0 where
  finishes : {a : A} {t : Shared} → Linearizes f s a t → Finishes f s (some (a, t))

abbrev pub at : ℕ → List (ℕ → ℕ) → Shared
at c fs = record { cell = c; others = fs }

-- An access that wrote nothing may stand in front of a run.
pub Finishes-after :
    {A : Type 0} {f : Access A} {g : ℕ → ℕ} {fs : List (ℕ → ℕ)} {c : ℕ} {r : Option (A × Shared)}
    → Finishes f (at (g c) fs) r
    → Finishes f (at c (g ∷ fs)) r
Finishes-after {g} (finishes l) =
    finishes (record { early = g ∷ l.early; split = ap (λ fs. g ∷ fs) l.split; effect = l.effect })

pub access-Finishes :
    {A : Type 0} {f g : Access A} (s : Shared)
    → ((c : ℕ) → f c ≡ g c)
    → Finishes g s (some (access f s))
access-Finishes {f} s h = rw (← fun_ext h) (finishes (access-Linearizes f s))

-- A single access whose law holds for words.
pub access-Linearizes_word :
    {A : Type 0} {m : ℕ} {f g : Access A} (s : Shared)
    → HoldsWord m s
    → ((c : ℕ) → c < m → f c ≡ g c)
    → Linearizes g s (access f s).0 (access f s).1
access-Linearizes_word {m} {f} s w h =
    let l = access-Linearizes f s in
    let k : Keeps m (l.early ++ (access f s).1.others) = rw (← l.split) w.others_lt in
    record {
      early = l.early;
      split = l.split;
      effect = sym (h _ (after-lt l.early _ s.cell w.cell_lt k)) ∙ l.effect;
    }

-- What a method returns is computed from what the access gave.
pub Finishes-map :
    {A B : Type 0} {f : Access A} {s : Shared} {r : Option (A × Shared)} (k : A → B)
    → Finishes f s r
    → Finishes (λ c. (k (f c).0, (f c).1)) s (Option.map (λ (u : A × Shared). (k u.0, u.1)) r)
Finishes-map k (finishes l) =
    finishes (record { early = l.early; split = l.split; effect = ap (λ u. (k u.0, u.1)) l.effect })
