-- ===== src/LockfreePushBack/Contents.antt =====
-- delete-me/lockfree_push_back.hpp: what the container holds.
use mathlib.Core.Path.{subst}
use akl.Base.{
  ℕ, ◌<◌, ◌≤◌, ◌≡◌, refl, some, List, [], ◌∷◌, ◌++◌, length, length-append, get_elem?, arith,
}
use akl.Machine.Words.{u64}
use akl.Machine.Crew.{total, All, All-at, crew, All-crew, Reachable, Reachable-invariant}
use akl.LockfreePushBack.{
  Container, push_one, push_range, Place, outside, Vector, construct, Move, calls_push_one,
  calls_push_range, calls_query, sees_flag, sees_count, swaps, loses, has_room, has_no_room, stores,
  ends, drops, is_locked, locks, flags, drain_waits, drained, resizes, fills, unflags, unlocks,
  sees_item, sees_no_item, reads, leaves,
}
use akl.LockfreePushBack.Aims.{
  to_store, aim, covers, Ready, ReadyAim, IsAt, Held, Keeps, Keeps-Held,
}
use akl.LockfreePushBack.Steps.{fits_lem, quiet, claims, puts, resizing}

module _ {C T : Type 0} (vector : Container C T) (scaled : ℕ → ℕ) where
  Move-Keeps :
      {m n : Vector C T} {p q : Place T}
      → Move vector scaled m p n q
      → m.idx ≡ length m.items
      → length n.items < u64
      → Ready m.items (vector.size m.container) p
      → Keeps vector m n p q
  Move-Keeps {m} (calls_push_one t) x l r = claims vector m (push_one m.idx t) x refl l
  Move-Keeps {m} (calls_push_range ts) x l r = claims vector m (push_range m.idx ts) x refl l
  Move-Keeps {m} (calls_query item) x l r = quiet vector m _ _ _ _ x (λ i z. z) r
  Move-Keeps {m} (sees_flag e) x l r = quiet vector m _ _ _ _ x (λ i z. z) r
  Move-Keeps {m} (sees_count e) x l r = quiet vector m _ _ _ _ x (λ i z. z) r
  Move-Keeps {m} swaps x l r = quiet vector m _ _ _ _ x (λ i z. z) r
  Move-Keeps {m} (loses e) x l r = quiet vector m _ _ _ _ x (λ i z. z) r
  Move-Keeps {m} (has_room {p} e) x l (s, b) =
      quiet vector m _ _ _ _ x (λ i z. z) (s, b, fits_lem p _ (omega arith) e)
  Move-Keeps {m} (has_no_room e) x l r = quiet vector m _ _ _ _ x (λ i z. z) r
  Move-Keeps {m} (stores {pos} {t} {ts}) x l r =
      puts vector m pos t ts _ _ x l r (λ i. refl) (λ i. refl) (λ h. h)
  Move-Keeps {m} (ends {pos}) x l r = quiet vector m _ _ _ _ x (λ i z. ground arith) tt
  Move-Keeps {m} drops x l r = quiet vector m _ _ _ _ x (λ i z. z) r
  Move-Keeps {m} (is_locked e) x l r = quiet vector m _ _ _ _ x (λ i z. z) r
  Move-Keeps {m} (locks e) x l r = quiet vector m _ _ _ _ x (λ i z. z) r
  Move-Keeps {m} flags x l r = quiet vector m _ _ _ _ x (λ i z. z) r
  Move-Keeps {m} (drain_waits e) x l r = quiet vector m _ _ _ _ x (λ i z. z) r
  Move-Keeps {m} (drained e) x l r = quiet vector m _ _ _ _ x (λ i z. z) r
  Move-Keeps {m} (resizes {p}) x l r = resizing vector scaled m p x l r
  Move-Keeps {m} (fills {pos} {t} {ts}) x l r =
      puts vector m pos t ts _ _ x l r (λ i. refl) (λ i. refl) (λ h. h)
  Move-Keeps {m} (unflags {pos}) x l r = quiet vector m _ _ _ _ x (λ i z. ground arith) tt
  Move-Keeps {m} unlocks x l r = quiet vector m _ _ _ _ x (λ i z. z) r
  Move-Keeps {m} (sees_item e) x l r = quiet vector m _ _ _ _ x (λ i z. z) r
  Move-Keeps {m} (sees_no_item e) x l r = quiet vector m _ _ _ _ x (λ i z. z) r
  Move-Keeps {m} reads x l r = quiet vector m _ _ _ _ x (λ i z. z) r
  Move-Keeps {m} leaves x l r = quiet vector m _ _ _ _ x (λ i z. z) r

  -- No move takes an item away.
  Move-items :
      {m n : Vector C T} {p q : Place T}
      → Move vector scaled m p n q
      → length m.items ≤ length n.items
  Move-items {m} (calls_push_one t) = omega (arith, length-append m.items (t ∷ []))
  Move-items {m} (calls_push_range ts) = omega (arith, length-append m.items ts)
  Move-items mv = ground arith

  -- What holds as long as the index does not wrap around.
  abbrev Inv : Vector C T → List (Place T) → Type 0
  Inv m ps = length m.items < u64 → Held vector m ps

  Move-Inv :
      (m n : Vector C T) (p q : Place T) (before behind : List (Place T))
      → Inv m (before ++ p ∷ behind)
      → Move vector scaled m p n q
      → Inv n (before ++ q ∷ behind)
  Move-Inv m n p q before behind inv mv l =
      let h = inv (omega (arith, Move-items mv)) in
      Keeps-Held vector m n p q before behind h (
        Move-Keeps mv h.index l
          (All-at (Ready m.items (vector.size m.container)) before p behind h.ready))

  module _ (n : ℕ) (c : C) (old : List T)
      (holds : (i : ℕ) (t : T) → get_elem? old i ≡ some t → IsAt vector c i t) (m : Vector C T)
      (ps : List (Place T))
      (r : Reachable (Move vector scaled) (construct c (length old) old) (crew n outside) m ps)
      (fits_word : length m.items < u64) where
    Reachable-Held : Held vector m ps
    Reachable-Held =
        Reachable-invariant Inv
          (λ _. record {
            index = refl;
            ready = All-crew (Ready old (vector.size c)) n outside tt;
            stored = λ i t _ e. holds i t e;
          })
          Move-Inv r fits_word

    -- A container that holds the old items, and any number of threads that push and query, with fewer
    -- than 2 ^ 64 items in all: in every state that they reach, if no thread has yet to store at `i`,
    -- then `i` is below the size of the container, and its element there is the item at `i` of the old
    -- items followed by those of the pushes, in the order in which these called `inc_idx`.
    pub contents :
        (i : ℕ) (t : T)
        → total (covers i) ps ≡ 0
        → get_elem? m.items i ≡ some t
        → IsAt vector m.container i t
    contents i t none_left e = Reachable-Held.stored i t none_left e

    -- In these states, a thread that is to store an item at `pos`, before or after a resize, does so
    -- below the size of the container and below the index, and stores the item at `pos`.
    pub in_bounds :
        (before behind : List (Place T)) (p : Place T) (pos : ℕ) (t : T) (ts : List T)
        → ps ≡ before ++ p ∷ behind
        → aim p ≡ to_store pos (t ∷ ts)
        → (pos < vector.size m.container) × (pos < m.idx) × (get_elem? m.items pos ≡ some t)
    in_bounds before behind p pos t ts e a =
        let rs =
          subst (λ zs. All (Ready m.items (vector.size m.container)) zs) e Reachable-Held.ready in
        let (st, b, room) =
          subst (λ z. ReadyAim m.items (vector.size m.container) z) a
            (All-at (Ready m.items (vector.size m.container)) before p behind rs) in
        (omega arith, omega (arith, Reachable-Held.index), st.0)
