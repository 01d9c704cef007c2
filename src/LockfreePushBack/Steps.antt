-- ===== src/LockfreePushBack/Steps.antt =====
-- delete-me/lockfree_push_back.hpp: what each move keeps of the items and the container.
use mathlib.Core.Option.{some-injective}
use akl.Base.{
  ℕ, suc, ◌+◌, ◌<◌, ◌≤◌, ◌≡◌, ◌≢◌, inl, inr, refl, sym, ap, ◌∙◌, List, ◌∷◌, ◌++◌, length,
  length-append, get_elem?, arith, Bool, true, false, Bool-cases, if◌then◌else◌, ltb, ◌==◌,
}
use akl.Machine.Words.{wadd, u64}
use akl.LockfreePushBack.{
  Container, Push, push_one, push_range, putpos, items_of, needed, fits, too_small, push, Place,
  outside, inc_ref, resize, fill, Vector, inc_idx, grown,
}
use akl.LockfreePushBack.Slices.{get_elem?-length, get_elem?-append, Slice-behind}
use akl.LockfreePushBack.Aims.{
  to_push, to_store, within, covers, Ready, ReadyAim, ReadyAim-append, ReadyAim-grow, Keeps,
}

module _ {T : Type 0} where
  -- The positions behind a push.
  abbrev pub end : Push T → ℕ
  end p = putpos p + length (items_of p)

  needed_lem : (p : Push T) → end p < u64 → needed p ≡ end p
  needed_lem (push_one pos t) l = omega arith
  needed_lem (push_range pos ts) l = omega arith

  pub fits_lem : (p : Push T) (size : ℕ) → end p < u64 → fits p size ≡ true → end p ≤ size
  fits_lem (push_one pos t) size l h = ground arith
  fits_lem (push_range pos ts) size l h = ground arith

  too_small-true : (p : Push T) (size : ℕ) → end p < u64 → too_small p size ≡ true → size < needed p
  too_small-true (push_one pos t) size l h = ground arith
  too_small-true (push_range pos ts) size l h = ground arith

  too_small-false : (p : Push T) (size : ℕ) → end p < u64 → too_small p size ≡ false → end p ≤ size
  too_small-false (push_one pos t) size l h = ground arith
  too_small-false (push_range pos ts) size l h = ground arith

module _ {C T : Type 0} (vector : Container C T) where
  -- A move that changes neither the index nor the container.
  pub quiet :
      (m : Vector C T) (r : ℕ) (b : Bool) (p q : Place T)
      → m.idx ≡ length m.items
      → ((i : ℕ) → covers i q ≡ 0 → covers i p ≡ 0)
      → Ready m.items (vector.size m.container) q
      → Keeps vector m (record m { reference_count = r; mut = b }) p q
  quiet m r b p q x c h = record {
    index = x;
    others = λ a r. r;
    ready = h;
    stored = λ i t z e old. old (c i z) e;
  }

  -- A call of `inc_idx` by a thread whose push is `p`.
  pub claims :
      (m : Vector C T) (p : Push T)
      → m.idx ≡ length m.items
      → putpos p ≡ m.idx
      → length (m.items ++ items_of p) < u64
      → Keeps vector m (inc_idx (items_of p) m) outside (inc_ref (push p))
  claims m p x e l =
      let longer = length-append m.items (items_of p) in
      let here : putpos p ≡ length m.items = e ∙ x in
      record {
        index = omega (arith, longer, x);
        others = λ a r. ReadyAim-append m.items (items_of p) _ _ a (omega arith) r;
        ready = (rw here (Slice-behind m.items (items_of p)), omega (arith, longer));
        stored = λ i t z get old.
            let before : i < length m.items =
              ground (arith, get_elem?-length (m.items ++ items_of p) i t get, longer, here) in
            old refl (sym (get_elem?-append m.items (items_of p) i before) ∙ get);
      }

  -- A store at `pos`, from a place before it to one after it.
  pub puts :
      (m : Vector C T) (pos : ℕ) (t : T) (ts : List T) (p q : Place T)
      → m.idx ≡ length m.items
      → length m.items < u64
      → ReadyAim m.items (vector.size m.container) (to_store pos (t ∷ ts))
      → ((i : ℕ) → covers i p ≡ within i pos (suc (length ts)))
      → ((i : ℕ) → covers i q ≡ within i (wadd u64 pos 1) (length ts))
      → (ReadyAim m.items (vector.size m.container) (to_store (wadd u64 pos 1) ts)
          → Ready m.items (vector.size m.container) q)
      → Keeps vector m (record m { container = vector.set pos t m.container }) p q
  puts m pos t ts p q x l ((get, s), b, room) cp cq rq =
      let next : wadd u64 pos 1 ≡ suc pos = omega arith in
      let same : vector.size (vector.set pos t m.container) ≡ vector.size m.container =
        vector.size-set pos t m.container (omega arith) in
      record {
        index = x;
        others = λ a r. rw same r;
        ready = rw same (rq (rw next (s, omega arith, omega arith)));
        stored = λ i u z e old. elim (Bool-cases (i == pos)) [
          | inl t' ↦
              let here : i ≡ pos = ground arith in
              rw here (
                omega (arith, same),
                vector.get-set pos t m.container (omega arith)
                    ∙ some-injective t u (sym get ∙ (sym (ap (λ j. get_elem? m.items j) here) ∙ e)),
              )
          | inr f ↦
              let there : i ≢ pos = ground arith in
              let zp : covers i p ≡ 0 = ground (arith, cp i, cq i, next) in
              let (lt, v) = old zp e in
              (
                omega (arith, same),
                vector.get-set_other pos i t m.container (omega arith) there ∙ v,
              )
        ];
      }

  -- The container after the resize has room for the push, and the elements it had.
  record Grows (p : Push T) (c c' : C) : Type 0 where
    size : vector.size c ≤ vector.size c'
    room : end p ≤ vector.size c'
    get : (i : ℕ) → i < vector.size c → vector.get i c' ≡ vector.get i c

  resize-Grows :
      (p : Push T) (n : ℕ) (c : C) → end p ≤ n → vector.size c < n → Grows p c (vector.resize n c)
  resize-Grows p n c e l = record {
    size = omega (arith, vector.size-resize n c);
    room = omega (arith, vector.size-resize n c);
    get = λ i h. vector.get-resize i n c h (omega arith);
  }

  grown-Grows :
      (scaled : ℕ → ℕ) (p : Push T) (c : C) → end p < u64 → Grows p c (grown vector scaled p c)
  unfolding grown
  grown-Grows scaled p c l = elim (Bool-cases (too_small p (vector.size c))) [
    | inl t ↦
        let double = scaled (vector.size c) in
        let small = too_small-true p (vector.size c) l t in
        let need = needed_lem p l in
        rw t (
          resize-Grows p (if ltb (needed p) double then double else needed p) c (ground arith)
            (ground arith))
    | inr f ↦
        let room = too_small-false p (vector.size c) l f in
        rw f (record { size = omega arith; room = room; get = λ i h. refl })
  ]

  -- The resize.
  pub resizing :
      (scaled : ℕ → ℕ) (m : Vector C T) (p : Push T)
      → m.idx ≡ length m.items
      → length m.items < u64
      → ReadyAim m.items (vector.size m.container) (to_push p)
      → Keeps vector m
          (record m { container = grown vector scaled p m.container })
          (resize p)
          (fill (putpos p) (items_of p))
  resizing scaled m p x l (s, b) =
      let g = grown-Grows scaled p m.container (omega arith) in
      record {
        index = x;
        others = λ a r. ReadyAim-grow m.items _ _ a g.size r;
        ready = (s, b, g.room);
        stored = λ i t z e old. let (lt, v) = old z e in (omega (arith, g.size), g.get i lt ∙ v);
      }
