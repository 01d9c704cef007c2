-- ===== src/LockfreePushBack/Aims.antt =====
-- delete-me/lockfree_push_back.hpp: what a thread that pushes has yet to store.
use akl.Base.{
  ℕ, ◌+◌, ◌<◌, ◌≤◌, ◌≡◌, some, List, ◌∷◌, ◌++◌, length, length-append, get_elem?, arith, ◌&&◌,
  if◌then◌else◌, ltb, leb,
}
use akl.Machine.Crew.{total, total-move, total-at, All, All-move}
use akl.LockfreePushBack.{
  Container, Push, putpos, items_of, Job, push, query, Place, inc_ref, swap, test, store, grow,
  try_lock, flag, drain, resize, fill, Vector,
}
use akl.LockfreePushBack.Slices.{Slice, Slice-append}

-- What a thread has to store: all that its push brings, or what is left of it.
pub data Aim (T : Type 0) : Type 0 where
  no_aim : Aim T
  to_push : Push T → Aim T
  to_store : ℕ → List T → Aim T

-- Whether `i` is one of the positions.
abbrev pub within : ℕ → ℕ → ℕ → ℕ
within i pos n = if leb pos i && ltb i (pos + n) then 1 else 0

module _ {T : Type 0} where
  abbrev pub job_aim : Job T → Aim T
  job_aim (push p) = to_push p
  job_aim (query _) = no_aim

  abbrev pub aim : Place T → Aim T
  aim (inc_ref job) = job_aim job
  aim (swap job _) = job_aim job
  aim (test job) = job_aim job
  aim (grow p) = to_push p
  aim (try_lock p) = to_push p
  aim (flag p) = to_push p
  aim (drain p) = to_push p
  aim (resize p) = to_push p
  aim (store pos ts) = to_store pos ts
  aim (fill pos ts) = to_store pos ts
  aim _ = no_aim

  abbrev pub covers_aim : ℕ → Aim T → ℕ
  covers_aim i no_aim = 0
  covers_aim i (to_push p) = within i (putpos p) (length (items_of p))
  covers_aim i (to_store pos ts) = within i pos (length ts)

  -- Whether the thread has yet to store at `i`.
  abbrev pub covers : ℕ → Place T → ℕ
  covers i p = covers_aim i (aim p)

  -- What it is to store are the items at its positions, and when it stores there is room.
  abbrev pub ReadyAim : List T → ℕ → Aim T → Type 0
  ReadyAim items size no_aim = Unit
  ReadyAim items size (to_push p) =
      Slice items (putpos p) (items_of p) × (putpos p + length (items_of p) ≤ length items)
  ReadyAim items size (to_store pos ts) =
      Slice items pos ts × (pos + length ts ≤ length items) × (pos + length ts ≤ size)

  abbrev pub Ready : List T → ℕ → Place T → Type 0
  Ready items size p = ReadyAim items size (aim p)

  pub ReadyAim-append :
      (items more : List T) (size size' : ℕ) (a : Aim T)
      → size ≤ size'
      → ReadyAim items size a
      → ReadyAim (items ++ more) size' a
  ReadyAim-append items more size size' no_aim l r = tt
  ReadyAim-append items more size size' (to_push p) l (s, b) =
      (Slice-append items more (putpos p) (items_of p) s, omega (arith, length-append items more))
  ReadyAim-append items more size size' (to_store pos ts) l (s, b, room) =
      (Slice-append items more pos ts s, omega (arith, length-append items more), omega arith)

  pub ReadyAim-grow :
      (items : List T) (size size' : ℕ) (a : Aim T)
      → size ≤ size'
      → ReadyAim items size a
      → ReadyAim items size' a
  ReadyAim-grow items size size' no_aim l r = tt
  ReadyAim-grow items size size' (to_push p) l r = r
  ReadyAim-grow items size size' (to_store pos ts) l (s, b, room) = (s, b, omega arith)

module _ {C T : Type 0} (vector : Container C T) where
  -- The item at `i`, if it has been stored, is in the container.
  abbrev pub IsAt : C → ℕ → T → Type 0
  IsAt c i t = (i < vector.size c) × (vector.get i c ≡ t)

  pub record Held (m : Vector C T) (ps : List (Place T)) : Type 0 where
    pub index : m.idx ≡ length m.items
    pub ready : All (Ready m.items (vector.size m.container)) ps
    pub stored :
        (i : ℕ) (t : T)
        → total (covers i) ps ≡ 0
        → get_elem? m.items i ≡ some t
        → IsAt m.container i t

  -- What a move of one thread is to keep, for it and for the others.
  pub record Keeps (m n : Vector C T) (p q : Place T) : Type 0 where
    pub index : n.idx ≡ length n.items
    pub others :
        (a : Aim T)
        → ReadyAim m.items (vector.size m.container) a
        → ReadyAim n.items (vector.size n.container) a
    pub ready : Ready n.items (vector.size n.container) q
    pub stored :
        (i : ℕ) (t : T)
        → covers i q ≡ 0
        → get_elem? n.items i ≡ some t
        → (covers i p ≡ 0 → get_elem? m.items i ≡ some t → IsAt m.container i t)
        → IsAt n.container i t

  pub Keeps-Held :
      (m n : Vector C T) (p q : Place T) (before behind : List (Place T))
      → Held m (before ++ p ∷ behind)
      → Keeps m n p q
      → Held n (before ++ q ∷ behind)
  Keeps-Held m n p q before behind h k = record {
    index = k.index;
    ready =
        All-move (Ready m.items (vector.size m.container)) (Ready n.items (vector.size n.container))
          before p q behind (λ x r. k.others (aim x) r) k.ready h.ready;
    stored = λ i t none_left e.
        let here : covers i q ≡ 0 = omega (arith, total-at (covers i) before q behind) in
        k.stored i t here e
          (λ z e'. h.stored i t (omega (arith, total-move (covers i) before p q behind)) e');
  }
