-- ===== src/LockfreePushBack.antt =====
-- delete-me/lockfree_push_back.hpp: a container to whose end several threads append. A move is one
-- access of a thread to `cur` or to the mutex, or one call of the container, which is a parameter. The
-- multiplication of its size with `scalefactor`, in floating point, is the parameter `scaled`.
-- `items` is no field of the class: it is the old content and the items of the pushes, in the order
-- of their calls of `inc_idx`.
pub mod Exclusion
pub mod Slices
pub mod Aims
pub mod Steps
pub mod Contents
use akl.Base.{
  ℕ, zero, suc, ◌+◌, ◌-◌, ◌*◌, ◌/◌, ◌%◌, ◌<◌, ◌≤◌, ◌≡◌, ◌≢◌, Bool, true, false, List, [], ◌∷◌, ◌++◌,
  ◌==◌, if◌then◌else◌, ltb, leb, length,
}
use akl.Machine.Words.{wadd, wsub, u32, u64}

-- What the class asks of a container, and that `resize` keeps the elements.
pub record Container (C T : Type 0) : Type 0 where
  pub size : C → ℕ
  pub resize : ℕ → C → C
  pub set : ℕ → T → C → C  -- container[i] = t
  pub get : ℕ → C → T  -- container[i]
  pub size-resize : (n : ℕ) (c : C) → n ≤ size (resize n c)
  pub get-resize : (i n : ℕ) (c : C) → i < size c → i < n → get i (resize n c) ≡ get i c
  pub size-set : (i : ℕ) (t : T) (c : C) → i < size c → size (set i t c) ≡ size c
  pub get-set : (i : ℕ) (t : T) (c : C) → i < size c → get i (set i t c) ≡ t
  pub get-set_other : (i j : ℕ) (t : T) (c : C) → i < size c → j ≢ i → get j (set i t c) ≡ get j c

abbrev pub max_ref : ℕ
max_ref = 65536

-- `inc_ref` sees no flag.
abbrev pub is_open : ℕ → Bool
is_open curref = curref / max_ref % 2 == 0

-- `flag_ref`
abbrev pub flag_ref : ℕ → ℕ
flag_ref r = if is_open r then r + max_ref else r - max_ref

-- `dec_ref`
abbrev pub dec_ref : ℕ → ℕ
dec_ref r = wsub u32 r 1

-- A call of one of the two `push_back`s, with `putpos`.
pub data Push (T : Type 0) : Type 0 where
  push_one : ℕ → T → Push T
  push_range : ℕ → List T → Push T

module _ {T : Type 0} where
  abbrev pub putpos : Push T → ℕ
  putpos (push_one pos _) = pos
  putpos (push_range pos _) = pos

  abbrev pub items_of : Push T → List T
  items_of (push_one _ t) = t ∷ []
  items_of (push_range _ ts) = ts

  -- The size that the push needs.
  abbrev pub needed : Push T → ℕ
  needed (push_one pos _) = wadd u64 pos 1
  needed (push_range pos ts) = wadd u64 pos (length ts)

  -- Whether the container is large enough, at the first test and at the second.
  abbrev pub fits : Push T → ℕ → Bool
  fits (push_one pos _) size = ltb pos size
  fits (push_range pos ts) size = leb (needed (push_range pos ts)) size

  abbrev pub too_small : Push T → ℕ → Bool
  too_small (push_one pos _) size = leb size pos
  too_small (push_range pos ts) size = ltb size (needed (push_range pos ts))

pub data Job (T : Type 0) : Type 0 where
  push : Push T → Job T
  query : ℕ → Job T

-- Where a thread is. From `test` to `grow`, and at `read` and `leave`, it has a reference.
pub data Place (T : Type 0) : Type 0 where
  outside : Place T
  inc_ref : Job T → Place T  -- at the head of the loop of `inc_ref`
  swap : Job T → ℕ → Place T  -- before its compare and swap
  test : Job T → Place T  -- before the test of the size or the index
  store : ℕ → List T → Place T  -- before the next store
  grow : Push T → Place T  -- before the `dec_ref` of the `else`
  try_lock : Push T → Place T
  flag : Push T → Place T  -- before the first `flag_ref`
  drain : Push T → Place T  -- in `wait_till_no_ref`
  resize : Push T → Place T
  fill : ℕ → List T → Place T  -- before the next store, after the resize
  unlock : Place T
  read : ℕ → Place T  -- before `container[item]`
  leave : Place T  -- before the `dec_ref` of `query`

pub record Vector (C T : Type 0) : Type 0 where
  pub container : C
  pub reference_count : ℕ  -- int
  pub idx : ℕ  -- size_t
  pub mut : Bool
  pub items : List T

-- The constructor.
abbrev pub construct : {C T : Type 0} → C → ℕ → List T → Vector C T
construct c startidx old = record {
  container = c;
  reference_count = 0;
  idx = startidx;
  mut = false;
  items = old;
}

-- `inc_idx`
abbrev pub inc_idx : {C T : Type 0} → List T → Vector C T → Vector C T
inc_idx ts m = record m { idx = wadd u64 m.idx (length ts); items = m.items ++ ts }

module _ {C T : Type 0} (vector : Container C T) (scaled : ℕ → ℕ) where
  -- The resize by the thread that has the mutex.
  unfoldable pub grown : Push T → C → C
  grown p c =
      let size = vector.size c in
      let double = scaled size in
      if too_small p size
      then vector.resize (if ltb (needed p) double then double else needed p) c
      else c

  pub data Move (m : Vector C T) : Place T → Vector C T → Place T → Type 0 where
    calls_push_one :
        (t : T) → Move m outside (inc_idx (t ∷ []) m) (inc_ref (push (push_one m.idx t)))
    calls_push_range :
        (ts : List T) → Move m outside (inc_idx ts m) (inc_ref (push (push_range m.idx ts)))
    calls_query : (item : ℕ) → Move m outside m (inc_ref (query item))
    sees_flag :
        {job : Job T} → is_open m.reference_count ≡ false → Move m (inc_ref job) m (inc_ref job)
    sees_count :
        {job : Job T}
        → is_open m.reference_count ≡ true
        → Move m (inc_ref job) m (swap job m.reference_count)
    swaps :
        {job : Job T}
        → Move m
            (swap job m.reference_count)
            (record m { reference_count = wadd u32 m.reference_count 1 })
            (test job)
    loses :
        {job : Job T} {curref : ℕ}
        → m.reference_count ≢ curref
        → Move m (swap job curref) m (inc_ref job)
    has_room :
        {p : Push T}
        → fits p (vector.size m.container) ≡ true
        → Move m (test (push p)) m (store (putpos p) (items_of p))
    has_no_room :
        {p : Push T} → fits p (vector.size m.container) ≡ false → Move m (test (push p)) m (grow p)
    stores :
        {pos : ℕ} {t : T} {ts : List T}
        → Move m
            (store pos (t ∷ ts))
            (record m { container = vector.set pos t m.container })
            (store (wadd u64 pos 1) ts)
    ends :
        {pos : ℕ}
        → Move m (store pos []) (record m { reference_count = dec_ref m.reference_count }) outside
    drops :
        {p : Push T}
        → Move m (grow p) (record m { reference_count = dec_ref m.reference_count }) (try_lock p)
    is_locked : {p : Push T} → m.mut ≡ true → Move m (try_lock p) m (inc_ref (push p))
    locks : {p : Push T} → m.mut ≡ false → Move m (try_lock p) (record m { mut = true }) (flag p)
    flags :
        {p : Push T}
        → Move m (flag p) (record m { reference_count = flag_ref m.reference_count }) (drain p)
    drain_waits : {p : Push T} → m.reference_count % max_ref ≢ 0 → Move m (drain p) m (drain p)
    drained : {p : Push T} → m.reference_count % max_ref ≡ 0 → Move m (drain p) m (resize p)
    resizes :
        {p : Push T}
        → Move m
            (resize p)
            (record m { container = grown p m.container })
            (fill (putpos p) (items_of p))
    fills :
        {pos : ℕ} {t : T} {ts : List T}
        → Move m
            (fill pos (t ∷ ts))
            (record m { container = vector.set pos t m.container })
            (fill (wadd u64 pos 1) ts)
    unflags :
        {pos : ℕ}
        → Move m (fill pos []) (record m { reference_count = flag_ref m.reference_count }) unlock
    unlocks : Move m unlock (record m { mut = false }) outside
    sees_item : {item : ℕ} → item < m.idx → Move m (test (query item)) m (read item)
    sees_no_item : {item : ℕ} → m.idx ≤ item → Move m (test (query item)) m leave
    reads : {item : ℕ} → Move m (read item) m leave
    leaves : Move m leave (record m { reference_count = dec_ref m.reference_count }) outside
