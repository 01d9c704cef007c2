-- ===== src/Examples/Vectors.antt =====
-- Two threads on a container with room for one item: the first pushes another one.
use akl.Base.{
  ℕ, zero, suc, ◌+◌, ◌*◌, ◌<◌, ◌≤◌, ◌≡◌, ◌≢◌, ◌⊎◌, refl, List, [], ◌∷◌, ◌==◌, if◌then◌else◌, some,
  true, get_elem?, arith,
}
use akl.Machine.Crew.{total, crew, Reachable, start, step}
use akl.LockfreePushBack.{
  Container, max_ref, push_one, Place, outside, fill, Vector, construct, grown, Move,
  calls_push_one, sees_count, swaps, has_no_room, drops, locks, flags, drained, resizes, fills,
}
use akl.LockfreePushBack.Exclusion.{resizing, refs, flags_set, alone}
use akl.LockfreePushBack.Aims.{IsAt}
use akl.LockfreePushBack.Contents.{contents, in_bounds}

abbrev Cells : Type 0
Cells = ℕ × (ℕ → ℕ)

written : (i t : ℕ) (c : Cells) → i < c.0 → (if i == i then t else c.1 i) ≡ t
written i t c l = ground arith

kept : (i j t : ℕ) (c : Cells) → i < c.0 → j ≢ i → (if j == i then t else c.1 j) ≡ c.1 j
kept i j t c l ne = ground arith

abbrev cells : Container Cells ℕ
cells = record {
  size = λ c. c.0;
  resize = λ n c. (n, c.1);
  set = λ i t c. (c.0, λ j. if j == i then t else c.1 j);
  get = λ i c. c.1 i;
  size-resize = λ n c. omega arith;
  get-resize = λ i n c _ _. refl;
  size-set = λ i t c _. refl;
  get-set = written;
  get-set_other = kept;
}

abbrev double : ℕ → ℕ
double n = n * 2

abbrev one_cell : Cells
one_cell = (1, λ _. 5)

abbrev empty_vector : Vector Cells ℕ
empty_vector = construct one_cell 1 (5 ∷ [])

-- The first thread has resized the container, and is to store.
abbrev resized : Vector Cells ℕ
resized = record {
  container = grown cells double (push_one 1 7) one_cell;
  reference_count = 65536;
  idx = 2;
  mut = true;
  items = 5 ∷ 7 ∷ [];
}

abbrev about_to_store : List (Place ℕ)
about_to_store = fill 1 (7 ∷ []) ∷ outside ∷ []

abbrev stored : Vector Cells ℕ
stored = record resized { container = cells.set 1 7 resized.container }

resized-Reachable :
    Reachable (Move cells double) empty_vector (crew 2 outside) resized about_to_store
unfolding crew grown
resized-Reachable =
    step [] (outside ∷ [])
      (step [] (outside ∷ [])
        (step [] (outside ∷ [])
          (step [] (outside ∷ [])
            (step [] (outside ∷ [])
              (step [] (outside ∷ [])
                (step [] (outside ∷ [])
                  (step [] (outside ∷ []) (step [] (outside ∷ []) start (calls_push_one 7))
                    (sees_count refl))
                  swaps)
                (has_no_room refl))
              drops)
            (locks refl))
          flags)
        (drained refl))
      resizes

stored-Reachable :
    Reachable (Move cells double) empty_vector (crew 2 outside) stored (fill 2 [] ∷ outside ∷ [])
stored-Reachable = step [] (outside ∷ []) resized-Reachable fills

alone_example :
    (total resizing about_to_store ≤ 1)
    × ((total resizing about_to_store ≡ 0) ⊎ (total refs about_to_store ≡ 0))
    × (total flags_set about_to_store ≤ 1)
    × (resized.reference_count
        ≡ total refs about_to_store + max_ref * total flags_set about_to_store)
alone_example =
    alone cells double 2 one_cell 1 (5 ∷ []) resized about_to_store (omega arith) resized-Reachable

old-IsAt : (i t : ℕ) → get_elem? (5 ∷ []) i ≡ some t → IsAt cells one_cell i t
old-IsAt zero t e = ground arith
old-IsAt (suc i) t e = cc

contents_example : IsAt cells stored.container 1 7
unfolding total
contents_example =
    contents cells double 2 one_cell (5 ∷ []) old-IsAt stored (fill 2 [] ∷ outside ∷ [])
      stored-Reachable (omega arith) 1 7 refl refl

in_bounds_example :
    (1 < cells.size resized.container) × (1 < resized.idx) × (get_elem? resized.items 1 ≡ some 7)
in_bounds_example =
    in_bounds cells double 2 one_cell (5 ∷ []) old-IsAt resized about_to_store resized-Reachable
      (omega arith) [] (outside ∷ []) (fill 1 (7 ∷ [])) 1 7 [] refl refl
