-- ===== src/ThreadPool/Resizing.antt =====
-- delete-me/thread_pool.hpp: the threads that a pool has after it is resized, or its affinity set.
use akl.Base.{ℕ, ◌+◌, ◌<◌, ◌≡◌, ◌≢◌, Option, List, [], ◌∷◌, Bool, true, length}
use akl.Machine.Words.{u64}
use akl.ThreadGroup.{Entry}
use akl.ThreadPool.Control.{Control, Result, completed, resize, set_cpu_affinity, Blocking}
use akl.ThreadPool.Restarting.{Staffed}

-- How the threads of a pool end.
pub record Ends : Type 0 where
  pub entries : List (ℕ × Option ℕ) → List Entry
  pub all : (ws : List (ℕ × Option ℕ)) → length (entries ws) ≡ length ws

-- A call of `resize` or of `set_cpu_affinity`.
pub data Request : Type 0 where
  resizes : ℕ → Ends → Request
  sets_affinity : Bool → Ends → Request

module _ {Q : Type 0} (ncpus : ℕ) (blocking : Blocking Q) where
  abbrev pub apply : Request → Control Q → Result Q
  apply (resizes n ends) c = resize ncpus blocking (c.pool_size + 1) ends.entries n c
  apply (sets_affinity a ends) c =
      set_cpu_affinity ncpus blocking (c.pool_size + 1) ends.entries a c

  -- The requests one after the other, up to one that does not complete.
  abbrev pub apply_all : List Request → Result Q → Result Q
  apply_all [] r = r
  apply_all (q ∷ requests) (completed c) = apply_all requests (apply q c)
  apply_all (q ∷ requests) r = r

-- The size, and the affinity, that a request asks for.
abbrev pub asked_size : ℕ → Request → ℕ
asked_size n (resizes k _) = k
asked_size n (sets_affinity _ _) = n

abbrev pub asked_affinity : Bool → Request → Bool
asked_affinity a (resizes _ _) = a
asked_affinity a (sets_affinity b _) = b

abbrev pub last_size : ℕ → List Request → ℕ
last_size n [] = n
last_size n (q ∷ requests) = last_size (asked_size n q) requests

abbrev pub last_affinity : Bool → List Request → Bool
last_affinity a [] = a
last_affinity a (q ∷ requests) = last_affinity (asked_affinity a q) requests

-- Sizes are of type `size_t`.
abbrev pub Small : List Request → Type 0
Small [] = Unit
Small (q ∷ requests) = (asked_size 0 q < u64) × Small requests

module _ {Q : Type 0} (ncpus : ℕ) (some_cpu : ncpus ≢ 0) (blocking : Blocking Q) where
  -- The pool that a request leaves.
  abbrev Leaves : ℕ → Bool → Control Q → Type 0
  Leaves n a d =
      Staffed ncpus d
      × (d.pool_size ≡ n)
      × (d.cpu_affinity ≡ a)
      × (blocking.is_alive d.spawn_queue ≡ true)
