-- ===== src/Pthread.antt =====
-- pthread.c: the mutex functions, over the kernel's `struct mutex` and over pthread. An operation
-- reads and writes a memory of bytes. `frame` is the address at which the called function keeps its
-- parameter `mutex`: most of the functions pass `&mutex`, that address, on.
pub mod Untouched
pub mod Mutex
use akl.Base.{
  ℕ, ◌+◌, ◌-◌, ◌*◌, ◌/◌, ◌%◌, ◌^◌, ◌<◌, ◌≤◌, ◌≡◌, ◌⊎◌, Bool, ◌&&◌, ◌==◌, if◌then◌else◌, ltb, leb,
}
use akl.Machine.External.{Build, kernel_module, user_space}

abbrev pub Memory : Type 0
Memory = ℕ → ℕ

-- A function of the platform on the object at an address; the result is its `int`.
abbrev pub Operation : Type 0
Operation = ℕ → Memory → ℕ × Memory

-- It writes only the `size` bytes of the object.
abbrev pub StaysIn : ℕ → Operation → Type 0
StaysIn size op = (a : ℕ) (m : Memory) (x : ℕ) → (x < a) ⊎ (a + size ≤ x) → (op a m).1 x ≡ m x

-- The functions of one platform on its mutex of `size` bytes. For a function of the kernel without
-- a result, the result is not used.
pub record MutexFunctions : Type 0 where
  pub size : ℕ
  pub init : Operation
  pub destroy : Operation
  pub lock : Operation
  pub unlock : Operation
  pub trylock : Operation
  pub init-StaysIn : StaysIn size init
  pub destroy-StaysIn : StaysIn size destroy
  pub lock-StaysIn : StaysIn size lock
  pub unlock-StaysIn : StaysIn size unlock
  pub trylock-StaysIn : StaysIn size trylock

pub record Mutexes : Type 0 where
  pub build : Build
  pub kernel : MutexFunctions
  pub pthread : MutexFunctions

-- The parameter `mutex`, a pointer of 8 bytes, in the memory at `frame`.
abbrev pub pass : (frame mutex : ℕ) → Memory → Memory
pass frame mutex m x =
    if leb frame x && ltb x (frame + 8) then (mutex / 2 ^ (8 * (x - frame))) % 256 else m x

module _ (p : Mutexes) (frame mutex : ℕ) where
  unfoldable pub akl_pthread_mutex_init : Memory → ℕ × Memory
  akl_pthread_mutex_init m = elim p.build [
    | kernel_module ↦ (0, (p.kernel.init frame (pass frame mutex m)).1)
    | user_space ↦ p.pthread.init mutex (pass frame mutex m)
  ]

  unfoldable pub akl_pthread_mutex_destroy : Memory → ℕ × Memory
  akl_pthread_mutex_destroy m = elim p.build [
    | kernel_module ↦ (0, (p.kernel.destroy frame (pass frame mutex m)).1)
    | user_space ↦ p.pthread.destroy frame (pass frame mutex m)
  ]

  unfoldable pub akl_pthread_mutex_lock : Memory → ℕ × Memory
  akl_pthread_mutex_lock m = elim p.build [
    | kernel_module ↦ (0, (p.kernel.lock frame (pass frame mutex m)).1)
    | user_space ↦ p.pthread.lock frame (pass frame mutex m)
  ]

  unfoldable pub akl_pthread_mutex_unlock : Memory → ℕ × Memory
  akl_pthread_mutex_unlock m = elim p.build [
    | kernel_module ↦ (0, (p.kernel.unlock frame (pass frame mutex m)).1)
    | user_space ↦ p.pthread.unlock frame (pass frame mutex m)
  ]

  unfoldable pub akl_pthread_mutex_trylock : Memory → ℕ × Memory
  akl_pthread_mutex_trylock m = elim p.build [
    | kernel_module ↦
        let (r, m') = p.kernel.trylock frame (pass frame mutex m) in (if r == 0 then 1 else 0, m')
    | user_space ↦ p.pthread.trylock frame (pass frame mutex m)
  ]
