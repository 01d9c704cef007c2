-- ===== src/ThreadGroup.antt =====
-- delete-me/thread_group.hpp: threads that are launched and joined together. One thread calls `launch`
-- and `join`; a launched thread appends an entry to `joinqueue` when its function has ended, with the
-- message if it threw. `join` is given the entries that are to arrive while it runs, in order: since
-- the queue is first in, first out, nothing depends on when they arrive. `cond.wait` returns when the
-- next one does, and `waits` is a wait that no entry ends. `pthread_join` returns, because a thread
-- that has appended its entry ends.
pub mod Joins
pub mod Retries
pub mod NewThread
use akl.Base.{
  ℕ, zero, suc, ◌+◌, ◌-◌, ◌^◌, Option, none, some, List, [], ◌∷◌, ◌++◌, ◌==◌, if◌then◌else◌, Bool,
  true, false, ltb,
}
use akl.Machine.Words.{wadd, wsub, u64}

-- An entry of `joinqueue`: the thread, and the message that it threw if it did.
pub record Entry : Type 0 where
  pub thread : ℕ
  pub message : Option ℕ

pub record Group : Type 0 where
  pub m_thread_counter : ℕ  -- size_t
  pub threads_running : ℕ  -- size_t
  pub joinqueue : List Entry

-- The constructor.
abbrev pub construct : Group
construct = record { m_thread_counter = 0; threads_running = 0; joinqueue = [] }

-- `launch`, with the thread id that the new thread gets.
unfoldable pub launch : Group → ℕ × Group
launch g = (
  g.m_thread_counter,
  record g {
    m_thread_counter = wadd u64 g.m_thread_counter 1;
    threads_running = wadd u64 g.threads_running 1;
  },
)

-- `launch` with a cpu, and the cpu that the new thread is launched on, if any.
unfoldable pub launch_on : ℕ → Group → (ℕ × Option ℕ) × Group
launch_on cpu_id g =
    if cpu_id == 2 ^ 64 - 1 then (let (thread_id, g') = launch g in ((thread_id, none), g')) else (
      (g.m_thread_counter, some cpu_id),
      record g {
        m_thread_counter = wadd u64 g.m_thread_counter 1;
        threads_running = wadd u64 g.threads_running 1;
      },
    )

-- The end of `invoke`.
unfoldable pub finish : Entry → Group → Group
finish e g = record g { joinqueue = g.joinqueue ++ e ∷ [] }

-- How `join` ends, with the threads that it has joined, the entries that have not arrived, and the
-- group.
pub data Outcome : Type 0 where
  returned : List ℕ → List Entry → Group → Outcome
  threw : ℕ → List ℕ → List Entry → Group → Outcome
  waits out_of_fuel : Outcome

-- A thread has been joined before the others.
abbrev pub joined : ℕ → Outcome → Outcome
joined t (returned ts arriving g) = returned (t ∷ ts) arriving g
joined t (threw ex ts arriving g) = threw ex (t ∷ ts) arriving g
joined t waits = waits
joined t out_of_fuel = out_of_fuel

-- The thread of an entry leaves the group.
abbrev pub leaves : Group → List Entry → Group
leaves g rest =
    let running = wsub u64 g.threads_running 1 in
    record g {
      joinqueue = rest;
      threads_running = running;
      m_thread_counter = if running == 0 then 0 else g.m_thread_counter;
    }

-- The queue that `join` pops from, and the entries that arrive later.
abbrev pub awaited : List Entry → List Entry → List Entry × List Entry
awaited [] [] = ([], [])
awaited [] (e ∷ arriving) = (e ∷ [], arriving)
awaited (e ∷ rest) arriving = (e ∷ rest, arriving)

-- The loop of `join`. `fuel` bounds its rounds.
unfoldable pub join : ℕ → List Entry → Group → Outcome
join zero arriving g = out_of_fuel
join (suc fuel) arriving g = elim (ltb 0 g.threads_running) [
  | false ↦ returned [] arriving g
  | true ↦
      let (queue, later) = awaited g.joinqueue arriving in
      elim queue [
        | [] ↦ waits
        | e ∷ rest ↦ elim e.message [
          | none ↦ joined e.thread (join fuel later (leaves g rest))
          | some ex ↦ threw ex (e.thread ∷ []) later (leaves g rest)
        ]
      ]
]
