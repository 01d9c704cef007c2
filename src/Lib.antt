-- ===== src/Lib.antt =====
-- A verification library for akl, a C and C++ library of atomic operations, locks and threads that is
-- built as a Linux kernel module and for user space.
--
-- The program's parts that are modelled, and how they interact:
--
-- - `akl/atomic.hpp` has the class template `atomic<T>`. It calls `sync.c`, which calls the
--   compiler's `__sync` builtins in user space and `kern_lib.c` in a kernel module; `kern_lib.c` calls
--   the kernel's `atomic_t` functions. On floats the classes compute with `akl/float.h` and
--   `akl/double.h`.
-- - `delete-me/deferred_rwlock.hpp` is a reader-writer lock with a queue of requests that the callers
--   own. It holds `simple_spinlock` of `akl/spinlock.hpp` during each call.
-- - `akl/mutex.hpp` is a class over `pthread.c`, which calls the kernel's mutex or pthread's.
-- - `delete-me/semaphore.hpp` and `delete-me/cancellable_barrier.hpp` make their threads wait on a mutex
--   and a condition variable.
-- - `delete-me/lockfree_push_back.hpp` appends to a container from several threads, and
--   `delete-me/spinrwlock.hpp` and `delete-me/spinrwlock2.hpp` are reader-writer locks in one word. In
--   `delete-me/queued_rw_lock.hpp` each thread waits at a request of its own.
-- - `delete-me/thread.hpp` has a class over a thread of pthread, and the data that belongs to it.
-- - `delete-me/thread_group.hpp` launches threads and joins them, and passes their exceptions on.
--   `delete-me/thread_pool.hpp` runs tasks on the threads of a group. Both wait on
--   `delete-me/conditional.hpp`.
-- - `operators_support.cpp` allocates with the memory functions of `kern_lib.c`, and
--   `delete-me/stdlib/memory.cpp` with the kernel's.
-- - `delete-me/stdlib/object-lifetime.cpp` keeps the destructors that run when a module ends.
--
-- The files:
--
-- - Base: names and lemmas that the others share: tests on numbers, lists, options.
-- - Machine: Words has the arithmetic of machine words. External has the functions that the
--   repository calls and does not contain, as fields of the records `LinuxAtomics` and `GccSync` with
--   their documented behaviour, and `Platform`, with the build (`__KERNEL_MODULE__` or not). Shared
--   has a cell that other threads write: `Shared` holds its value and what they do to it before each
--   access of the thread that is modelled. `Linearizes` and `Finishes` say that a run is one atomic
--   access to them. Crew has threads that are each at a place of the code and move one at a time:
--   `Reachable` are the states of such a system.
-- - KernLib: the atomic functions of `kern_lib.c`; Memory has the others, over the kernel's allocator.
-- - Operators: `operators_support.cpp` and, in Stdlib, `delete-me/stdlib/memory.cpp`; Blocks is about
--   the blocks of the heap.
-- - Sync: `sync.c`; a function there is a definition of the same name here, and the loops of the
--   exchanges are in Sync/Exchange. The proofs are in Sync/Laws, Sync/Linear and Sync/Builds.
-- - FloatBits: `akl/float.h` and `akl/double.h`.
-- - Atomic: `akl/atomic.hpp`. Generic, IntImpl, FloatImpl and DoubleImpl have the template and its
--   specialisations, a method each: `inc_one` is `inc()`, `inc` is `inc(val)`, `pre_increment` and
--   `post_increment` are `operator++`, `add_assign` is `operator+=`, `load` the conversion to `T`, and
--   likewise for the decrements. Method has the methods as data,
--   with what the comment above each says and where the code differs.
-- - DeferredRwlock: Memory has the store of requests, the fields of the lock and commands that may
--   fault; Ops has the methods under their names. Queue, Spec and Invariant have the queue as a list,
--   the contract of `complete_rdlock` and the lock's invariant; the other files have the proofs.
-- - Spinlock: `simple_spinlock` of `akl/spinlock.hpp`; Exclusion has the steps of its threads, and
--   Padded `padded_simple_spinlock`.
-- - Semaphore: `delete-me/semaphore.hpp`, the variant for Apple's systems, with threads as counts.
-- - CancellableBarrier: `delete-me/cancellable_barrier.hpp`; Rounds has the runs of its threads.
-- - SpinRwlock and SpinRwlock2: `delete-me/spinrwlock.hpp` and `delete-me/spinrwlock2.hpp`, as moves of
--   their threads.
-- - QueuedRwLock: `delete-me/queued_rw_lock.hpp`, a queue of requests, as moves of their threads: `act`
--   is one access from a `Place` of the code. Invariant has what holds between the moves; Change,
--   Writes, Moves, Acts and Arrival show that they keep it, and Order says who goes first.
-- - Thread: `delete-me/thread.hpp`. A routine is how it ends, given its thread's data; Joining has
--   `launch_and_join`, a use of many thread objects, and Local sequences of calls on the data.
-- - LockfreePushBack: `delete-me/lockfree_push_back.hpp`, as moves of its threads. A call of
--   `push_back` is a `Push`; the moves have the names of what the code does. Slices, Aims and Steps
--   have the lemmas on the items that the threads have yet to store.
-- - ThreadPool: `delete-me/thread_pool.hpp`, as moves of its threads: `raise` and `complete` are the
--   sections under the mutex in `wait_for_task`, and `join_enter`, `join_again` those of `join`. Control
--   has the methods that start and end the threads, with `tried` a round of the loop round
--   `threads.join()`; Staff, Ends and Restarting have their lemmas.
-- - ThreadGroup: `delete-me/thread_group.hpp`; Retries calls `join` again after each exception, and
--   NewThread has `launch_in_new_thread`, which uses Thread.
-- - Conditional: `delete-me/conditional.hpp`; Deadlines is about its waits with a time limit.
-- - ObjectLifetime: `delete-me/stdlib/object-lifetime.cpp`, the table of destructors.
-- - Pthread: `pthread.c`; Mutex is the class `mutex` of `akl/mutex.hpp`, which calls it.
-- - PthreadObjects: `delete-me/recursive_mutex.hpp`, `delete-me/rwlock.hpp` and
--   `delete-me/barrier.hpp`, which call pthread.
-- - Examples: concrete platforms, and runs and theorems at concrete states.
--
-- Numbers: an `int`, a `float` and a `double` are their bit patterns, natural numbers below 2 ^ 32
-- and 2 ^ 64, and arithmetic wraps. `reader_count` of the deferred lock wraps at 2 ^ 16, the
-- counters of the semaphore at 2 ^ 64 and those of the barrier at 2 ^ 32. The bytes of `spinrwlock`
-- wrap at 2 ^ 8, the word of `spinrwlock2` and the reference count of the vector wrap at 2 ^ 32,
-- and its index, the readers of `queued_rw_lock` and the counters of the thread pool and the thread
-- group at 2 ^ 64.
--
-- Fuel: the compare-and-swap loops of `sync.c` and of the float classes take a number of rounds. A
-- round fails only if another thread wrote the cell since the last read, so one round more than the
-- other threads have writes is enough. The two loops of `complete_rdlock` visit a request of the
-- queue in each round, so as many rounds as the queue has requests are enough. The loop of `join`
-- of a thread group joins a thread in each round, so one round more than threads run is enough;
-- Retries and `join_all` of the pool call it at most once more than there are threads, since every
-- call but the last throws the message of one.
--
-- Not modelled: the wrappers round `sem_t` and `pthread_spinlock_t`, which only call their
-- functions, logging and the build; a task in the queue of a thread pool that is stopped; a container that `set_size` shortens. Memory is
-- sequentially consistent: the barriers (`__sync_synchronize`, `volatile`) have no effect of their
-- own. The calls of the deferred lock run one after the other, as its spinlock makes them. The models
-- of the semaphore, the barrier, the vector, the pool and the group take the mutex as one that
-- locks, though `pthread.c` does not lock the mutex that it is given (Pthread/Untouched).
pub mod Base
pub mod Machine
pub mod KernLib
pub mod Operators
pub mod Sync
pub mod FloatBits
pub mod Atomic
pub mod DeferredRwlock
pub mod ObjectLifetime
pub mod Pthread
pub mod PthreadObjects
pub mod Spinlock
pub mod Semaphore
pub mod CancellableBarrier
pub mod QueuedRwLock
pub mod SpinRwlock
pub mod SpinRwlock2
pub mod Thread
pub mod ThreadPool
pub mod ThreadGroup
pub mod Conditional
pub mod LockfreePushBack
mod Examples
