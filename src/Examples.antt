-- ===== src/Examples.antt =====
-- Runs of the model on small inputs, and each theorem with hypotheses at an input that meets them.
mod Platforms
mod Atomics
mod Rwlock
mod Mutexes
mod Memories
mod Lifetime
mod Spinlocks
mod Semaphores
mod Barriers
mod SpinRwlock2
mod QueuedRwLocks
mod Pools
mod PoolSizes
mod Groups
mod Conditionals
mod Vectors
mod SpinRwlock
mod Threads
