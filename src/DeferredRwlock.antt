-- ===== src/DeferredRwlock.antt =====
-- delete-me/deferred_rwlock.hpp: a reader-writer lock whose waiters queue in a linked list of
-- requests that the callers own. `Memory` has the store and the lock's fields, `Ops` the methods.
pub mod Memory
pub mod Ops
pub mod Queue
pub mod Append
pub mod Steps
pub mod Prefix
pub mod Split
pub mod SplitLoop
pub mod Spec
pub mod Complete
pub mod Completion
pub mod Enqueue
pub mod Invariant
pub mod Write
pub mod Read
pub mod ReadPriority
pub mod Grant
pub mod Unlock
pub mod RdUnlock
pub mod Tail
pub mod Waiters
