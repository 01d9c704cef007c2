-- ===== src/PthreadObjects.antt =====
-- The classes round a recursive mutex, a reader-writer lock and a barrier of pthread. Each function of
-- pthread is a parameter, on a state `W` that has the object; it gives its error, 0 for none. A call
-- that waits is taken as one that has returned. A failed assertion is `none`.
pub mod RecursiveMutex
pub mod ReaderWriter
pub mod Barrier
