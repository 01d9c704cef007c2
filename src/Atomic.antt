-- ===== src/Atomic.antt =====
-- akl/atomic.hpp: the class template `atomic_impl` and its three specialisations. `atomic<T>` only
-- inherits them, and `atomic_int_`, `atomic_float_` and `atomic_double_` are names for its uses.
pub mod Generic
pub mod IntImpl
pub mod FloatImpl
pub mod DoubleImpl
pub mod Method
pub mod Words
pub mod Loops
