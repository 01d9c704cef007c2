-- ===== src/Machine.antt =====
-- The machine below the library: words, the functions of other projects that the code calls, and
-- a cell that several threads access.
pub mod Words
pub mod External
pub mod Shared
pub mod Crew
