-- ===== src/Machine/Words.antt =====
-- Arithmetic on machine words. A word is a number below its modulus; an `int` is its bit pattern.
use akl.Base.{ℕ, ◌+◌, ◌-◌, ◌%◌, ◌^◌}

-- `a + b` and `a - b` in a word whose modulus is `m`.
abbrev pub wadd : ℕ → ℕ → ℕ → ℕ
wadd m a b = (a + b) % m

abbrev pub wsub : ℕ → ℕ → ℕ → ℕ
wsub m a b = (a + m - b) % m

abbrev pub u32 : ℕ
u32 = 2 ^ 32

abbrev pub u64 : ℕ
u64 = 2 ^ 64
