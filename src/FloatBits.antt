-- ===== src/FloatBits.antt =====
-- float.h and double.h: the helpers that are meant to add floats in kernel code, where no floating
-- point unit may be used. They add and subtract the bit patterns as integers.
pub mod Bounds
use akl.Base.{ℕ}
use akl.Machine.Words.{wadd, wsub, u32, u64}

unfoldable pub akl_f32_add_bits : ℕ → ℕ → ℕ
akl_f32_add_bits a_bits b_bits = wadd u32 a_bits b_bits

unfoldable pub akl_f32_sub_bits : ℕ → ℕ → ℕ
akl_f32_sub_bits a_bits b_bits = wsub u32 a_bits b_bits

unfoldable pub akl_d64_add_bits : ℕ → ℕ → ℕ
akl_d64_add_bits a_bits b_bits = wadd u64 a_bits b_bits

unfoldable pub akl_d64_sub_bits : ℕ → ℕ → ℕ
akl_d64_sub_bits a_bits b_bits = wsub u64 a_bits b_bits
