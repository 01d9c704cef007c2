-- ===== src/FloatBits/Bounds.antt =====
-- akl/float.h: what the sum of bit patterns means for the numbers they encode.
use akl.Base.{ℕ, ◌+◌, ◌*◌, ◌<◌, ◌^◌, ◌≡◌, ◌↔◌, arith}
use akl.FloatBits.{akl_f32_add_bits, akl_f32_sub_bits}

-- The pattern of the float `2 ^ (e - 127)`, for an exponent field `0 < e < 255`.
abbrev pub power_of_two : ℕ → ℕ
power_of_two e = e * 2 ^ 23

-- Adding the float `2 ^ (e - 127)` to itself gives its double only for the smallest normal exponent,
-- `e ≡ 1`; for any other `e` of a normal float the result is another float. Subtracting it from
-- itself gives 0 for every `e`.
pub add_bits-doubles :
    (e : ℕ)
    → 0 < e
    → e < 255
    → ((akl_f32_add_bits (power_of_two e) (power_of_two e) ≡ power_of_two (e + 1)) ↔ (e ≡ 1))
      × (akl_f32_sub_bits (power_of_two e) (power_of_two e) ≡ 0)
unfolding akl_f32_add_bits akl_f32_sub_bits
add_bits-doubles e pos lt = ((λ h. omega (arith, h), λ h. omega (arith, h)), omega arith)
