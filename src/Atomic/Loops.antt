-- ===== src/Atomic/Loops.antt =====
-- The loops of `atomic_impl<akl_atomic_float_t>` and `atomic_impl<akl_atomic_double_t>` end, and
-- are one atomic update to the other threads.
use akl.Base.{
  ℕ, zero, suc, ◌<◌, ◌≡◌, refl, ap, List, [], ◌∷◌, length, arith, ◌==◌, inl, inr, Bool-cases,
  ==_refl, Option, some,
}
use akl.Machine.Words.{wadd, wsub, u32, u64}
use akl.Machine.External.{Access, Platform}
use akl.Machine.Shared.{
  Shared, access, access-Finishes, at, Finishes, finishes, Finishes-after, Finishes-map,
}
use akl.Sync.Laws.{compare_and_swap_float_lem, compare_and_swap_double_lem}
use akl.Sync.Linear.{exchange_float-Finishes, exchange_double-Finishes}
use akl.FloatBits.{akl_f32_add_bits, akl_f32_sub_bits, akl_d64_add_bits, akl_d64_sub_bits}
use akl.Atomic.Method.{Method, Arithmetic, corrected, decrementing}
use akl.Atomic.FloatImpl
use akl.Atomic.DoubleImpl

-- Both values of an update, as one access.
abbrev update : (ℕ → ℕ) → Access (ℕ × ℕ)
update f c = ((c, f c), f c)

-- Patterns of floats, and of doubles, that are added and subtracted as integers, as `akl_f32_add_bits`
-- and `akl_d64_add_bits` do; this is not the arithmetic of floats that the comments mean.
abbrev pub float_arithmetic : Arithmetic
float_arithmetic = record { one = 0x3f80_0000; plus = wadd u32; minus = wsub u32 }

abbrev pub double_arithmetic : Arithmetic
double_arithmetic = record { one = 0x3ff0_0000_0000_0000; plus = wadd u64; minus = wsub u64 }

module _ (p : Platform) where
  module _ (f : ℕ → ℕ) where
    float_loop-Finishes :
        (k : ℕ) (c : ℕ) (fs : List (ℕ → ℕ))
        → length fs < k
        → Finishes (update f) (at c fs) (FloatImpl.update_loop p k f (at c fs))
    unfolding FloatImpl.update_loop access
    float_loop-Finishes zero c fs h = absurd (omega arith)
    float_loop-Finishes (suc k) c [] h =
        rw (compare_and_swap_float_lem p c (f c) c, ==_refl c)
          (finishes (record { early = []; split = refl; effect = refl }))
    float_loop-Finishes (suc k) c (g ∷ []) h =
        rw (compare_and_swap_float_lem p (g c) (f (g c)) (g c), ==_refl (g c))
          (finishes (record { early = g ∷ []; split = refl; effect = refl }))
    float_loop-Finishes (suc k) c (g ∷ e ∷ fs) h =
        rw (compare_and_swap_float_lem p (g c) (f (g c)) (e (g c)))
          (elim (Bool-cases (e (g c) == g c)) [
            | inl hit ↦
                let same : e (g c) ≡ g c = ground arith in
                rw hit (
                  finishes
                    (record { early = g ∷ e ∷ []; split = refl; effect = ap (update f) same }))
            | inr miss ↦
                rw miss (
                  Finishes-after
                    (Finishes-after (float_loop-Finishes k (e (g c)) fs (omega arith))))
          ])

  -- A call of a method of the float class.
  unfoldable pub float_call : ℕ → Method ℕ → Shared → Option (ℕ × Shared)
  float_call fuel Method.load self = some (FloatImpl.load p fuel self)
  float_call fuel Method.inc_one self = FloatImpl.inc_one p fuel self
  float_call fuel Method.dec_one self = FloatImpl.dec_one p fuel self
  float_call fuel Method.pre_increment self = FloatImpl.pre_increment p fuel self
  float_call fuel Method.pre_decrement self = FloatImpl.pre_decrement p fuel self
  float_call fuel (Method.inc v) self = FloatImpl.inc p fuel v self
  float_call fuel (Method.dec v) self = FloatImpl.dec p fuel v self
  float_call fuel (Method.add_assign v) self = FloatImpl.add_assign p fuel v self
  float_call fuel (Method.sub_assign v) self = FloatImpl.sub_assign p fuel v self
  float_call fuel Method.inc_one_ret_last self = FloatImpl.inc_one_ret_last p fuel self
  float_call fuel Method.dec_one_ret_last self = FloatImpl.dec_one_ret_last p fuel self
  float_call fuel Method.post_increment self = FloatImpl.post_increment p fuel self
  float_call fuel Method.post_decrement self = FloatImpl.post_decrement p fuel self
  float_call fuel (Method.inc_ret_last v) self = FloatImpl.inc_ret_last p fuel v self
  float_call fuel (Method.dec_ret_last v) self = FloatImpl.dec_ret_last p fuel v self
  float_call fuel (Method.exchange v) self = FloatImpl.exchange p fuel v self

  -- With more fuel than the other threads have writes in the meantime, every method of
  -- `atomic_impl<akl_atomic_float_t>` ends, and is one atomic access to the bit pattern. It differs
  -- from the comments in two ways. Where a comment increments or decrements a float, the bit patterns
  -- are added or subtracted as integers modulo 2 ^ 32, for 1 the pattern of 1. And `dec_ret_last(val)`,
  -- whose comment says that it returns the new value, returns the old one. Else it is the access that
  -- the comment describes.
  pub float_call-Finishes :
      (fuel : ℕ) (m : Method ℕ) (c : ℕ) (fs : List (ℕ → ℕ))
      → length fs < fuel
      → Finishes (corrected float_arithmetic m) (at c fs) (float_call fuel m (at c fs))
  unfolding float_call FloatImpl.load FloatImpl.inc_one FloatImpl.dec_one FloatImpl.pre_increment
      FloatImpl.pre_decrement FloatImpl.inc FloatImpl.dec FloatImpl.add_assign FloatImpl.sub_assign
      FloatImpl.inc_one_ret_last FloatImpl.dec_one_ret_last FloatImpl.post_increment
      FloatImpl.post_decrement FloatImpl.inc_ret_last FloatImpl.dec_ret_last FloatImpl.exchange
      akl_f32_add_bits akl_f32_sub_bits
  float_call-Finishes fuel Method.load c fs h = access-Finishes (at c fs) (λ _. refl)
  float_call-Finishes fuel Method.inc_one c fs h =
      Finishes-map (λ u. u.1) (float_loop-Finishes (λ c. wadd u32 c FloatImpl.one) fuel c fs h)
  float_call-Finishes fuel Method.dec_one c fs h =
      Finishes-map (λ u. u.1) (float_loop-Finishes (λ c. wsub u32 c FloatImpl.one) fuel c fs h)
  float_call-Finishes fuel Method.pre_increment c fs h =
      Finishes-map (λ u. u.1) (float_loop-Finishes (λ c. wadd u32 c FloatImpl.one) fuel c fs h)
  float_call-Finishes fuel Method.pre_decrement c fs h =
      Finishes-map (λ u. u.1) (float_loop-Finishes (λ c. wsub u32 c FloatImpl.one) fuel c fs h)
  float_call-Finishes fuel (Method.inc v) c fs h =
      Finishes-map (λ u. u.1) (float_loop-Finishes (λ c. wadd u32 c v) fuel c fs h)
  float_call-Finishes fuel (Method.dec v) c fs h =
      Finishes-map (λ u. u.1) (float_loop-Finishes (λ c. wsub u32 c v) fuel c fs h)
  float_call-Finishes fuel (Method.add_assign v) c fs h =
      Finishes-map (λ u. u.1) (float_loop-Finishes (λ c. wadd u32 c v) fuel c fs h)
  float_call-Finishes fuel (Method.sub_assign v) c fs h =
      Finishes-map (λ u. u.1) (float_loop-Finishes (λ c. wsub u32 c v) fuel c fs h)
  float_call-Finishes fuel Method.inc_one_ret_last c fs h =
      Finishes-map (λ u. u.0) (float_loop-Finishes (λ c. wadd u32 c FloatImpl.one) fuel c fs h)
  float_call-Finishes fuel Method.dec_one_ret_last c fs h =
      Finishes-map (λ u. u.0) (float_loop-Finishes (λ c. wsub u32 c FloatImpl.one) fuel c fs h)
  float_call-Finishes fuel Method.post_increment c fs h =
      Finishes-map (λ u. u.0) (float_loop-Finishes (λ c. wadd u32 c FloatImpl.one) fuel c fs h)
  float_call-Finishes fuel Method.post_decrement c fs h =
      Finishes-map (λ u. u.0) (float_loop-Finishes (λ c. wsub u32 c FloatImpl.one) fuel c fs h)
  float_call-Finishes fuel (Method.inc_ret_last v) c fs h =
      Finishes-map (λ u. u.0) (float_loop-Finishes (λ c. wadd u32 c v) fuel c fs h)
  float_call-Finishes fuel (Method.dec_ret_last v) c fs h =
      Finishes-map (λ u. u.0) (float_loop-Finishes (λ c. wsub u32 c v) fuel c fs h)
  float_call-Finishes fuel (Method.exchange v) c fs h = exchange_float-Finishes p fuel v c fs h

module _ (p : Platform) where
  module _ (f : ℕ → ℕ) where
    double_loop-Finishes :
        (k : ℕ) (c : ℕ) (fs : List (ℕ → ℕ))
        → length fs < k
        → Finishes (update f) (at c fs) (DoubleImpl.update_loop p k f (at c fs))
    unfolding DoubleImpl.update_loop access
    double_loop-Finishes zero c fs h = absurd (omega arith)
    double_loop-Finishes (suc k) c [] h =
        rw (compare_and_swap_double_lem p c (f c) c, ==_refl c)
          (finishes (record { early = []; split = refl; effect = refl }))
    double_loop-Finishes (suc k) c (g ∷ []) h =
        rw (compare_and_swap_double_lem p (g c) (f (g c)) (g c), ==_refl (g c))
          (finishes (record { early = g ∷ []; split = refl; effect = refl }))
    double_loop-Finishes (suc k) c (g ∷ e ∷ fs) h =
        rw (compare_and_swap_double_lem p (g c) (f (g c)) (e (g c)))
          (elim (Bool-cases (e (g c) == g c)) [
            | inl hit ↦
                let same : e (g c) ≡ g c = ground arith in
                rw hit (
                  finishes
                    (record { early = g ∷ e ∷ []; split = refl; effect = ap (update f) same }))
            | inr miss ↦ rw miss (
                Finishes-after (Finishes-after (double_loop-Finishes k (e (g c)) fs (omega arith))))
          ])

  -- A call of a method of the double class.
  unfoldable pub double_call : ℕ → Method ℕ → Shared → Option (ℕ × Shared)
  double_call fuel Method.load self = some (DoubleImpl.load p fuel self)
  double_call fuel Method.inc_one self = DoubleImpl.inc_one p fuel self
  double_call fuel Method.dec_one self = DoubleImpl.dec_one p fuel self
  double_call fuel Method.pre_increment self = DoubleImpl.pre_increment p fuel self
  double_call fuel Method.pre_decrement self = DoubleImpl.pre_decrement p fuel self
  double_call fuel (Method.inc v) self = DoubleImpl.inc p fuel v self
  double_call fuel (Method.dec v) self = DoubleImpl.dec p fuel v self
  double_call fuel (Method.add_assign v) self = DoubleImpl.add_assign p fuel v self
  double_call fuel (Method.sub_assign v) self = DoubleImpl.sub_assign p fuel v self
  double_call fuel Method.inc_one_ret_last self = DoubleImpl.inc_one_ret_last p fuel self
  double_call fuel Method.dec_one_ret_last self = DoubleImpl.dec_one_ret_last p fuel self
  double_call fuel Method.post_increment self = DoubleImpl.post_increment p fuel self
  double_call fuel Method.post_decrement self = DoubleImpl.post_decrement p fuel self
  double_call fuel (Method.inc_ret_last v) self = DoubleImpl.inc_ret_last p fuel v self
  double_call fuel (Method.dec_ret_last v) self = DoubleImpl.dec_ret_last p fuel v self
  double_call fuel (Method.exchange v) self = DoubleImpl.exchange p fuel v self

  -- With more fuel than the other threads have writes in the meantime, every method of
  -- `atomic_impl<akl_atomic_double_t>` ends, and is one atomic access to the bit pattern. It differs
  -- from the comments in three ways. Bit patterns are added or subtracted as integers modulo 2 ^ 64,
  -- for 1 the pattern of 1. `inc()`, `inc(val)`, `++` before the object and `+=`, whose comments say
  -- that they increment, subtract. And `dec_ret_last(val)`, whose comment says that it returns the new
  -- value, returns the old one. Else it is the access that the comment describes.
  pub double_call-Finishes :
      (fuel : ℕ) (m : Method ℕ) (c : ℕ) (fs : List (ℕ → ℕ))
      → length fs < fuel
      → Finishes (decrementing double_arithmetic m) (at c fs) (double_call fuel m (at c fs))
  unfolding double_call DoubleImpl.load DoubleImpl.inc_one DoubleImpl.dec_one
      DoubleImpl.pre_increment DoubleImpl.pre_decrement DoubleImpl.inc DoubleImpl.dec
      DoubleImpl.add_assign DoubleImpl.sub_assign DoubleImpl.inc_one_ret_last
      DoubleImpl.dec_one_ret_last DoubleImpl.post_increment DoubleImpl.post_decrement
      DoubleImpl.inc_ret_last DoubleImpl.dec_ret_last DoubleImpl.exchange akl_d64_add_bits
      akl_d64_sub_bits
  double_call-Finishes fuel Method.load c fs h = access-Finishes (at c fs) (λ _. refl)
  double_call-Finishes fuel Method.inc_one c fs h =
      Finishes-map (λ u. u.1) (double_loop-Finishes (λ c. wsub u64 c DoubleImpl.one) fuel c fs h)
  double_call-Finishes fuel Method.dec_one c fs h =
      Finishes-map (λ u. u.1) (double_loop-Finishes (λ c. wsub u64 c DoubleImpl.one) fuel c fs h)
  double_call-Finishes fuel Method.pre_increment c fs h =
      Finishes-map (λ u. u.1) (double_loop-Finishes (λ c. wsub u64 c DoubleImpl.one) fuel c fs h)
  double_call-Finishes fuel Method.pre_decrement c fs h =
      Finishes-map (λ u. u.1) (double_loop-Finishes (λ c. wsub u64 c DoubleImpl.one) fuel c fs h)
  double_call-Finishes fuel (Method.inc v) c fs h =
      Finishes-map (λ u. u.1) (double_loop-Finishes (λ c. wsub u64 c v) fuel c fs h)
  double_call-Finishes fuel (Method.dec v) c fs h =
      Finishes-map (λ u. u.1) (double_loop-Finishes (λ c. wsub u64 c v) fuel c fs h)
  double_call-Finishes fuel (Method.add_assign v) c fs h =
      Finishes-map (λ u. u.1) (double_loop-Finishes (λ c. wsub u64 c v) fuel c fs h)
  double_call-Finishes fuel (Method.sub_assign v) c fs h =
      Finishes-map (λ u. u.1) (double_loop-Finishes (λ c. wsub u64 c v) fuel c fs h)
  double_call-Finishes fuel Method.inc_one_ret_last c fs h =
      Finishes-map (λ u. u.0) (double_loop-Finishes (λ c. wadd u64 c DoubleImpl.one) fuel c fs h)
  double_call-Finishes fuel Method.dec_one_ret_last c fs h =
      Finishes-map (λ u. u.0) (double_loop-Finishes (λ c. wsub u64 c DoubleImpl.one) fuel c fs h)
  double_call-Finishes fuel Method.post_increment c fs h =
      Finishes-map (λ u. u.0) (double_loop-Finishes (λ c. wadd u64 c DoubleImpl.one) fuel c fs h)
  double_call-Finishes fuel Method.post_decrement c fs h =
      Finishes-map (λ u. u.0) (double_loop-Finishes (λ c. wsub u64 c DoubleImpl.one) fuel c fs h)
  double_call-Finishes fuel (Method.inc_ret_last v) c fs h =
      Finishes-map (λ u. u.0) (double_loop-Finishes (λ c. wadd u64 c v) fuel c fs h)
  double_call-Finishes fuel (Method.dec_ret_last v) c fs h =
      Finishes-map (λ u. u.0) (double_loop-Finishes (λ c. wsub u64 c v) fuel c fs h)
  double_call-Finishes fuel (Method.exchange v) c fs h = exchange_double-Finishes p fuel v c fs h
