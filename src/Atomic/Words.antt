-- ===== src/Atomic/Words.antt =====
-- The integer classes of akl/atomic.hpp: each method is one atomic access, in both builds and whatever
-- the other threads do.
use akl.Base.{ℕ, ◌<◌, ◌≡◌, refl, arith}
use akl.Machine.Words.{wadd, wsub, u32}
use akl.Machine.External.{Platform}
use akl.Machine.Shared.{Shared, HoldsWord, Linearizes, access-Linearizes_word}
use akl.Sync.Laws.{
  add_and_fetch_lem, sub_and_fetch_lem, fetch_and_add_lem, fetch_and_sub_lem, lock_test_and_set_lem,
}
use akl.Atomic.Method.{Method, Arithmetic, corrected, OnArgument}
use akl.Atomic.IntImpl
use akl.Atomic.Generic
use akl.Atomic.Generic.{Representation}

-- Arithmetic that wraps at 32 bits.
abbrev pub int_arithmetic : Arithmetic
int_arithmetic = record { one = 1; plus = wadd u32; minus = wsub u32 }

module _ (p : Platform) where
  -- A call of a method of `atomic_impl<int>`.
  unfoldable pub call : Method ℕ → Shared → ℕ × Shared
  call Method.load self = IntImpl.load p self
  call Method.inc_one self = IntImpl.inc_one p self
  call Method.dec_one self = IntImpl.dec_one p self
  call Method.pre_increment self = IntImpl.pre_increment p self
  call Method.pre_decrement self = IntImpl.pre_decrement p self
  call (Method.inc v) self = IntImpl.inc p v self
  call (Method.dec v) self = IntImpl.dec p v self
  call (Method.add_assign v) self = IntImpl.add_assign p v self
  call (Method.sub_assign v) self = IntImpl.sub_assign p v self
  call Method.inc_one_ret_last self = IntImpl.inc_one_ret_last p self
  call Method.dec_one_ret_last self = IntImpl.dec_one_ret_last p self
  call Method.post_increment self = IntImpl.post_increment p self
  call Method.post_decrement self = IntImpl.post_decrement p self
  call (Method.inc_ret_last v) self = IntImpl.inc_ret_last p v self
  call (Method.dec_ret_last v) self = IntImpl.dec_ret_last p v self
  call (Method.exchange v) self = IntImpl.exchange p v self

  -- In both builds, every method of `atomic_impl<int>` is one atomic access, whatever other threads
  -- that keep the cell a 32-bit word do around it. It is the access that the comment above the method
  -- describes, with the arithmetic modulo 2 ^ 32, but for `dec_ret_last(val)`: its comment says that
  -- it returns the new value, and it returns the old one.
  pub call-Linearizes :
      (m : Method ℕ) (s : Shared)
      → OnArgument (λ v. v < u32) m
      → HoldsWord u32 s
      → Linearizes (corrected int_arithmetic m) s (call m s).0 (call m s).1
  unfolding call IntImpl.load IntImpl.inc_one IntImpl.dec_one IntImpl.pre_increment
      IntImpl.pre_decrement IntImpl.inc IntImpl.dec IntImpl.add_assign IntImpl.sub_assign
      IntImpl.inc_one_ret_last IntImpl.dec_one_ret_last IntImpl.post_increment
      IntImpl.post_decrement IntImpl.inc_ret_last IntImpl.dec_ret_last IntImpl.exchange
  call-Linearizes Method.load s h w = access-Linearizes_word s w (λ c hc. refl)
  call-Linearizes Method.inc_one s h w =
      access-Linearizes_word s w (λ c hc. add_and_fetch_lem p 1 c (omega arith) hc)
  call-Linearizes Method.dec_one s h w =
      access-Linearizes_word s w (λ c hc. sub_and_fetch_lem p 1 c (omega arith) hc)
  call-Linearizes Method.pre_increment s h w =
      access-Linearizes_word s w (λ c hc. add_and_fetch_lem p 1 c (omega arith) hc)
  call-Linearizes Method.pre_decrement s h w =
      access-Linearizes_word s w (λ c hc. sub_and_fetch_lem p 1 c (omega arith) hc)
  call-Linearizes (Method.inc v) s h w =
      access-Linearizes_word s w (λ c hc. add_and_fetch_lem p v c h hc)
  call-Linearizes (Method.dec v) s h w =
      access-Linearizes_word s w (λ c hc. sub_and_fetch_lem p v c h hc)
  call-Linearizes (Method.add_assign v) s h w =
      access-Linearizes_word s w (λ c hc. add_and_fetch_lem p v c h hc)
  call-Linearizes (Method.sub_assign v) s h w =
      access-Linearizes_word s w (λ c hc. sub_and_fetch_lem p v c h hc)
  call-Linearizes Method.inc_one_ret_last s h w =
      access-Linearizes_word s w (λ c hc. fetch_and_add_lem p 1 c (omega arith) hc)
  call-Linearizes Method.dec_one_ret_last s h w =
      access-Linearizes_word s w (λ c hc. fetch_and_sub_lem p 1 c (omega arith) hc)
  call-Linearizes Method.post_increment s h w =
      access-Linearizes_word s w (λ c hc. fetch_and_add_lem p 1 c (omega arith) hc)
  call-Linearizes Method.post_decrement s h w =
      access-Linearizes_word s w (λ c hc. fetch_and_sub_lem p 1 c (omega arith) hc)
  call-Linearizes (Method.inc_ret_last v) s h w =
      access-Linearizes_word s w (λ c hc. fetch_and_add_lem p v c h hc)
  call-Linearizes (Method.dec_ret_last v) s h w =
      access-Linearizes_word s w (λ c hc. fetch_and_sub_lem p v c h hc)
  call-Linearizes (Method.exchange v) s h w =
      access-Linearizes_word s w (λ c hc. lock_test_and_set_lem p v c)

module _ {T : Type 0} (p : Platform) (repr : Representation T) where
  -- A call of a method of `atomic_impl<T>`.
  unfoldable pub call_as : Method T → Shared → T × Shared
  call_as Method.load self = Generic.load p repr self
  call_as Method.inc_one self = Generic.inc_one p repr self
  call_as Method.dec_one self = Generic.dec_one p repr self
  call_as Method.pre_increment self = Generic.pre_increment p repr self
  call_as Method.pre_decrement self = Generic.pre_decrement p repr self
  call_as (Method.inc v) self = Generic.inc p repr v self
  call_as (Method.dec v) self = Generic.dec p repr v self
  call_as (Method.add_assign v) self = Generic.add_assign p repr v self
  call_as (Method.sub_assign v) self = Generic.sub_assign p repr v self
  call_as Method.inc_one_ret_last self = Generic.inc_one_ret_last p repr self
  call_as Method.dec_one_ret_last self = Generic.dec_one_ret_last p repr self
  call_as Method.post_increment self = Generic.post_increment p repr self
  call_as Method.post_decrement self = Generic.post_decrement p repr self
  call_as (Method.inc_ret_last v) self = Generic.inc_ret_last p repr v self
  call_as (Method.dec_ret_last v) self = Generic.dec_ret_last p repr v self
  call_as (Method.exchange v) self = Generic.exchange p repr v self

  abbrev pub to_int : Method T → Method ℕ
  to_int Method.load = Method.load
  to_int Method.inc_one = Method.inc_one
  to_int Method.dec_one = Method.dec_one
  to_int Method.pre_increment = Method.pre_increment
  to_int Method.pre_decrement = Method.pre_decrement
  to_int (Method.inc v) = Method.inc (repr.bits v)
  to_int (Method.dec v) = Method.dec (repr.bits v)
  to_int (Method.add_assign v) = Method.add_assign (repr.bits v)
  to_int (Method.sub_assign v) = Method.sub_assign (repr.bits v)
  to_int Method.inc_one_ret_last = Method.inc_one_ret_last
  to_int Method.dec_one_ret_last = Method.dec_one_ret_last
  to_int Method.post_increment = Method.post_increment
  to_int Method.post_decrement = Method.post_decrement
  to_int (Method.inc_ret_last v) = Method.inc_ret_last (repr.bits v)
  to_int (Method.dec_ret_last v) = Method.dec_ret_last (repr.bits v)
  to_int (Method.exchange v) = Method.exchange (repr.bits v)

  -- Every method of the class template does what the method of `atomic_impl<int>` does on the bits
  -- of the argument, and returns the value that the resulting bits stand for.
  pub call_as-call :
      (m : Method T) (s : Shared)
      → call_as m s ≡ (repr.of_bits (call p (to_int m) s).0, (call p (to_int m) s).1)
  unfolding call call_as IntImpl.load IntImpl.inc_one IntImpl.dec_one IntImpl.pre_increment
      IntImpl.pre_decrement IntImpl.inc IntImpl.dec IntImpl.add_assign IntImpl.sub_assign
      IntImpl.inc_one_ret_last IntImpl.dec_one_ret_last IntImpl.post_increment
      IntImpl.post_decrement IntImpl.inc_ret_last IntImpl.dec_ret_last IntImpl.exchange Generic.load
      Generic.inc_one Generic.dec_one Generic.pre_increment Generic.pre_decrement Generic.inc
      Generic.dec Generic.add_assign Generic.sub_assign Generic.inc_one_ret_last
      Generic.dec_one_ret_last Generic.post_increment Generic.post_decrement Generic.inc_ret_last
      Generic.dec_ret_last Generic.exchange
  call_as-call Method.load s = refl
  call_as-call Method.inc_one s = refl
  call_as-call Method.dec_one s = refl
  call_as-call Method.pre_increment s = refl
  call_as-call Method.pre_decrement s = refl
  call_as-call (Method.inc v) s = refl
  call_as-call (Method.dec v) s = refl
  call_as-call (Method.add_assign v) s = refl
  call_as-call (Method.sub_assign v) s = refl
  call_as-call Method.inc_one_ret_last s = refl
  call_as-call Method.dec_one_ret_last s = refl
  call_as-call Method.post_increment s = refl
  call_as-call Method.post_decrement s = refl
  call_as-call (Method.inc_ret_last v) s = refl
  call_as-call (Method.dec_ret_last v) s = refl
  call_as-call (Method.exchange v) s = refl
