-- ===== src/Atomic/Method.antt =====
-- The methods of the atomic classes as data, what the comment above each of them says that it does,
-- as one atomic access, and what differs in the code.
use akl.Base.{ℕ}
use akl.Machine.External.{Access}
use akl.Machine.Shared.{read}

-- The calls of a method, with the argument.
pub data Method (T : Type 0) : Type 0 where
  load inc_one dec_one pre_increment pre_decrement : Method T
  inc dec add_assign sub_assign : T → Method T
  inc_one_ret_last dec_one_ret_last post_increment post_decrement : Method T
  inc_ret_last dec_ret_last exchange : T → Method T

-- What the comments mean by 1, by an increment and by a decrement.
pub record Arithmetic : Type 0 where
  pub one : ℕ
  pub plus : ℕ → ℕ → ℕ
  pub minus : ℕ → ℕ → ℕ

abbrev updated : (ℕ → ℕ → ℕ) → ℕ → Access ℕ
updated f v c = (f c v, f c v)

abbrev previous : (ℕ → ℕ → ℕ) → ℕ → Access ℕ
previous f v c = (c, f c v)

-- The comment above each method: what it does to the value, and whether it returns the new or the
-- old one.
abbrev pub documented : Arithmetic → Method ℕ → Access ℕ
documented a load = read
documented a inc_one = updated a.plus a.one
documented a dec_one = updated a.minus a.one
documented a pre_increment = updated a.plus a.one
documented a pre_decrement = updated a.minus a.one
documented a (inc v) = updated a.plus v
documented a (dec v) = updated a.minus v
documented a (add_assign v) = updated a.plus v
documented a (sub_assign v) = updated a.minus v
documented a inc_one_ret_last = previous a.plus a.one
documented a dec_one_ret_last = previous a.minus a.one
documented a post_increment = previous a.plus a.one
documented a post_decrement = previous a.minus a.one
documented a (inc_ret_last v) = previous a.plus v
documented a (dec_ret_last v) = updated a.minus v  -- "returning the new value"
documented a (exchange v) = λ c. (c, v)

-- The comments with one change: `dec_ret_last(val)` returns the old value.
abbrev pub corrected : Arithmetic → Method ℕ → Access ℕ
corrected a (dec_ret_last v) = previous a.minus v
corrected a m = documented a m

-- With one more: the updates that increment and return the new value decrement.
abbrev pub decrementing : Arithmetic → Method ℕ → Access ℕ
decrementing a inc_one = updated a.minus a.one
decrementing a pre_increment = updated a.minus a.one
decrementing a (inc v) = updated a.minus v
decrementing a (add_assign v) = updated a.minus v
decrementing a m = corrected a m

-- A predicate on the argument, if there is one.
abbrev pub OnArgument : {T : Type 0} → (T → Type 0) → Method T → Type 0
OnArgument P (inc v) = P v
OnArgument P (dec v) = P v
OnArgument P (add_assign v) = P v
OnArgument P (sub_assign v) = P v
OnArgument P (inc_ret_last v) = P v
OnArgument P (dec_ret_last v) = P v
OnArgument P (exchange v) = P v
OnArgument P _ = Unit
