-- ===== src/Lock/Atomic.antt =====
-- include/libcopp/utils/atomic_int_type.h, `atomic_int_type<unsafe_int_type<Ty>>` for an unsigned
-- type of `w` bits. Each operation returns its result and the new value; a memory order that is
-- passed is not used. The variants over std::atomic and compiler builtins promise the same results.
pub mod Laws
mod Tests
use libcopp.Base.{ℕ, ◌+◌, ◌-◌, ◌%◌, ◌^◌, Bool, true, false, ◌==◌, if◌then◌else◌}
use Prim.Native.Nat.{bit_and, bit_or, bit_xor}

unfoldable pub store : ℕ → ℕ → ℕ
store value desired = desired

unfoldable pub load : ℕ → ℕ
load value = value

unfoldable pub exchange : ℕ → ℕ → ℕ × ℕ
exchange value desired = (value, desired)

-- `cas(expected, desired)`: whether it stored, what `expected` is then, and the new value. Both
-- the weak and the strong compare-exchange are this.
pub cas : ℕ → ℕ → ℕ → Bool × ℕ × ℕ
cas value expected desired =
    if value == expected then (true, expected, desired) else (false, value, value)

module _ (w : ℕ) where
  abbrev pub wrap : ℕ → ℕ
  wrap x = x % 2 ^ w

  pub fetch_add : ℕ → ℕ → ℕ × ℕ
  fetch_add value arg = (value, wrap (value + arg))

  pub fetch_sub : ℕ → ℕ → ℕ × ℕ
  fetch_sub value arg = (value, wrap (value + 2 ^ w - arg))

  -- `++x` and `--x` return the new value, `x++` and `x--` the old one.
  pub pre_increment : ℕ → ℕ × ℕ
  pre_increment value = (wrap (value + 1), wrap (value + 1))

  pub post_increment : ℕ → ℕ × ℕ
  post_increment value = (value, wrap (value + 1))

  pub pre_decrement : ℕ → ℕ × ℕ
  pre_decrement value = (wrap (value + 2 ^ w - 1), wrap (value + 2 ^ w - 1))

  pub post_decrement : ℕ → ℕ × ℕ
  post_decrement value = (value, wrap (value + 2 ^ w - 1))

pub fetch_and : ℕ → ℕ → ℕ × ℕ
fetch_and value arg = (value, bit_and value arg)

pub fetch_or : ℕ → ℕ → ℕ × ℕ
fetch_or value arg = (value, bit_or value arg)

pub fetch_xor : ℕ → ℕ → ℕ × ℕ
fetch_xor value arg = (value, bit_xor value arg)
