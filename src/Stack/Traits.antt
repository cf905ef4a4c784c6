-- ===== src/Stack/Traits.antt =====
-- src/libcopp/stack/stack_traits/stack_traits_posix.cpp. What `sysconf`, `getrlimit` and the
-- system's headers give is the record `Os`; a page holds 2 ^ page_bits bytes, as the source asks.
pub mod Rounding
mod Tests
use libcopp.Base.{
  ℕ, ◌+◌, ◌-◌, ◌*◌, ◌/◌, ◌%◌, ◌^◌, Bool, true, false, Option, none, some, ltb, ◌==◌, if◌then◌else◌,
  size_mod,
}

pub record Os : Type 0 where
  pub page_bits : ℕ
  pub minsigstksz : ℕ
  pub rlim_max : Option ℕ  -- `none` for RLIM_INFINITY

abbrev pub page : Os → ℕ
page os = 2 ^ os.page_bits

pub is_unbounded : Os → Bool
is_unbounded os = elim os.rlim_max [ none ↦ true | some m ↦ false ]

unfoldable pub minimum_size : Os → ℕ
minimum_size os = os.minsigstksz

unfoldable pub maximum_size : Os → ℕ
maximum_size os = elim os.rlim_max [ none ↦ size_mod - 1 | some m ↦ m ]

abbrev pub std_min : ℕ → ℕ → ℕ
std_min a b = if ltb b a then b else a

abbrev pub std_max : ℕ → ℕ → ℕ
std_max a b = if ltb a b then b else a

unfoldable pub default_size : Os → ℕ
unfolding is_unbounded minimum_size maximum_size
default_size os =
    let size = 8 * minimum_size os % size_mod in
    if is_unbounded os
    then size
    else if maximum_size os == size
    then size
    else std_min size (maximum_size os)

-- `(stacksize + p - 1) & ~(p - 1)` for a page of p bytes, a power of two.
unfoldable pub round_to_page_size : Os → ℕ → ℕ
round_to_page_size os stacksize = (stacksize + page os - 1) % size_mod / page os * page os
