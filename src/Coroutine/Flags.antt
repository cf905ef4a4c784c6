-- ===== src/Coroutine/Flags.antt =====
-- The flags of a context, an `int` as its 32 bits, by their number. Bits 0 to 7 (`EN_CFT_MASK`) are
-- the library's own.
pub mod Reserved
use libcopp.Base.{ℕ, zero, suc, Bool, true, false, not, ◌&&◌, ◌||◌, ◌==◌, if◌then◌else◌}

abbrev pub Bits : Type 0
Bits = ℕ → Bool

pub any_below : ℕ → Bits → Bool
any_below zero b = false
any_below (suc n) b = b n || any_below n b

-- `EN_CFT_FINISHED` and `EN_CFT_IS_FIBER`, as bit numbers.
abbrev pub finished_bit : ℕ
finished_bit = 0

abbrev pub is_fiber_bit : ℕ
is_fiber_bit = 1

-- The width of `EN_CFT_MASK`, and of an `int`.
abbrev pub mask_width : ℕ
mask_width = 8

abbrev pub int_width : ℕ
int_width = 32

abbrev pub only : ℕ → Bits
only n j = j == n

pub set_flags : Bits → Bits → Bool × Bits
set_flags self flags =
    if any_below mask_width flags then (false, self) else (true, λ j. self j || flags j)

pub unset_flags : Bits → Bits → Bool × Bits
unset_flags self flags =
    if any_below mask_width flags then (false, self) else (true, λ j. self j && not (flags j))

pub check_flags : Bits → Bits → Bool
check_flags self flags = any_below int_width (λ j. self j && flags j)
