-- ===== src/Stack/Traits/Rounding.antt =====
-- Rounding a stack's size up to whole pages, and the bounds of the default size.
use libcopp.Base.{ℕ, ◌+◌, ◌-◌, ◌*◌, ◌/◌, ◌%◌, ◌≤◌, ◌<◌, ◌≡◌, ◌⊎◌, arith, size_mod}
use native.Mathlib.Nat.{
  one-le-pow, mod-add-div', div-lt_iff_lt-mul, mul-le-mul_right, div-mul-le_self, lt-div-mul-add,
  mul-mod_left, div-eq_of_lt-le, mod-eq_of_lt,
}
use libcopp.Stack.Traits.{Os, page, minimum_size, maximum_size, default_size, round_to_page_size}

pub page-pos : (os : Os) → 0 < page os
page-pos os = one-le-pow os.page_bits 2 (omega arith)

-- The masked quotient, for any unit p > 0.
whole-le : (p y : ℕ) → 0 < p → (y / p * p ≤ y) × (y < y / p * p + p) × (y / p * p % p ≡ 0)
whole-le p y h = (div-mul-le_self y p, lt-div-mul-add h, mul-mod_left (y / p) p)

whole_small : (p y : ℕ) → y < p → y / p * p ≡ 0
whole_small p y h = grind arith

whole_again : (p k : ℕ) → 0 < p → (k * p + p - 1) / p ≡ k
whole_again p k h = div-eq_of_lt-le p (omega arith) (omega arith)

-- A size with room for one more page below the modulus is rounded up to the next whole page; any
-- other size below the modulus wraps round to 0.
pub round_to_page_size_bounds :
    (os : Os) (x : ℕ)
    → x < size_mod
    → ((x + page os ≤ size_mod)
        × (x ≤ round_to_page_size os x)
        × (round_to_page_size os x < x + page os)
        × (round_to_page_size os x % page os ≡ 0))
      ⊎ ((size_mod < x + page os) × (round_to_page_size os x ≡ 0))
unfolding round_to_page_size
round_to_page_size_bounds os x h = ground (
  arith,
  whole-le (page os) ((x + page os - 1) % size_mod),
  page-pos os,
  whole_small (page os) ((x + page os - 1) % size_mod),
)

-- Rounding is idempotent where it does not wrap.
pub round_to_page_size_idem :
    (os : Os) (x : ℕ)
    → x + page os + page os ≤ size_mod
    → round_to_page_size os (round_to_page_size os x) ≡ round_to_page_size os x
unfolding round_to_page_size
round_to_page_size_idem os x h =
    let y = x + page os - 1 in
    let k = y % size_mod / page os in
    let fits : k * page os + page os - 1 < size_mod =
      omega (arith, whole-le (page os) (y % size_mod), page-pos os) in
    rw (mod-eq_of_lt fits, whole_again (page os) k (page-pos os))

-- With a sane system (the signal stack's size below 2 ^ 61 and within the hard limit) the default
-- size is eight signal stacks, cut to the hard limit, and never below the minimum.
pub default_size_bounds :
    (os : Os)
    → 8 * minimum_size os < size_mod
    → minimum_size os ≤ maximum_size os
    → (minimum_size os ≤ default_size os)
      × (default_size os ≤ maximum_size os)
      × (default_size os ≤ 8 * minimum_size os)
      × ((default_size os ≡ 8 * minimum_size os) ⊎ (default_size os ≡ maximum_size os))
unfolding default_size
default_size_bounds os h k = ground arith

whole_mono : (p x y : ℕ) → 0 < p → x ≤ y → y % p ≡ 0 → (x + p - 1) / p * p ≤ y
whole_mono p x y h k w =
    let q = y / p in
    let again : y ≡ q * p = omega (arith, mod-add-div' y p) in
    let bound : x + p - 1 < (q + 1) * p = omega arith in
    let le : (x + p - 1) / p ≤ q = omega (arith, (div-lt_iff_lt-mul h).1 bound) in
    grind (arith, mul-le-mul_right)

-- A size below a whole number of pages is not rounded past it.
pub round_to_page_size_whole :
    (os : Os) (x y : ℕ)
    → x ≤ y
    → y % page os ≡ 0
    → y + page os ≤ size_mod
    → round_to_page_size os x ≤ y
unfolding round_to_page_size
round_to_page_size_whole os x y h w r =
    let fits : x + page os - 1 < size_mod = omega (arith, page-pos os) in
    rw (mod-eq_of_lt fits) (whole_mono (page os) x y (page-pos os) h w)
