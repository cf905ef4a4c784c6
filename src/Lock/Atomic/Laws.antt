-- ===== src/Lock/Atomic/Laws.antt =====
-- How the operations on one integer relate.
use libcopp.Base.{
  ℕ, zero, suc, ◌+◌, ◌-◌, ◌%◌, ◌^◌, ◌≤◌, ◌<◌, ◌≡◌, ◌∙◌, ◌≢◌, ◌⊎◌, inl, inr, true, false, arith,
}
use native.Mathlib.Decide.{dec_lt}
use native.Mathlib.Nat.{one-le-pow, pow-suc, mod-eq_of_lt, mod-eq-sub-mod}
use libcopp.Lock.Atomic.{
  cas, fetch_add, fetch_sub, pre_increment, post_increment, pre_decrement, post_decrement,
}

-- A compare-exchange either stores the new value, having seen the expected one, which it leaves in
-- `expected`, or changes nothing and reports the value that it saw, which is not the expected one.
-- So a second try with what it reported succeeds.
pub cas-cas :
    (value expected desired : ℕ)
    → let (done, seen, now) = cas value expected desired in
      ((done ≡ true) × (value ≡ expected) × (seen ≡ expected) × (now ≡ desired))
      ⊎ ((done ≡ false)
          × (value ≢ expected)
          × (now ≡ value)
          × (seen ≡ value)
          × (cas now seen desired ≡ (true, value, desired)))
unfolding cas
cas-cas value expected desired = ground arith

wrap_sum :
    (m x a : ℕ)
    → x < m
    → a < m
    → ((x + a < m) × ((x + a) % m ≡ x + a)) ⊎ ((m ≤ x + a) × ((x + a) % m ≡ x + a - m))
wrap_sum m x a h k = elim (dec_lt (x + a) m) [
  | yes lt ↦ inl (lt, mod-eq_of_lt lt)
  | no ge ↦ inr (omega arith, mod-eq-sub-mod (omega arith) ∙ mod-eq_of_lt (omega arith))
]

wrap_difference :
    (m y a : ℕ)
    → y < m
    → a < m
    → ((a ≤ y) × ((y + m - a) % m ≡ y - a)) ⊎ ((y < a) × ((y + m - a) % m ≡ y + m - a))
wrap_difference m y a h k = elim (dec_lt y a) [
  | yes lt ↦ inr (lt, mod-eq_of_lt (omega arith))
  | no ge ↦
      inl (omega arith, mod-eq-sub-mod (omega arith) ∙ mod-eq_of_lt (omega arith) ∙ omega arith)
]

wrap_back : (m x a : ℕ) → x < m → a < m → ((x + a) % m + m - a) % m ≡ x
wrap_back m x a h k =
    ground (arith, wrap_sum m x a h k, wrap_difference m ((x + a) % m) a (omega arith) k)

-- Adding and then subtracting the same amount gives the value back, wrapped round or not, and
-- each operation returns the value that it found.
pub fetch_add-fetch_sub :
    (w value arg : ℕ)
    → value < 2 ^ w
    → arg < 2 ^ w
    → ((fetch_add w value arg).0 ≡ value)
      × (fetch_sub w (fetch_add w value arg).1 arg ≡ ((fetch_add w value arg).1, value))
unfolding fetch_add fetch_sub
fetch_add-fetch_sub w value arg h k = ground (arith, wrap_back (2 ^ w) value arg h k)

-- The increments and decrements are additions and subtractions of 1 that return the value after
-- (`++x`, `--x`) or before (`x++`, `x--`); a decrement undoes an increment.
pub increment-decrement :
    (w value : ℕ)
    → 0 < w
    → value < 2 ^ w
    → (pre_increment w value ≡ ((fetch_add w value 1).1, (fetch_add w value 1).1))
      × (post_increment w value ≡ fetch_add w value 1)
      × (pre_decrement w (pre_increment w value).0 ≡ (value, value))
      × (post_decrement w (post_increment w value).1 ≡ ((pre_increment w value).0, value))
unfolding fetch_add pre_increment post_increment pre_decrement post_decrement
increment-decrement w value h k =
    let big : 1 < 2 ^ w = pow_big w h in ground (arith, wrap_back (2 ^ w) value 1 k big)
  where
    pow_big : (n : ℕ) → 0 < n → 1 < 2 ^ n
    pow_big zero h = absurd (omega arith)
    pow_big (suc n) h = rw pow-suc (omega (arith, one-le-pow n 2 (omega arith)))
