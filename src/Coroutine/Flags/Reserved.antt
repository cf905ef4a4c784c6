-- ===== src/Coroutine/Flags/Reserved.antt =====
-- The library's own bits are out of a user's reach.
use libcopp.Base.{
  ℕ, zero, suc, ◌<◌, ◌≡◌, refl, sym, ◌∙◌, ◌⊎◌, inl, inr, true, false, not, ◌&&◌, ◌||◌, arith,
  Bool-cases,
}
use libcopp.Coroutine.Flags.{
  Bits, any_below, mask_width, int_width, only, set_flags, unset_flags, check_flags,
}

any_below-false : (n : ℕ) (b : Bits) (j : ℕ) → any_below n b ≡ false → j < n → b j ≡ false
unfolding any_below
any_below-false zero b j h lt = absurd (omega arith)
any_below-false (suc n) b j h lt = ground (arith, any_below-false n b j)

any_below-true : (n : ℕ) (b : Bits) (j : ℕ) → b j ≡ true → j < n → any_below n b ≡ true
unfolding any_below
any_below-true zero b j h lt = absurd (omega arith)
any_below-true (suc n) b j h lt = ground (arith, any_below-true n b j)

any_below-none : (n : ℕ) (b : Bits) → ((j : ℕ) → b j ≡ false) → any_below n b ≡ false
unfolding any_below
any_below-none zero b h = refl
any_below-none (suc n) b h = ground (arith, h n, any_below-none n b h)

-- A check for one bit, below the width of an `int`, reads that bit.
pub check_flags-only : (self : Bits) (n : ℕ) → n < int_width → check_flags self (only n) ≡ self n
unfolding check_flags
check_flags-only self n h = elim (Bool-cases (self n)) [
  | inl e ↦ any_below-true int_width (λ j. self j && only n j) n (ground arith) h ∙ sym e
  | inr e ↦ any_below-none int_width (λ j. self j && only n j) (λ j. ground arith) ∙ sym e
]

-- Whatever flags a user sets or unsets, the bits under the mask stay as they were. Flags outside the
-- mask are all set, or all unset, and no others; flags that touch the mask are refused as a whole.
pub set_flags-unset_flags :
    (self flags : Bits) (j : ℕ)
    → (j < mask_width → (set_flags self flags).1 j ≡ self j)
      × (j < mask_width → (unset_flags self flags).1 j ≡ self j)
      × (((set_flags self flags).0 ≡ false)
            × ((unset_flags self flags).0 ≡ false)
            × ((set_flags self flags).1 j ≡ self j)
            × ((unset_flags self flags).1 j ≡ self j)
          ⊎ ((set_flags self flags).0 ≡ true)
            × ((unset_flags self flags).0 ≡ true)
            × ((set_flags self flags).1 j ≡ (self j || flags j))
            × ((unset_flags self flags).1 j ≡ (self j && not (flags j))))
unfolding set_flags unset_flags
set_flags-unset_flags self flags j = elim (Bool-cases (any_below mask_width flags)) [
  | inl e ↦ rw (e, set_flags, unset_flags) ((λ h. refl), (λ h. refl), inl (refl, refl, refl, refl))
  | inr e ↦
      rw (e, set_flags, unset_flags)
        (
          (λ h. ground (arith, any_below-false mask_width flags j e h)),
          (λ h. ground (arith, any_below-false mask_width flags j e h)),
          inr (refl, refl, refl, refl),
        )
]
