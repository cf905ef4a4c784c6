-- ===== src/Stack/Pool/Ends.antt =====
-- The back of a list: `rbegin` and `pop_back` of std::list.
use libcopp.Base.{◌≡◌, refl, inl, inr, Option, none, some, List, [], ◌∷◌, ◌++◌, arith, Option-cases}

module _ {ℓ} {A : Type ℓ} where
  -- All but the last entry, and the last.
  pub split_last : List A → Option (List A × A)
  split_last [] = none
  split_last (x ∷ xs) = elim (split_last xs) [
    | none ↦ some ([], x)
    | some (ys, y) ↦ some (x ∷ ys, y)
  ]

  pub split_last-append : (xs : List A) (y : A) → split_last (xs ++ y ∷ []) ≡ some (xs, y)
  unfolding split_last
  split_last-append [] y = refl
  split_last-append (x ∷ xs) y = rw (split_last-append xs y, split_last)

  pub split_last-none : (xs : List A) → split_last xs ≡ none → xs ≡ []
  unfolding split_last
  split_last-none [] h = refl
  split_last-none (x ∷ xs) h = ground arith

  pub split_last-some : (xs ys : List A) (y : A) → split_last xs ≡ some (ys, y) → xs ≡ ys ++ y ∷ []
  unfolding split_last
  split_last-some [] ys y h = cc
  split_last-some (x ∷ xs) ys y h = elim (Option-cases (split_last xs)) [
    | inl e ↦ ground (arith, split_last-none xs e)
    | inr ((zs, z), e) ↦ ground (arith, split_last-some xs zs z e)
  ]
