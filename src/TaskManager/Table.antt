-- ===== src/TaskManager/Table.antt =====
-- The table of tasks, `std::unordered_map`, as an association list.
use libcopp.Base.{ℕ, ◌≡◌, Option, none, some, List, [], ◌∷◌, arith, ◌==◌, if◌then◌else◌}

module _ {ℓ} {A : Type ℓ} where
  unfoldable pub find : ℕ → List (ℕ × A) → Option A
  find i [] = none
  find i (e ∷ l) = let rest = find i l in if e.0 == i then some e.1 else rest

  -- The entry of a key that is there changes in place; a new key is inserted.
  unfoldable pub put : ℕ → A → List (ℕ × A) → List (ℕ × A)
  put i a [] = (i, a) ∷ []
  put i a (e ∷ l) = let rest = put i a l in if e.0 == i then (i, a) ∷ l else e ∷ rest

  unfoldable pub erase_key : ℕ → List (ℕ × A) → List (ℕ × A)
  erase_key i [] = []
  erase_key i (e ∷ l) = let rest = erase_key i l in if e.0 == i then rest else e ∷ rest

  pub find-put :
      (i j : ℕ) (a : A) (l : List (ℕ × A))
      → find j (put i a l) ≡ (if i == j then some a else find j l)
  unfolding find put
  find-put i j a [] = ground arith
  find-put i j a (e ∷ l) = ground (arith, find-put i j a l)

  pub find-erase_key :
      (i j : ℕ) (l : List (ℕ × A)) → find j (erase_key i l) ≡ (if i == j then none else find j l)
  unfolding find erase_key
  find-erase_key i j [] = ground arith
  find-erase_key i j (e ∷ l) = ground (arith, find-erase_key i j l)
