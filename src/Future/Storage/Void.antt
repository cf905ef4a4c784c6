-- ===== src/Future/Storage/Void.antt =====
-- `poll_storage_base<void, ...>`: a pointer of the storage to itself marks it as ready.
use libcopp.Base.{ℕ, Bool, true, false, Option, none, some, if◌then◌else◌, update}
use libcopp.Future.Storage.{Op, defaults, takes, holds, moves, resets, swaps}

unfoldable pub construct_default_storage : (ℕ → Option ℕ) → ℕ → ℕ → Option ℕ
construct_default_storage m out = update m out none

-- Both overloads only look whether what they get is true.
unfoldable pub construct_storage : (ℕ → Option ℕ) → ℕ → Bool → ℕ → Option ℕ
construct_storage m out is_true = if is_true then update m out (some out) else update m out none

unfoldable pub move_storage : (ℕ → Option ℕ) → ℕ → ℕ → ℕ → Option ℕ
move_storage m out from =
    let m' : ℕ → Option ℕ = elim (m from) [
      | none ↦ update m out none
      | some _ ↦ update m out (some out)
    ] in
    update m' from none

unfoldable pub reset : (ℕ → Option ℕ) → ℕ → ℕ → Option ℕ
reset m i = update m i none

unfoldable pub swap : (ℕ → Option ℕ) → ℕ → ℕ → ℕ → Option ℕ
swap m l r = elim (m l) [
  | none ↦ elim (m r) [ none ↦ m | some _ ↦ update (update m l (some l)) r none ]
  | some _ ↦ elim (m r) [ none ↦ update (update m l none) r (some r) | some _ ↦ m ]
]

abbrev pub is_full {ℓ} : {A : Type ℓ} → Option A → Bool
is_full none = false
is_full (some _) = true

unfoldable pub step : {T : Type 0} → Op T → (ℕ → Option ℕ) → ℕ → Option ℕ
unfolding construct_default_storage construct_storage move_storage reset swap
step (defaults i) m = construct_default_storage m i
step (takes i o) m = construct_storage m i (is_full o)
step (holds i v) m = construct_storage m i true
step (moves out from) m = move_storage m out from
step (resets i) m = reset m i
step (swaps l r) m = swap m l r
