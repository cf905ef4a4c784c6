-- ===== src/Future/Storage/Small.antt =====
-- `poll_storage_base` of a small value that is trivially copyable: the value stands in the storage,
-- with a pointer to it when it is ready.
use libcopp.Base.{ℕ, Option, none, some, update}
use libcopp.Future.Storage.{Op, defaults, takes, holds, moves, resets, swaps}

pub record Pair (T : Type 0) : Type 0 where
  pub value : T
  pub pointer : Option ℕ

-- `zeros` is a value whose bytes are 0.
module _ {T : Type 0} (zeros : T) where
  unfoldable pub construct_default_storage : (ℕ → Pair T) → ℕ → ℕ → Pair T
  construct_default_storage m out = update m out (record { value = zeros; pointer = none })

  unfoldable pub construct_value : (ℕ → Pair T) → ℕ → T → ℕ → Pair T
  construct_value m out v = update m out (record { value = v; pointer = some out })

  unfoldable pub construct_storage : (ℕ → Pair T) → ℕ → Option T → ℕ → Pair T
  unfolding construct_default_storage construct_value
  construct_storage m out none = construct_default_storage m out
  construct_storage m out (some v) = construct_value m out v

  unfoldable pub reset : (ℕ → Pair T) → ℕ → ℕ → Pair T
  reset m i = update m i (record (m i) { pointer = none })

  unfoldable pub move_storage : (ℕ → Pair T) → ℕ → ℕ → ℕ → Pair T
  unfolding construct_default_storage construct_value reset
  move_storage m out from = elim (m from).pointer [
    | none ↦ construct_default_storage m out
    | some _ ↦ reset (construct_value m out (m from).value) from
  ]

  unfoldable pub swap_values : (ℕ → Pair T) → ℕ → ℕ → ℕ → Pair T
  swap_values m l r =
      let lv = (m l).value in
      let m' = update m l (record (m l) { value = (m r).value }) in
      update m' r (record (m' r) { value = lv })

  unfoldable pub point : (ℕ → Pair T) → ℕ → ℕ → Pair T
  point m i = update m i (record (m i) { pointer = some i })

  unfoldable pub swap : (ℕ → Pair T) → ℕ → ℕ → ℕ → Pair T
  swap m l r =
      let m' = swap_values m l r in
      elim (m' l).pointer [
        | none ↦ elim (m' r).pointer [ none ↦ m' | some _ ↦ reset (point m' l) r ]
        | some _ ↦ elim (m' r).pointer [ none ↦ point (reset m' l) r | some _ ↦ m' ]
      ]

  unfoldable pub step : Op T → (ℕ → Pair T) → ℕ → Pair T
  unfolding construct_default_storage construct_storage construct_value move_storage reset swap
  step (defaults i) m = construct_default_storage m i
  step (takes i o) m = construct_storage m i o
  step (holds i v) m = construct_value m i v
  step (moves out from) m = move_storage m out from
  step (resets i) m = reset m i
  step (swaps l r) m = swap m l r
