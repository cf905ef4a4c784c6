-- ===== src/Future/Storage/Heap.antt =====
-- `poll_storage_base` of any other value: a `unique_ptr` to an object of its own, which is null or has
-- this value.
use libcopp.Base.{ℕ, Option, none, some, ◌==◌, if◌then◌else◌, update}
use libcopp.Future.Storage.{Op, defaults, takes, holds, moves, resets, swaps}

module _ {T : Type 0} where
  unfoldable pub construct_storage : (ℕ → Option T) → ℕ → Option T → ℕ → Option T
  construct_storage m out o = update m out o

  -- A `unique_ptr` that is moved to itself stays as it is.
  unfoldable pub move_storage : (ℕ → Option T) → ℕ → ℕ → ℕ → Option T
  move_storage m out from = if out == from then m else update (update m out (m from)) from none

  unfoldable pub swap : (ℕ → Option T) → ℕ → ℕ → ℕ → Option T
  swap m l r = let lv = m l in update (update m l (m r)) r lv

  unfoldable pub step : Op T → (ℕ → Option T) → ℕ → Option T
  unfolding construct_storage move_storage swap
  step (defaults i) m = construct_storage m i none
  step (takes i o) m = construct_storage m i o
  step (holds i v) m = construct_storage m i (some v)
  step (moves out from) m = move_storage m out from
  step (resets i) m = construct_storage m i none
  step (swaps l r) m = swap m l r
