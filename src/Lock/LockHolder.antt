-- ===== src/Lock/LockHolder.antt =====
-- include/libcopp/utils/lock_holder.h: `lock_holder`, over a lock type whose lock and unlock
-- actions are the template's parameters. `locks` is the state of all locks, by their address; a
-- holder is its `lock_flag_`, the address of a lock or null.
pub mod Guards
mod Tests
use libcopp.Base.{ℕ, Bool, true, false, not, Option, none, some, ◌==◌, if◌then◌else◌, update}

pub record LockActions (L : Type 0) : Type 0 where
  pub lock : L → L × Bool
  pub unlock : L → L

abbrev pub Holder : Type 0
Holder = Option ℕ

module _ {L : Type 0} (acts : LockActions L) where
  -- The constructor from a lock: the holder is empty if the action fails.
  pub construct : (ℕ → L) → ℕ → (ℕ → L) × Holder
  construct locks at =
      let (l, done) = acts.lock (locks at) in (update locks at l, if done then some at else none)

  pub destruct : (ℕ → L) → Holder → (ℕ → L)
  destruct locks none = locks
  destruct locks (some at) = update locks at (acts.unlock (locks at))

  pub reset : (ℕ → L) → Holder → (ℕ → L) × Holder
  reset locks none = (locks, none)
  reset locks (some at) = (update locks at (acts.unlock (locks at)), none)

  -- The move constructor: the new holder, and what is left of the other.
  pub move_construct : Holder → Holder × Holder
  move_construct other = (other, none)

  pub same : Holder → Holder → Bool
  same none none = true
  same none (some b) = false
  same (some a) none = false
  same (some a) (some b) = a == b

  -- `*this = std::move(other)` for another object `other`: the locks, the holder, and the other.
  pub move_assign : (ℕ → L) → Holder → Holder → (ℕ → L) × Holder × Holder
  unfolding reset same
  move_assign locks self other =
      if not (same self other) then ((reset locks self).0, other, other) else (locks, other, other)

  pub is_available : Holder → Bool
  is_available none = false
  is_available (some at) = true
