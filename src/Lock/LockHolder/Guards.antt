-- ===== src/Lock/LockHolder/Guards.antt =====
-- A holder undoes its lock once; a holder that was assigned from another does not.
use libcopp.Base.{ℕ, ◌≡◌, ◌↔◌, ◌⊎◌, inl, inr, true, none, some, arith}
use libcopp.Lock.SpinLock.{try_lock, unlock}
use libcopp.Lock.LockHolder.{
  LockActions, Holder, construct, destruct, reset, move_assign, is_available,
}

-- The spin lock under `default_try_lock_action` and `default_unlock_action`.
abbrev pub try_spin : LockActions ℕ
try_spin = record { lock = λ s. let (won, s') = try_lock s in (s', won); unlock = unlock }

-- A guard over a spin lock: it is available exactly if the lock was free, and then its end leaves
-- every lock as it was; else it and its end change no lock that was taken.
pub construct-destruct :
    (locks : ℕ → ℕ) (at : ℕ)
    → (locks at ≡ 0) ⊎ (locks at ≡ 1)
    → let (locks', h) = construct try_spin locks at in
      ((is_available try_spin h ≡ true) ↔ (locks at ≡ 0))
      × (locks' at ≡ 1)
      × ((j : ℕ) → destruct try_spin locks' h j ≡ locks j)
      × ((reset try_spin locks' h).1 ≡ none)
unfolding construct destruct reset is_available try_lock unlock
construct-destruct locks at (inl free) =
    ((λ h. free, λ h. rw free), ground arith, λ j. ground arith, ground arith)
construct-destruct locks at (inr taken) =
    ((λ h. ground arith, λ h. ground arith), ground arith, λ j. ground arith, ground arith)

-- After an assignment by move between two objects both hold the other's lock, whatever they held.
-- So once the first of them has ended and a third guard has taken the lock, the end of the second
-- frees it under the third.
pub move_assign_unlocks_twice :
    (locks : ℕ → ℕ) (self : Holder) (at : ℕ)
    → locks at ≡ 1
    → let (l, a, b) = move_assign try_spin locks self (some at) in
      let (l', c) = construct try_spin (destruct try_spin l b) at in
      (a ≡ some at) × (b ≡ some at) × (c ≡ some at) × (l' at ≡ 1) × (destruct try_spin l' a at ≡ 0)
unfolding move_assign construct destruct try_lock unlock
move_assign_unlocks_twice locks none at taken = ground arith
move_assign_unlocks_twice locks (some b) at taken = ground arith
