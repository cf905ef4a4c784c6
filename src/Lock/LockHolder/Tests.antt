-- ===== src/Lock/LockHolder/Tests.antt =====
-- Guards over a free lock and over one that is taken.
use libcopp.Base.{ℕ, ◌≡◌, refl, none, some, ◌==◌, if◌then◌else◌}
use libcopp.Lock.LockHolder.{construct, destruct, move_assign}
use libcopp.Lock.LockHolder.Guards.{try_spin, move_assign_unlocks_twice}

abbrev one_taken : ℕ → ℕ
one_taken at = if at == 7 then 1 else 0

move_assign_unlocks_twice_example :
    let (l, a, b) = move_assign try_spin one_taken none (some 7) in
    let (l', c) = construct try_spin (destruct try_spin l b) 7 in
    (a ≡ some 7) × (b ≡ some 7) × (c ≡ some 7) × (l' 7 ≡ 1) × (destruct try_spin l' a 7 ≡ 0)
move_assign_unlocks_twice_example = move_assign_unlocks_twice one_taken none 7 refl
