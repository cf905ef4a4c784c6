-- ===== src/Lock/Atomic/Tests.antt =====
-- The operations at 8 bits.
use libcopp.Base.{◌≡◌, refl}
use libcopp.Lock.Atomic.{pre_increment}

wraps_to_zero : pre_increment 8 255 ≡ (0, 0)
unfolding pre_increment
wraps_to_zero = refl
