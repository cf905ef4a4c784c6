-- ===== src/Lock.antt =====
-- include/libcopp/utils: the integers that stand in for atomic ones (`Atomic`), the spin lock and
-- its use by several threads (`SpinLock`), and the guard object (`LockHolder`).
pub mod Atomic
pub mod SpinLock
pub mod LockHolder
