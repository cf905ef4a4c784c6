-- ===== src/Future/Storage.antt =====
-- include/libcopp/future/storage.h, the storage of a poller. Storages are numbers, and a pointer into
-- one is its number.
pub mod Void
pub mod Small
pub mod Heap
pub mod Marks
pub mod Holds
pub mod Agreement
mod Tests
use libcopp.Base.{ℕ, ◌≡◌, false, Option, none, some, ◌==◌, update}

-- What a poller does to its storage, by the overload that it calls. `takes` is the construction from
-- a unique_ptr, which may be null, and `moves` has the target first.
pub data Op (T : Type 0) : Type 0 where
  defaults : ℕ → Op T
  takes : ℕ → Option T → Op T
  holds : ℕ → T → Op T
  moves : ℕ → ℕ → Op T
  resets : ℕ → Op T
  swaps : ℕ → ℕ → Op T

-- What every storage promises: it is empty or has a value.
pub promised : {T : Type 0} → Op T → (ℕ → Option T) → ℕ → Option T
promised (defaults i) a = update a i none
promised (takes i o) a = update a i o
promised (holds i v) a = update a i (some v)
promised (moves out from) a = update (update a out (a from)) from none
promised (resets i) a = update a i none
promised (swaps l r) a = update (update a l (a r)) r (a l)

-- A move has two storages.
abbrev pub IsProper : {T : Type 0} → Op T → Type 0
IsProper (moves out from) = (out == from) ≡ false
IsProper _ = Unit
