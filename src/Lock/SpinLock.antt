-- ===== src/Lock/SpinLock.antt =====
-- include/libcopp/utils/spin_lock.h: the lock, and any number of threads that share one. Each
-- atomic access is one step; a thread calls `unlock` and `try_unlock` only while it has the lock.
pub mod Exclusion
mod Tests
use libcopp.Base.{ℕ, ◌+◌, ◌%◌, ◌≡◌, Bool, true, false, not, ltb, ◌==◌, if◌then◌else◌, update}
use libcopp.Lock.Atomic.{store, load, exchange}

abbrev pub unlocked : ℕ
unlocked = 0

abbrev pub locked : ℕ
locked = 1

-- How a thread waits between two tries of `lock`, by their number, an `unsigned char`.
pub data Wait : Type 0 where
  busy pause thread_yield cpu_yield thread_sleep : Wait

pub wait_of : ℕ → Wait
wait_of try_lock_times =
    if ltb try_lock_times 4
    then busy
    else if ltb try_lock_times 16
    then pause
    else if ltb try_lock_times 32
    then thread_yield
    else if ltb try_lock_times 64
    then cpu_yield
    else thread_sleep

-- One round of the loop of `lock`: whether it ends, and the lock's new value.
pub lock_round : ℕ → Bool × ℕ
unfolding exchange
lock_round status = let (old, new) = exchange status locked in (not (old == locked), new)

unfoldable pub try_lock : ℕ → Bool × ℕ
unfolding exchange
try_lock status = let (old, new) = exchange status locked in (old == unlocked, new)

unfoldable pub unlock : ℕ → ℕ
unfolding store
unlock status = store status unlocked

pub try_unlock : ℕ → Bool × ℕ
unfolding exchange
try_unlock status = let (old, new) = exchange status unlocked in (old == locked, new)

pub is_locked : ℕ → Bool
unfolding load
is_locked status = load status == locked

-- Where a thread stands: outside, in the loop of `lock` with its `try_times`, or with the lock.
pub data Pc : Type 0 where
  outside : Pc
  spinning : ℕ → Pc
  holding : Pc

pub record Threads : Type 0 where
  pub status : ℕ
  pub pc : ℕ → Pc

-- The constructor of the lock, before any thread uses it.
abbrev pub fresh : Threads
fresh = record { status = unlocked; pc = λ _. outside }

pub data Call : Type 0 where
  locks try_locks unlocks try_unlocks looks : Call

-- The calls that a thread makes from where it stands.
pub allowed : Pc → Call → Bool
allowed outside locks = true
allowed outside try_locks = true
allowed (spinning n) locks = true
allowed holding unlocks = true
allowed holding try_unlocks = true
allowed p looks = true
allowed _ _ = false

-- A try of `lock` that fails counts on, modulo 256.
abbrev pub next_try : Pc → Pc
next_try (spinning n) = spinning ((n + 1) % 256)
next_try _ = spinning 0

-- The access that thread `i` makes.
pub act : Threads → ℕ → Call → Threads
unfolding lock_round try_lock unlock try_unlock
act t i locks =
    let (ends, s) = lock_round t.status in
    record { status = s; pc = update t.pc i (if ends then holding else next_try (t.pc i)) }
act t i try_locks =
    let (won, s) = try_lock t.status in
    record { status = s; pc = update t.pc i (if won then holding else outside) }
act t i unlocks = record { status = unlock t.status; pc = update t.pc i outside }
act t i try_unlocks = record { status = (try_unlock t.status).1; pc = update t.pc i outside }
act t i looks = t

pub data Step (t : Threads) : Threads → Type 0 where
  acts : (i : ℕ) (c : Call) → allowed (t.pc i) c ≡ true → Step t (act t i c)

pub data Reach : Threads → Type 0 where
  start : Reach fresh
  later : {t u : Threads} → Reach t → Step t u → Reach u
