-- ===== src/Lock/SpinLock/Tests.antt =====
-- Two threads that meet at the lock.
use libcopp.Base.{ℕ, ◌+◌, ◌%◌, ◌≤◌, ◌≡◌, refl, ◌⊎◌, arith}
use libcopp.Lock.SpinLock.{
  unlocked, locked, wait_of, busy, spinning, next_try, Threads, fresh, locks, unlocks, allowed, act,
  Reach, start, later, acts,
}
use libcopp.Lock.SpinLock.Exclusion.{IsHolder, mutual_exclusion, lock_progress, rank, wait_of_mono}

abbrev first_in : Threads
first_in = act fresh 0 locks

-- Thread 0 has the lock; thread 1 has tried twice.
abbrev contended : Threads
contended = act (act first_in 1 locks) 1 locks

first_in-Reach : Reach first_in
unfolding allowed
first_in-Reach = later start (acts 0 locks refl)

contended-Reach : Reach contended
unfolding allowed act
contended-Reach = later (later first_in-Reach (acts 1 locks refl)) (acts 1 locks refl)

second_try : contended.pc 1 ≡ spinning 1
unfolding act
second_try = refl

mutual_exclusion_example :
    ((i j : ℕ) → IsHolder contended i → IsHolder contended j → i ≡ j)
    × (((contended.status ≡ unlocked) × ((i : ℕ) → ¬ IsHolder contended i))
        ⊎ ((contended.status ≡ locked) × ((i : ℕ) × IsHolder contended i)))
mutual_exclusion_example = mutual_exclusion contended-Reach

lock_progress_example :
    (((j : ℕ) → ¬ IsHolder contended j) → IsHolder (act contended 1 locks) 1)
    × ((j : ℕ)
        → IsHolder contended j
        → IsHolder (act contended 1 locks) j
          × ((act contended 1 locks).status ≡ contended.status)
          × (¬ IsHolder (act contended 1 locks) 1)
          × ((act contended 1 locks).pc 1 ≡ next_try (contended.pc 1))
          × IsHolder (act (act (act contended 1 locks) j unlocks) 1 locks) 1)
unfolding allowed act
lock_progress_example = lock_progress contended-Reach 1 refl

wait_of_mono_example : (rank (wait_of 3) ≤ rank (wait_of 20)) × (wait_of ((255 + 1) % 256) ≡ busy)
wait_of_mono_example = wait_of_mono 3 20 (omega arith) (omega arith)
