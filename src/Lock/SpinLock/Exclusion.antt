-- ===== src/Lock/SpinLock/Exclusion.antt =====
-- At most one thread holds the spin lock, and its word says whether one does.
use libcopp.Base.{
  ℕ, sym, ◌∙◌, ◌+◌, ◌%◌, ◌≤◌, ◌<◌, ◌≡◌, refl, ◌≢◌, ◌⊎◌, inl, inr, true, arith, update,
}
use libcopp.Lock.SpinLock.{
  locked, unlocked, Wait, busy, pause, thread_yield, cpu_yield, thread_sleep, wait_of, Pc, next_try,
  outside, spinning, holding, Threads, fresh, Call, locks, try_locks, unlocks, try_unlocks, looks,
  allowed, act, acts, Reach, start, later,
}

abbrev pub IsHolder : Threads → ℕ → Type 0
IsHolder t i = t.pc i ≡ holding

pub record Inv (t : Threads) : Type 0 where
  pub is_bit : (t.status ≡ unlocked) ⊎ (t.status ≡ locked)
  pub says_locked : (i : ℕ) → IsHolder t i → t.status ≡ locked
  pub unique : (i j : ℕ) → IsHolder t i → IsHolder t j → i ≡ j
  pub held : t.status ≡ locked → (i : ℕ) × IsHolder t i

fresh-Inv : Inv fresh
fresh-Inv = record {
  is_bit = inl refl;
  says_locked = λ i h. cc;
  unique = λ i j h k. cc;
  held = λ h. cc;
}

module _ (t : Threads) (i : ℕ) (v : Inv t) where
  -- Thread `i` gets the lock, which was free.
  takes-Inv : t.status ≡ unlocked → Inv (record { status = locked; pc = update t.pc i holding })
  takes-Inv free = record {
    is_bit = inr refl;
    says_locked = λ j h. refl;
    unique = λ j k h m. ground (arith, v.says_locked j, v.says_locked k);
    held = λ _. (i, ground arith);
  }

  -- Thread `i`, which has not got the lock, moves on without it.
  moves-Inv :
      t.status ≡ locked
      → (p : Pc) → p ≢ holding
      → t.pc i ≢ holding
      → Inv (record { status = locked; pc = update t.pc i p })
  moves-Inv taken p out was = record {
    is_bit = inr refl;
    says_locked = λ j h. refl;
    unique = λ j k h m. ground (arith, v.unique j k);
    held = λ h. let (j, e) = v.held taken in (j, ground arith);
  }

  -- Thread `i` gives the lock back.
  gives-Inv : IsHolder t i → Inv (record { status = unlocked; pc = update t.pc i outside })
  gives-Inv h = record {
    is_bit = inl refl;
    says_locked = λ j e. ground (arith, v.unique i j);
    unique = λ j k e m. ground (arith, v.unique j k);
    held = λ e. cc;
  }

next_try-out : (p : Pc) → next_try p ≢ holding
next_try-out outside h = cc
next_try-out (spinning n) h = cc
next_try-out holding h = cc

locks-out : (p : Pc) → allowed p locks ≡ true → p ≢ holding
unfolding allowed
locks-out outside ok h = cc
locks-out (spinning n) ok h = cc
locks-out holding ok h = cc

tries-out : (p : Pc) → allowed p try_locks ≡ true → p ≢ holding
unfolding allowed
tries-out outside ok h = cc
tries-out (spinning n) ok h = cc
tries-out holding ok h = cc

act-Inv : (t : Threads) (i : ℕ) (c : Call) → allowed (t.pc i) c ≡ true → Inv t → Inv (act t i c)
unfolding act allowed
act-Inv t i locks ok v = elim v.is_bit [
  | inl free ↦ rw (free, act) (takes-Inv t i v free)
  | inr taken ↦
      rw (taken, act)
        (moves-Inv t i v taken (next_try (t.pc i)) (next_try-out (t.pc i)) (locks-out (t.pc i) ok))
]
act-Inv t i try_locks ok v = elim v.is_bit [
  | inl free ↦ rw (free, act) (takes-Inv t i v free)
  | inr taken ↦ rw (taken, act) (moves-Inv t i v taken outside (λ h. cc) (tries-out (t.pc i) ok))
]
act-Inv t i unlocks ok v = gives-Inv t i v (ground arith)
act-Inv t i try_unlocks ok v = gives-Inv t i v (ground arith)
act-Inv t i looks ok v = v

Reach-Inv : {t : Threads} → Reach t → Inv t
Reach-Inv start = fresh-Inv
Reach-Inv (later {t} r (acts i c ok)) = act-Inv t i c ok (Reach-Inv r)

-- Whatever the threads do, in any order: two never hold the lock together, and the word of the
-- lock is `LOCKED` exactly while some thread holds it, and `UNLOCKED` otherwise.
pub mutual_exclusion :
    {t : Threads}
    → Reach t
    → ((i j : ℕ) → IsHolder t i → IsHolder t j → i ≡ j)
      × (((t.status ≡ unlocked) × ((i : ℕ) → ¬ IsHolder t i))
          ⊎ ((t.status ≡ locked) × ((i : ℕ) × IsHolder t i)))
mutual_exclusion r =
    let v = Reach-Inv r in
    (
      v.unique,
      elim v.is_bit [
        | inl free ↦ inl (free, λ i h. cc (v.says_locked i h))
        | inr taken ↦ inr (taken, v.held taken)
      ],
    )

-- A round of `lock` gets the lock if and only if no thread holds it. If one does, the round leaves
-- the word and the holder as they are and the caller stays in the loop of `lock`, and if the holder
-- gives the lock back then, the caller's next round gets it.
pub lock_progress :
    {t : Threads}
    → Reach t
    → (i : ℕ) → allowed (t.pc i) locks ≡ true
    → (((j : ℕ) → ¬ IsHolder t j) → IsHolder (act t i locks) i)
      × ((j : ℕ)
          → IsHolder t j
          → IsHolder (act t i locks) j
            × ((act t i locks).status ≡ t.status)
            × (¬ IsHolder (act t i locks) i)
            × ((act t i locks).pc i ≡ next_try (t.pc i))
            × IsHolder (act (act (act t i locks) j unlocks) i locks) i)
unfolding act allowed
lock_progress {t} r i ok =
    let v = Reach-Inv r in
    let out = locks-out (t.pc i) ok in
    (
      (λ none_holds. elim v.is_bit [
        | inl free ↦ rw (free, act) (ground arith)
        | inr taken ↦ let (j, h) = v.held taken in absurd (none_holds j h)
      ]),
      (λ j h.
          let taken = v.says_locked j h in
          let in_loop : (act t i locks).pc i ≡ next_try (t.pc i) = rw (taken, act) (ground arith) in
          (
            rw (taken, act) (ground (arith, out)),
            rw (taken, act) refl,
            (λ k. next_try-out (t.pc i) (sym in_loop ∙ k)),
            in_loop,
            rw (taken, act) (ground arith),
          )),
    )

abbrev pub rank : Wait → ℕ
rank busy = 0
rank pause = 1
rank thread_yield = 2
rank cpu_yield = 3
rank thread_sleep = 4

-- The longer a thread tries, the more it yields, up to try 255; then it starts anew.
pub wait_of_mono :
    (n m : ℕ)
    → n ≤ m
    → m < 256
    → (rank (wait_of n) ≤ rank (wait_of m)) × (wait_of ((255 + 1) % 256) ≡ busy)
unfolding wait_of
wait_of_mono n m h k = ground arith
