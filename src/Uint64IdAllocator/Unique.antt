-- ===== src/Uint64IdAllocator/Unique.antt =====
-- No id is given twice.
use libcopp.Base.{
  sym, ℕ, ◌+◌, ◌*◌, ◌/◌, ◌%◌, ◌^◌, ◌≤◌, ◌<◌, ◌≡◌, refl, ◌≢◌, ◌⊎◌, inl, inr, false, ◌||◌, List, [],
  ◌∷◌, arith, leb, ◌==◌, size_mod, Bool-cases, All, All-mono,
}
use libcopp.Uint64IdAllocator.{
  Pc, at_head, has_seq, has_time, with_pc, reads, seq_mod, Threads, time_part, needs_time,
  is_waiting, next_value, attempt, Step, passes, loads, tries, fails, Reach, begins, later, Cache,
  tls_cache_count, allocate,
}

-- Each id is below the ones that were given after it.
abbrev pub Decreasing : List ℕ → Type 0
Decreasing [] = Unit
Decreasing (a ∷ l) = All (λ b. b < a) l × Decreasing l

record Inv (t : Threads) : Type 0 where
  positive : 0 < t.clock
  small : t.clock < 2 ^ 32
  behind : t.seq_alloc / seq_mod ≤ t.clock
  below : All (λ b. b ≤ t.seq_alloc) t.issued
  decreasing : Decreasing t.issued
  seen : (i res : ℕ) → t.pc i ≡ has_seq res → res / seq_mod ≤ t.clock
  timed :
      (i res now : ℕ)
      → t.pc i ≡ has_time res now
      → (res < next_value res now) × (next_value res now / seq_mod ≤ t.clock)

-- The next value is above the sequence, and its time is not after the clock.
next_value_bounds :
    (res clock : ℕ)
    → 0 < clock
    → clock < 2 ^ 32
    → res / seq_mod ≤ clock
    → is_waiting res clock ≡ false
    → (res < next_value res clock) × (next_value res clock / seq_mod ≤ clock)
unfolding next_value is_waiting needs_time time_part
next_value_bounds res clock p s b w =
    let small : clock * seq_mod % size_mod ≡ clock * seq_mod = omega arith in
    let up : (res + 1) % size_mod ≡ res + 1 = omega arith in
    elim (Bool-cases (needs_time res)) [
      | inl e ↦
          let other : (res / seq_mod == clock) ≡ false = ground (arith, e, w) in
          let before : res / seq_mod < clock = ground arith in
          rw (e, next_value) (omega (arith, small, before), omega (arith, small))
      | inr e ↦
          let same : res / seq_mod ≡ (res + 1) % size_mod / seq_mod = ground (arith, e) in
          rw (e, next_value) (omega (arith, up), omega (arith, same, b))
    ]

with_pc-Inv :
    (t : Threads) (i : ℕ) (p : Pc)
    → Inv t
    → ((res : ℕ) → p ≡ has_seq res → res / seq_mod ≤ t.clock)
    → ((res now : ℕ)
        → p ≡ has_time res now
        → (res < next_value res now) × (next_value res now / seq_mod ≤ t.clock))
    → Inv (with_pc t i p)
with_pc-Inv t i p n h k = record {
  positive = n.positive;
  small = n.small;
  behind = n.behind;
  below = n.below;
  decreasing = n.decreasing;
  seen = λ j res e. elim (Bool-cases (i == j)) [
    | inl at ↦ h res (ground (arith, e, at))
    | inr at ↦ n.seen j res (ground (arith, e, at))
  ];
  timed = λ j res now e. elim (Bool-cases (i == j)) [
    | inl at ↦ k res now (ground (arith, e, at))
    | inr at ↦ n.timed j res now (ground (arith, e, at))
  ];
}

attempt-Inv :
    (t : Threads) (i res now : ℕ) → Inv t → t.pc i ≡ has_time res now → Inv (attempt t i res now)
unfolding attempt
attempt-Inv t i res now n has = elim (Bool-cases (t.seq_alloc == res)) [
  | inr e ↦ rw (e, attempt) (with_pc-Inv t i at_head n (λ r h. absurd cc) (λ r s h. absurd cc))
  | inl e ↦
      let at : t.seq_alloc ≡ res = ground arith in
      let (up, time) = n.timed i res now has in
      let some_id : (next_value res now == 0) ≡ false = ground (arith, up) in
      let above =
        All-mono (λ b. b ≤ t.seq_alloc) (λ b. b < next_value res now) t.issued
          (λ b h. omega (arith, h, up, at)) n.below in
      let idle = with_pc-Inv t i at_head n (λ r h. absurd cc) (λ r s h. absurd cc) in
      rw (e, some_id, attempt)
        (record {
          positive = n.positive;
          small = n.small;
          behind = time;
          below = (
            omega arith,
            All-mono (λ b. b < next_value res now) (λ b. b ≤ next_value res now) t.issued
                (λ b h. omega (arith, h)) above,
          );
          decreasing = (above, n.decreasing);
          seen = idle.seen;
          timed = idle.timed;
        })
]

Step-Inv : (t u : Threads) → Inv t → Step t u → Inv u
Step-Inv t _ n (passes seconds h) = record {
  positive = omega (arith, n.positive);
  small = h;
  behind = omega (arith, n.behind);
  below = n.below;
  decreasing = n.decreasing;
  seen = λ i res e. omega (arith, n.seen i res e);
  timed = λ i res now e. ((n.timed i res now e).0, omega (arith, (n.timed i res now e).1));
}
Step-Inv t _ n (loads i) =
    with_pc-Inv t i (has_seq t.seq_alloc) n
      (λ res e. let at : t.seq_alloc ≡ res = cc in rw (sym at) n.behind) (λ r s h. absurd cc)
Step-Inv t _ n (reads i res e w) =
    with_pc-Inv t i (has_time res t.clock) n (λ r h. absurd cc)
      (λ r s h.
        let at : res ≡ r = cc in
        let at' : t.clock ≡ s = cc in
        rw (sym at, sym at') (next_value_bounds res t.clock n.positive n.small (n.seen i res e) w))
Step-Inv t _ n (tries i res now e) = attempt-Inv t i res now n e
Step-Inv t _ n (fails i) = with_pc-Inv t i at_head n (λ r h. absurd cc) (λ r s h. absurd cc)

Reach-Inv : (clock : ℕ) (t : Threads) → 0 < clock → clock < 2 ^ 32 → Reach clock t → Inv t
Reach-Inv clock _ p s begins = record {
  positive = p;
  small = s;
  behind = omega arith;
  below = tt;
  decreasing = tt;
  seen = λ i res e. absurd cc;
  timed = λ i res now e. absurd cc;
}
Reach-Inv clock u p s (later {t} r st) = Step-Inv t u (Reach-Inv clock t p s r) st

-- Between 2020 and the end of the 32 bits of the clock, with a clock that does not go back, the ids
-- that the threads get, in whatever order their accesses interleave, are strictly increasing.
pub Reach-Decreasing :
    (clock : ℕ) (t : Threads) → 0 < clock → clock < 2 ^ 32 → Reach clock t → Decreasing t.issued
Reach-Decreasing clock t p s r = (Reach-Inv clock t p s r).decreasing

-- From a base that is not 0 and below 2 ^ 56 the id has the base and the place in the cache as its
-- parts. The place is the next one in the cached base, or the first in the new base if the cache was
-- new or used up.
pub allocate-parts :
    (c : Cache) (base : ℕ)
    → base ≢ 0
    → base < 2 ^ 56
    → c.base < 2 ^ 56
    → let (c', id) = allocate c base in
      (id / tls_cache_count ≡ c'.base)
      × (id % tls_cache_count + 1 ≡ c'.inner_seq)
      × (c'.base ≢ 0)
      × ((c'.base ≡ c.base) × (c'.inner_seq ≡ c.inner_seq + 1)
          ⊎ (c'.base ≡ base)
            × (c'.inner_seq ≡ 1)
            × ((c.base ≡ 0) ⊎ (tls_cache_count ≤ c.inner_seq)))
unfolding allocate
allocate-parts c base h k l = elim (Bool-cases ((c.base == 0) || leb tls_cache_count c.inner_seq)) [
  | inl e ↦ rw (e, allocate) (omega arith, omega arith, h, inr (refl, refl, ground (arith, e)))
  | inr e ↦
      let place : c.inner_seq < tls_cache_count = ground (arith, e) in
      let known : (c.base == 0) ≡ false = ground (arith, e) in
      rw (e, allocate)
        (
          omega (arith, place),
          omega (arith, place),
          (λ z. ground (arith, z, known)),
          inl (refl, refl),
        )
]
