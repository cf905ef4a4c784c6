-- ===== src/Uint64IdAllocator.antt =====
-- src/libcopp/utils/uint64_id_allocator.cpp: any number of threads that interleave their loads and
-- compare-exchanges of the sequence, and the cache of each thread.
pub mod Unique
mod Tests
use libcopp.Base.{
  ℕ, ◌+◌, ◌*◌, ◌/◌, ◌%◌, ◌^◌, ◌<◌, ◌≡◌, Bool, false, not, ◌&&◌, ◌||◌, List, [], ◌∷◌, leb, ◌==◌,
  if◌then◌else◌, size_mod, update,
}

abbrev pub seq_mod : ℕ
seq_mod = 2 ^ 24

-- Where a thread stands in the loop: at its head, with the sequence that it has loaded, or with that
-- and what it has computed `now_time` to be, the seconds since 2020.
pub data Pc : Type 0 where
  at_head : Pc
  has_seq : ℕ → Pc
  has_time : ℕ → ℕ → Pc

-- `clock` is what `now_time` would be computed to be now, and `issued` holds the ids that the threads
-- have got, the last one first.
pub record Threads : Type 0 where
  pub seq_alloc : ℕ
  pub clock : ℕ
  pub pc : ℕ → Pc
  pub issued : List ℕ

abbrev pub fresh : ℕ → Threads
fresh clock = record { seq_alloc = 0; clock = clock; pc = λ i. at_head; issued = [] }

abbrev pub with_pc : Threads → ℕ → Pc → Threads
with_pc t i p = record t { pc = update t.pc i p }

pub time_part : ℕ → ℕ
time_part res = res / seq_mod

pub needs_time : ℕ → Bool
unfolding time_part
needs_time res = (time_part res == 0) || not (time_part res == time_part ((res + 1) % size_mod))

-- The loop that reads the clock goes on while it is in the second of the sequence.
pub is_waiting : ℕ → ℕ → Bool
unfolding needs_time
is_waiting res clock = needs_time res && (time_part res == clock)

pub next_value : ℕ → ℕ → ℕ
unfolding needs_time
next_value res clock = if needs_time res then clock * seq_mod % size_mod else (res + 1) % size_mod

-- The compare-exchange of thread `i` with what it has. If it fails, or if the id would be 0, the
-- thread is back at the head of the loop.
pub attempt : Threads → ℕ → ℕ → ℕ → Threads
unfolding next_value
attempt t i res now =
    let ret = next_value res now in
    if t.seq_alloc == res
    then record t {
      seq_alloc = ret;
      pc = update t.pc i at_head;
      issued = if ret == 0 then t.issued else ret ∷ t.issued;
    }
    else with_pc t i at_head

-- `fails` is the spurious failure of a weak compare-exchange.
pub data Step (t : Threads) : Threads → Type 0 where
  passes :
      (seconds : ℕ) → t.clock + seconds < 2 ^ 32 → Step t (record t { clock = t.clock + seconds })
  loads : (i : ℕ) → Step t (with_pc t i (has_seq t.seq_alloc))
  reads :
      (i res : ℕ)
      → t.pc i ≡ has_seq res
      → is_waiting res t.clock ≡ false
      → Step t (with_pc t i (has_time res t.clock))
  tries : (i res now : ℕ) → t.pc i ≡ has_time res now → Step t (attempt t i res now)
  fails : (i : ℕ) → Step t (with_pc t i at_head)

pub data Reach (clock : ℕ) : Threads → Type 0 where
  begins : Reach clock (fresh clock)
  later : {t u : Threads} → Reach clock t → Step t u → Reach clock u

-- `uint64_id_allocator_tls_cache_t`
pub record Cache : Type 0 where
  pub base : ℕ
  pub inner_seq : ℕ

abbrev pub tls_cache_count : ℕ
tls_cache_count = 2 ^ 5

-- `uint64_id_allocator::allocate`; `base` is what `allocate_id_by_atomic` returns, which is not 0, so
-- that the loop ends after one round.
pub allocate : Cache → ℕ → Cache × ℕ
allocate c base =
    let c' =
      if (c.base == 0) || leb tls_cache_count c.inner_seq
      then record { base = base; inner_seq = 0 }
      else c in
    (
      record c' { inner_seq = c'.inner_seq + 1 },
      (c'.base * tls_cache_count % size_mod + c'.inner_seq) % size_mod,
    )
