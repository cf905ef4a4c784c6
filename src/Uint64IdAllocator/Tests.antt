-- ===== src/Uint64IdAllocator/Tests.antt =====
-- Two threads that load the same sequence, of which one has to try again, and a cache.
use libcopp.Base.{ℕ, ◌≡◌, refl, [], ◌∷◌, arith}
use libcopp.Uint64IdAllocator.{
  with_pc, has_seq, has_time, reads, Cache, Threads, fresh, loads, tries, Reach, begins, later,
  attempt, is_waiting, needs_time, next_value, time_part,
}
use libcopp.Uint64IdAllocator.Unique.{Decreasing, Reach-Decreasing}

abbrev load_into : Threads → ℕ → Threads
load_into t i = with_pc t i (has_seq t.seq_alloc)

abbrev read : Threads → ℕ → ℕ → Threads
read t i res = with_pc t i (has_time res t.clock)

abbrev both_ready : Threads
both_ready = read (read (load_into (load_into (fresh 200000000) 0) 1) 1 0) 0 0

both_ready-Reach : Reach 200000000 both_ready
unfolding is_waiting needs_time time_part
both_ready-Reach =
    later (later (later (later begins (loads 0)) (loads 1)) (reads 1 0 refl refl))
      (reads 0 0 refl refl)

abbrev both_tried : Threads
both_tried = attempt (attempt both_ready 0 0 200000000) 1 0 200000000

both_tried-Reach : Reach 200000000 both_tried
unfolding attempt next_value needs_time time_part
both_tried-Reach =
    later (later both_ready-Reach (tries 0 0 200000000 refl)) (tries 1 0 200000000 refl)

abbrev again : ℕ
again = both_tried.seq_alloc

abbrev two_issued : Threads
two_issued =
    attempt (with_pc (load_into both_tried 1) 1 (has_time again 200000000)) 1 again 200000000

two_issued-Reach : Reach 200000000 two_issued
unfolding attempt is_waiting needs_time next_value time_part
two_issued-Reach =
    later (later (later both_tried-Reach (loads 1)) (reads 1 again refl refl))
      (tries 1 again 200000000 refl)

two_issued-issued : two_issued.issued ≡ 3355443200000001 ∷ 3355443200000000 ∷ []
unfolding attempt next_value needs_time time_part
two_issued-issued = refl

Reach-Decreasing_example : Decreasing two_issued.issued
Reach-Decreasing_example =
    Reach-Decreasing 200000000 two_issued (ground arith) (ground arith) two_issued-Reach

abbrev cached : Cache
cached = record { base = 90; inner_seq = 31 }
