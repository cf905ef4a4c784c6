-- ===== src/Task/Phases.antt =====
-- What one access does to the numbers of the threads that own the task, owe it a notification, or
-- run its coroutine.
use libcopp.Base.{ℕ, ◌+◌, ◌≤◌, ◌<◌, ◌≡◌, refl, ◌≢◌, ◌⊎◌, inl, inr, Option, none, some, arith}
use libcopp.TaskManager.Manager.{TaskStatus, status_rank}
use libcopp.Task.{
  Turn, at_work, at_end, Task, Pc, outside, start_loop, start_co, start_in, start_back, start_done,
  start_wait, notify_loop, notify_in, notify_end, notify_next, cancel_loop, kill_loop, kill_store,
  next_push,
}

-- A thread owns the task from the start of its coroutine to where it gives the status back.
abbrev pub owns : Pc → ℕ
owns (start_co p) = 1
owns (start_in p) = 1
owns (start_back p ret) = 1
owns (start_done p ret from) = 1
owns (start_wait ret from) = 1
owns _ = 0

-- It owes a notification until it has called `on_finished`.
abbrev pub owes : Pc → ℕ
owes (notify_loop p ret) = 1
owes (notify_in p ret) = 1
owes (notify_end p ret) = 1
owes _ = 0

abbrev pub runs : Pc → ℕ
runs (start_in p) = 1
runs (notify_in p ret) = 1
runs _ = 0

-- The status by its rank, how many threads own the task, how many notifications are made or owed,
-- and how many of them are late.
pub data Phase (r o n late : ℕ) : Type 0 where
  is_free : r < 4 → r ≢ 2 → o ≡ 0 → n ≡ 0 → late ≡ 0 → Phase r o n late
  is_owned : r ≡ 2 → o ≡ 1 → n ≡ 0 → late ≡ 0 → Phase r o n late
  is_ended : 4 ≤ r → o ≤ 1 → n + o ≡ 1 + late → Phase r o n late

abbrev pub Over : Task → Type 0
Over t = (t.coroutine_obj ≡ none) ⊎ (t.coroutine_obj ≡ some at_end)

abbrev pub turn_runs : Option Turn → ℕ
turn_runs (some at_work) = 1
turn_runs _ = 0

pub record Good (t : Task) (o w u : ℕ) : Type 0 where
  pub phase : Phase (status_rank t.status) o (t.on_finished_calls + w) t.late
  pub turns : u ≡ turn_runs t.coroutine_obj
  pub after : 0 < t.on_finished_calls → Over t

-- What a thread has seen of the status while it owns the task.
abbrev pub Saw : Task → TaskStatus → Type 0
Saw t from = (status_rank from ≡ 2) ⊎ ((4 ≤ status_rank from) × (4 ≤ status_rank t.status))

abbrev pub Fits : Task → Pc → Type 0
Fits t (start_done p ret from) = Saw t from
Fits t (start_wait ret from) = Saw t from
Fits t (notify_end p ret) = Over t
Fits t (kill_loop status p from) = 4 ≤ status_rank status
Fits t _ = Unit

-- What no access takes back.
pub record Grows (t t' : Task) : Type 0 where
  pub ended : 4 ≤ status_rank t.status → 4 ≤ status_rank t'.status
  pub over : Over t → Over t'

Saw-Grows : (t t' : Task) (from : TaskStatus) → Grows t t' → Saw t from → Saw t' from
Saw-Grows t t' from g (inl e) = inl e
Saw-Grows t t' from g (inr (h, k)) = inr (h, g.ended k)

pub Fits-Grows : (t t' : Task) (pc : Pc) → Grows t t' → Fits t pc → Fits t' pc
Fits-Grows t t' (start_done p ret from) g h = Saw-Grows t t' from g h
Fits-Grows t t' (start_wait ret from) g h = Saw-Grows t t' from g h
Fits-Grows t t' (notify_end p ret) g h = g.over h
Fits-Grows t t' (kill_loop status p from) g h = h
Fits-Grows t t' (outside a) g h = tt
Fits-Grows t t' (start_loop p from) g h = tt
Fits-Grows t t' (start_co p) g h = tt
Fits-Grows t t' (start_in p) g h = tt
Fits-Grows t t' (start_back p ret) g h = tt
Fits-Grows t t' (notify_loop p ret) g h = tt
Fits-Grows t t' (notify_in p ret) g h = tt
Fits-Grows t t' (notify_next ret) g h = tt
Fits-Grows t t' (cancel_loop p from) g h = tt
Fits-Grows t t' (kill_store p) g h = tt
Fits-Grows t t' (next_push n p) g h = tt

-- `o`, `w` and `u` are the numbers of the other threads.
pub record Goes (o w u : ℕ) (t : Task) (s : Task × Pc) : Type 0 where
  pub good : Good s.0 (o + owns s.1) (w + owes s.1) (u + runs s.1)
  pub fits : Fits s.0 s.1
  pub grows : Grows t s.0

pub same-Grows : (t : Task) → Grows t t
same-Grows t = record { ended = λ h. h; over = λ h. h }

module _ (r o a w late s : ℕ) where
  pub claimed :
      r < 4 → r ≢ 2 → Phase r (o + 0) (a + (w + 0)) late → Phase 2 (o + 1) (a + (w + 0)) late
  claimed h k (is_free _ _ e m l) = is_owned refl (omega arith) m l
  claimed h k (is_owned e _ _ _) = absurd (k e)
  claimed h k (is_ended e _ _) = absurd (omega arith)

  -- The owner ends the task, or finds that it has ended.
  pub closed :
      4 ≤ s
      → Phase r (o + 1) (a + (w + 0)) late
      → (r ≡ 2) ⊎ (4 ≤ r)
      → Phase s (o + 0) (a + (w + 1)) late
  closed h (is_free _ _ e _ _) k = absurd (omega arith)
  closed h (is_owned _ e m l) k = is_ended h (omega arith) (omega arith)
  closed h (is_ended _ e m) k = is_ended h (omega arith) (omega arith)

  pub rests :
      r ≡ 2
      → s < 4
      → s ≢ 2
      → Phase r (o + 1) (a + (w + 0)) late
      → Phase s (o + 0) (a + (w + 0)) late
  rests e h k (is_free _ _ m _ _) = absurd (omega arith)
  rests e h k (is_owned _ m n l) = is_free h k (omega arith) n l
  rests e h k (is_ended m _ _) = absurd (omega arith)

  -- `cancel` or `kill` takes a task that runs, one that does not, and one that has ended.
  pub taken_running :
      r ≡ 2 → 4 ≤ s → Phase r (o + 0) (a + (w + 0)) late → Phase s (o + 0) (a + (w + 0)) late
  taken_running e h (is_free _ k _ _ _) = absurd (k e)
  taken_running e h (is_owned _ m n l) = is_ended h (omega arith) (omega arith)
  taken_running e h (is_ended m _ _) = absurd (omega arith)

  pub taken_free :
      r < 4
      → r ≢ 2
      → 4 ≤ s
      → Phase r (o + 0) (a + (w + 0)) late
      → Phase s (o + 0) (a + (w + 1)) late
  taken_free h k i (is_free _ _ m n l) = is_ended i (omega arith) (omega arith)
  taken_free h k i (is_owned e _ _ _) = absurd (k e)
  taken_free h k i (is_ended e _ _) = absurd (omega arith)

  pub taken_late :
      4 ≤ r → 4 ≤ s → Phase r (o + 0) (a + (w + 0)) late → Phase s (o + 0) (a + (w + 1)) (late + 1)
  taken_late h i (is_free e _ _ _ _) = absurd (omega arith)
  taken_late h i (is_owned e _ _ _) = absurd (omega arith)
  taken_late h i (is_ended e m n) = is_ended i m (omega arith)

  -- An owner knows that the task runs or has ended.
  pub owned_or_ended : Phase r (o + 1) (a + (w + 0)) late → (r ≡ 2) ⊎ (4 ≤ r)
  owned_or_ended (is_free _ _ m _ _) = absurd (omega arith)
  owned_or_ended (is_owned e _ _ _) = inl e
  owned_or_ended (is_ended e _ _) = inr e

  -- What was owed is done.
  pub paid : Phase r (o + 0) (a + (w + 1)) late → Phase r (o + 0) (a + 1 + (w + 0)) late
  paid (is_free h k m n l) = absurd (omega arith)
  paid (is_owned h m n l) = absurd (omega arith)
  paid (is_ended h m n) = is_ended h m (omega arith)
