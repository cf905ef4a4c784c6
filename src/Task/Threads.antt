-- ===== src/Task/Threads.antt =====
-- Any number of threads that call one task and interleave, one access a step.
use libcopp.Base.{[], ℕ, zero, suc, ◌≡◌, Bool, true, List, ◌∷◌, ◌++◌, leb, if◌then◌else◌}
use libcopp.Errno.{CoppErrorCode, success}
use libcopp.TaskManager.Manager.{TaskStatus, running, done, status_rank}
use libcopp.Task.{
  at_rest, at_end, Task, new_task, is_completed, Answer, code, handle, Pc, outside, start_loop,
  start_co, start_in, start_back, start_done, start_wait, notify_loop, notify_in, notify_end,
  notify_next, cancel_loop, kill_loop, kill_store, next_push, Call, kill,
}
use libcopp.Task.Accesses.{
  begin, try_start, enter_co, after_co, try_done, try_wait, try_cancel, try_kill, notify_round,
  notify_impl, active_next_tasks,
}

-- The status that `kill` sets is one of a task that has ended.
abbrev pub allowed : Call → Bool
allowed (kill status p) = leb (status_rank done) (status_rank status)
allowed _ = true

-- The next access of a thread at a place. A coroutine that runs yields or ends.
pub data Move (t : Task) : Pc → Task × Pc → Type 0 where
  begins : (a : Answer) (c : Call) → allowed c ≡ true → Move t (outside a) (begin t c)
  starts :
      (spurious : Bool) (p : ℕ) (from : TaskStatus)
      → Move t (start_loop p from) (try_start spurious t p from)
  enters : (p : ℕ) → Move t (start_co p) (enter_co t (start_in p) (start_back p))
  yields : (p : ℕ) → Move t (start_in p) (after_co t at_rest, start_back p success)
  finishes : (p : ℕ) → Move t (start_in p) (after_co t at_end, start_back p success)
  looks :
      (p : ℕ) (ret : CoppErrorCode)
      → Move t
          (start_back p ret)
          (t, if is_completed t then start_done p ret running else start_wait ret running)
  completes :
      (spurious : Bool) (p : ℕ) (ret : CoppErrorCode) (from : TaskStatus)
      → Move t (start_done p ret from) (try_done spurious t p ret from)
  waits :
      (spurious : Bool) (ret : CoppErrorCode) (from : TaskStatus)
      → Move t (start_wait ret from) (try_wait spurious t ret from)
  notifies : (p : ℕ) (ret : CoppErrorCode) → Move t (notify_loop p ret) (notify_round t p ret)
  yields_again :
      (p : ℕ) (ret : CoppErrorCode)
      → Move t (notify_in p ret) (after_co t at_rest, notify_loop p ret)
  finishes_at_last :
      (p : ℕ) (ret : CoppErrorCode)
      → Move t (notify_in p ret) (after_co t at_end, notify_loop p ret)
  ends :
      (p : ℕ) (ret : CoppErrorCode) → Move t (notify_end p ret) (notify_impl t p, notify_next ret)
  activates :
      (ret : CoppErrorCode) → Move t (notify_next ret) (active_next_tasks t, outside (code ret))
  cancels :
      (spurious : Bool) (p : ℕ) (from : TaskStatus)
      → Move t (cancel_loop p from) (try_cancel spurious t p from)
  kills :
      (spurious : Bool) (status : TaskStatus) (p : ℕ) (from : TaskStatus)
      → Move t (kill_loop status p from) (try_kill spurious t status p from)
  stores :
      (p : ℕ) → Move t (kill_store p) (record t { finish_priv_data = p }, outside (code success))
  pushes :
      (n p : ℕ)
      → Move t
          (next_push n p)
          (record t { next_list = t.next_list ++ ((n, p) ∷ []) }, outside (handle n))

-- The task, and the places of the threads, one of which moves in a step.
abbrev pub System : Type 0
System = Task × List Pc

pub data Step : System → System → Type 0 where
  acts :
      {t : Task} {pc : Pc} {s : Task × Pc} (before after : List Pc)
      → Move t pc s
      → Step (t, before ++ (pc ∷ after)) (s.0, before ++ (s.1 ∷ after))

-- The threads begin outside.
abbrev pub idle : ℕ → List Pc
idle zero = []
idle (suc n) = outside (code success) ∷ idle n

pub data Reach (has_coroutine : Bool) (n : ℕ) : System → Type 0 where
  first : Reach has_coroutine n (new_task has_coroutine, idle n)
  later : {s u : System} → Reach has_coroutine n s → Step s u → Reach has_coroutine n u
