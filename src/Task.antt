-- ===== src/Task.antt =====
-- include/libcotask/task.h and src/libcotask/impl/task_impl.cpp: one task, its status, and
-- where a thread stands that calls it. Built with `LIBCOTASK_MACRO_AUTO_CLEANUP_MANAGER` and without
-- exceptions. Of the coroutine only its status is here; other tasks, managers and private data are
-- numbers. A manager is not null.
pub mod Accesses
pub mod Threads
pub mod Phases
pub mod Steps
pub mod Closing
pub mod Ended
pub mod Alone
mod Tests
use libcopp.Base.{
  [], ℕ, Bool, true, false, not, ◌&&◌, Option, none, some, List, leb, ◌==◌, if◌then◌else◌,
}
use libcopp.Errno.{CoppErrorCode, success, not_inited, is_running, already_finished}
use libcopp.TaskManager.Manager.{
  TaskStatus, invalid, created, running, waiting, done, canceled, killed, timeout, status_rank,
}

-- What `coroutine_obj_` is at: ready, when it has not begun or has yielded; running; or finished.
pub data Turn : Type 0 where
  at_rest at_work at_end : Turn

-- The program keeps neither `on_finished_calls`, nor `activated`, the next tasks whose turn to be
-- started or resumed has come, nor `told`, the managers that were told of the end, nor `late`, how often
-- `cancel` or `kill` took a task that was exiting.
pub record Task : Type 0 where
  pub status : TaskStatus
  pub coroutine_obj : Option Turn
  pub finish_priv_data : ℕ
  pub next_list : List (ℕ × ℕ)
  pub binding_manager : Option ℕ
  pub on_finished_calls : ℕ
  pub activated : List (ℕ × ℕ)
  pub told : List ℕ
  pub late : ℕ

-- The constructor.
abbrev pub new_task : Bool → Task
new_task has_coroutine = record {
  status = created;
  coroutine_obj = if has_coroutine then some at_rest else none;
  finish_priv_data = 0;
  next_list = [];
  binding_manager = none;
  on_finished_calls = 0;
  activated = [];
  told = [];
  late = 0;
}

abbrev pub same_status : TaskStatus → TaskStatus → Bool
same_status a b = status_rank a == status_rank b

pub is_canceled : Task → Bool
is_canceled t = same_status t.status canceled

pub is_faulted : Task → Bool
is_faulted t = leb (status_rank killed) (status_rank t.status)

pub is_timeout : Task → Bool
is_timeout t = same_status t.status timeout

pub is_exiting : Task → Bool
is_exiting t = leb (status_rank done) (status_rank t.status)

-- `task::is_completed`
pub is_completed : Task → Bool
is_completed t = elim t.coroutine_obj [ none ↦ false | some at_end ↦ true | some _ ↦ false ]

-- `_cas_status`: whether it stored, what `expected` is then, and the task. `spurious` has the weak
-- compare-exchange fail for no reason.
pub cas_status : Bool → Task → TaskStatus → TaskStatus → Bool × TaskStatus × Task
cas_status spurious t expected desired =
    if not spurious && same_status t.status expected
    then (true, expected, record t { status = desired })
    else (false, t.status, t)

-- What a call returns: a code, a truth value, or a task.
pub data Answer : Type 0 where
  code : CoppErrorCode → Answer
  flag : Bool → Answer
  handle : ℕ → Answer

-- Where a thread stands: outside of a call, with what the last one returned; in `start` with its
-- private data; in `_notify_finished` with the code that the call is going to return; or in another
-- call. A status is what `from_status` holds.
pub data Pc : Type 0 where
  outside : Answer → Pc
  start_loop : ℕ → TaskStatus → Pc
  start_co : ℕ → Pc
  start_in : ℕ → Pc
  start_back : ℕ → CoppErrorCode → Pc
  start_done : ℕ → CoppErrorCode → TaskStatus → Pc
  start_wait : CoppErrorCode → TaskStatus → Pc
  notify_loop : ℕ → CoppErrorCode → Pc
  notify_in : ℕ → CoppErrorCode → Pc
  notify_end : ℕ → CoppErrorCode → Pc
  notify_next : CoppErrorCode → Pc
  cancel_loop : ℕ → TaskStatus → Pc
  kill_loop : TaskStatus → ℕ → TaskStatus → Pc
  kill_store : ℕ → Pc
  next_push : ℕ → ℕ → Pc

-- `resume` is `start` with another expected status. A next task is not null and not the task itself.
pub data Call : Type 0 where
  start : ℕ → TaskStatus → Call
  resume : ℕ → Call
  cancel : ℕ → Call
  kill : TaskStatus → ℕ → Call
  next : ℕ → ℕ → Call
  setup_task_manager : ℕ → Call
  cleanup_task_manager : ℕ → Call
